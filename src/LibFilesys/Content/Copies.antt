-- ===== src/LibFilesys/Content/Copies.antt =====
-- What LibFilesys.cpp leaves in the files that it writes and copies.
use processing_common.Common.{
  ℕ, ◌≡◌, ◌∙◌, inl, inr, refl, sym, ap, arith, Bool, true, false, not, ◌&&◌, ◌==◌, if◌then◌else◌,
  same_str, same_str_self, same_str_eq, List, [], ◌∷◌, Option, none, some, length,
  take_of_length-le, Bool-cases,
}
use processing_common.LibFilesys.Content.{
  Files, content, written, Access, is_some, file_exists, str_to_file, copied, streams_copy,
  file_copy,
}

same_str_comm : (str str' : List ℕ) → same_str str str' ≡ same_str str' str
unfolding same_str
same_str_comm [] [] = refl
same_str_comm [] (c ∷ str') = refl
same_str_comm (c ∷ str) [] = refl
same_str_comm (c ∷ str) (c' ∷ str') =
    let eq : (c == c') ≡ (c' == c) = ground arith in rw (eq, same_str_comm str str') refl

content-written :
    (path path' str : List ℕ) (fs : Files)
    → content path' (written path str fs)
      ≡ (if same_str path path' then some str else content path' fs)
unfolding content written
content-written path path' str [] = refl
content-written path path' str ((name, old) ∷ fs) = elim (Bool-cases (same_str name path)) [
  | inl same ↦
      let as_path : same_str path path' ≡ same_str name path' =
        ap (λ p. same_str p path') (sym (same_str_eq name path same)) in
      elim (Bool-cases (same_str name path')) [
        | inl here ↦ simp (same, here, as_path)
        | inr there ↦ simp (same, there, as_path)
      ]
  | inr other ↦ elim (Bool-cases (same_str name path')) [
    | inl here ↦
        let apart : same_str path path' ≡ false =
          ap (same_str path) (sym (same_str_eq name path' here))
          ∙ same_str_comm path name
          ∙ other in
        simp (other, here, apart)
    | inr there ↦ simp (other, there, content-written path path' str fs)
  ]
]

-- What a copy leaves in the destination.
abbrev pub copy_of : Bool → List ℕ → List ℕ → Files → Option (List ℕ)
copy_of readable src dst fs = if readable && not (same_str dst src) then content src fs else some []

-- A copy, and what becomes of the files.
pub record IsCopied (readable writable : Bool) (src dst : List ℕ) (fs : Files) (r : Files × Bool)
    : Type 0 where
  pub result : r.1 ≡ (readable && writable)
  pub files :
      (path : List ℕ)
      → content path r.0
        ≡ (if writable && same_str dst path then copy_of readable src dst fs else content path fs)

content-copied :
    (dst path : List ℕ) (o : Option (List ℕ)) (fs : Files)
    → content path (copied dst o fs)
      ≡ (if same_str dst path then (if is_some o then o else content path fs) else content path fs)
content-copied dst path none fs = ground arith
content-copied dst path (some str) fs = content-written dst path str fs

emptied_copied :
    (src dst path : List ℕ) (fs : Files)
    → is_some (content src fs) ≡ true
    → content path (streams_copy true true src dst fs).0
      ≡ (if same_str dst path then copy_of true src dst fs else content path fs)
unfolding streams_copy
emptied_copied src dst path fs known =
    let fs' = written dst [] fs in
    content-copied dst path (content src fs') fs' ∙ elim (Bool-cases (same_str dst path)) [
      | inl here ↦ elim (Bool-cases (same_str dst src)) [
        | inl same ↦ simp (content-written, here, same)
        | inr other ↦ simp (content-written, here, other, known)
      ]
      | inr there ↦ simp (content-written, there)
    ]

streams_copy-IsCopied :
    (readable writable : Bool) (src dst : List ℕ) (fs : Files)
    → (readable ≡ true → is_some (content src fs) ≡ true)
    → IsCopied readable writable src dst fs (streams_copy readable writable src dst fs)
unfolding streams_copy
streams_copy-IsCopied true false src dst fs known = record { result = refl; files = λ path. refl }
streams_copy-IsCopied false false src dst fs known = record { result = refl; files = λ path. refl }
streams_copy-IsCopied false true src dst fs known = record {
  result = refl;
  files = λ path. content-written dst path [] fs;
}
streams_copy-IsCopied true true src dst fs known = record {
  result = refl;
  files = λ path. emptied_copied src dst path fs (known refl);
}

-- Where a write to an open file is complete, fileCopy succeeds if and only if the source can be
-- read and the destination written. If the destination can be written, it has the bytes of the
-- source afterwards where that can be read and is another path, and is empty else; all other files
-- stay as they were.
pub file_copy-IsCopied :
    (a : Access) (src dst : List ℕ) (fs : Files)
    → IsCopied (file_exists a src fs) (a.write dst) src dst fs (file_copy a src dst fs)
unfolding file_copy file_exists
file_copy-IsCopied a src dst fs =
    streams_copy-IsCopied (file_exists a src fs) (a.write dst) src dst fs (λ h. ground (arith, h))

-- A text that strToFile has written with success is what the file holds.
pub content-str_to_file :
    (a : Access) (len_written : ℕ) (str path : List ℕ) (fs : Files)
    → (str_to_file a len_written str path fs).1 ≡ true
    → content path (str_to_file a len_written str path fs).0 ≡ some str
unfolding str_to_file
content-str_to_file a len_written str path fs h = elim (Bool-cases (a.write path)) [
  | inl ok ↦
      let whole : len_written ≡ length str = ground (arith, h) in
      simp (ok, content-written, same_str_self)
        (ap some (take_of_length-le len_written str (omega arith)))
  | inr failed ↦ absurd (ground (arith, h))
]
