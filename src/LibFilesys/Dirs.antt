-- ===== src/LibFilesys/Dirs.antt =====
-- What `dirCreate` leaves behind.
use processing_common.Common.{
  ℕ, ◌≡◌, ◌∙◌, refl, sym, ap, Bool, true, false, ◌==◌, same_str_self, List, [], ◌∷◌, ◌++◌,
  append_assoc, append-nil, Bool-cases, inl, inr,
}
use processing_common.LibFilesys.{has, node_create, node_next, dirs_from, dir_create}

node_create-has :
    (mkdir : List ℕ → Bool) (node : List ℕ) (dirs : List (List ℕ))
    → (node_create mkdir node dirs).1 ≡ true
    → has node (node_create mkdir node dirs).0 ≡ true
unfolding node_create has
node_create-has mkdir [] dirs h = absurd cc
node_create-has mkdir (c ∷ node) dirs h = elim (Bool-cases (has (c ∷ node) dirs)) [
  | inl there ↦ simp there refl
  | inr missing ↦ elim (Bool-cases (mkdir (c ∷ node))) [
    | inl made ↦ simp (missing, made, same_str_self (c ∷ node)) refl
    | inr failed ↦ let no : false ≡ true = simp (missing, failed) at h in absurd cc
  ]
]

next_lem :
    (r : List (List ℕ) × Bool) (next : List (List ℕ) → List (List ℕ) × Bool)
    → (node_next r next).1 ≡ true
    → node_next r next ≡ next r.0
unfolding node_next
next_lem (dirs, true) next h = refl
next_lem (dirs, false) next h = absurd cc

dirs_from_on :
    (mkdir : List ℕ → Bool) (front path : List ℕ) (c : ℕ) (dirs : List (List ℕ))
    → (dirs_from mkdir front (c ∷ path) dirs).1 ≡ true
    → (dirs' : List (List ℕ)) × (dirs_from mkdir front (c ∷ path) dirs
        ≡ dirs_from mkdir (front ++ (c ∷ [])) path dirs')
unfolding dirs_from
dirs_from_on mkdir front path c dirs h = elim (Bool-cases (c == b'/')) [
  | inr other ↦ (dirs, simp other)
  | inl slash ↦
      let r = node_create mkdir front dirs in
      let next = dirs_from mkdir (front ++ (c ∷ [])) path in
      let eq : dirs_from mkdir front (c ∷ path) dirs ≡ node_next r next = simp slash in
      (r.0, eq ∙ next_lem r next (sym (ap (λ (x : List (List ℕ) × Bool). x.1) eq) ∙ h))
]

dirs_from-has :
    (mkdir : List ℕ → Bool) (front path : List ℕ) (dirs : List (List ℕ))
    → (dirs_from mkdir front path dirs).1 ≡ true
    → has (front ++ path) (dirs_from mkdir front path dirs).0 ≡ true
dirs_from-has mkdir front [] dirs h =
    unfold dirs_from in rw (append-nil front) (node_create-has mkdir front dirs h)
dirs_from-has mkdir front (c ∷ path) dirs h =
    let (dirs', eq) = dirs_from_on mkdir front path c dirs h in
    let rest =
      dirs_from-has mkdir (front ++ (c ∷ [])) path dirs'
        (sym (ap (λ (x : List (List ℕ) × Bool). x.1) eq) ∙ h) in
    ap (λ (x : List (List ℕ) × Bool). has (front ++ (c ∷ path)) x.0) eq
    ∙ ap (λ l. has l (dirs_from mkdir (front ++ (c ∷ [])) path dirs').0)
        (sym (append_assoc front (c ∷ []) path))
    ∙ rest

-- Where `dirCreate` succeeds, the directory at the whole path exists.
pub dir_create-has :
    (mkdir : List ℕ → Bool) (path : List ℕ) (dirs : List (List ℕ))
    → (dir_create mkdir path dirs).1 ≡ true
    → has path (dir_create mkdir path dirs).0 ≡ true
unfolding dir_create
dir_create-has mkdir path dirs h = dirs_from-has mkdir [] path dirs h

pub dir_create_absolute :
    (mkdir : List ℕ → Bool) (path : List ℕ) (dirs : List (List ℕ))
    → dir_create mkdir (b'/' ∷ path) dirs ≡ (dirs, false)
unfolding dir_create dirs_from node_create node_next
dir_create_absolute mkdir path dirs = refl
