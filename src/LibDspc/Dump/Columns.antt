-- ===== src/LibDspc/Dump/Columns.antt =====
-- The columns and characters of a line of a hex dump, written without a buffer.
use processing_common.Common.{
  ℕ, zero, suc, ◌/◌, get_or, ◌+◌, ◌*◌, ◌%◌, ◌≤◌, ◌<◌, ◌≡◌, ◌∙◌, refl, sym, ap, arith, ◌==◌, min,
  List, [], ◌∷◌, ◌++◌, map, append-nil, append_assoc, length, length-append, drop, Bool-cases, inl,
  inr,
}
use processing_common.LibDspc.Hex.{hex_digits}
use processing_common.LibDspc.Dump.{print_hex, gap, gap_info, columns, shown, characters}

-- dInfo appends a text that fits into the line buffer of 256 characters.
abbrev pub Appends : (List ℕ → List ℕ → List ℕ) → Type 0
Appends info = (buf txt : List ℕ) → length buf + length txt < 256 → info buf txt ≡ buf ++ txt

-- The columns of a line: two digits for a byte, nothing behind the last one.
abbrev pub hex_columns : ℕ → ℕ → List ℕ → List ℕ
hex_columns zero i bytes = []
hex_columns (suc n) i [] = gap i ++ ((b' ' ∷ b' ' ∷ b' ' ∷ []) ++ hex_columns n (suc i) [])
hex_columns (suc n) i (b ∷ bytes) = gap i ++ ((b' ' ∷ print_hex 2 b) ++ hex_columns n (suc i) bytes)

pub length-print_hex : (digits n : ℕ) → length (print_hex digits n) ≡ digits
unfolding print_hex
length-print_hex zero n = refl
length-print_hex (suc digits) n = omega (
  arith,
  length-append (print_hex digits (n / 16)) (get_or hex_digits (n % 16) 0 ∷ []),
  length-print_hex digits (n / 16),
)

length-gap : (i : ℕ) → length (gap i) ≤ 1
length-gap i = elim (Bool-cases (i % 8 == 0)) [
  | inl h ↦ rw h (omega arith)
  | inr h ↦ rw h (omega arith)
]

pub length-hex_columns : (n i : ℕ) (bytes : List ℕ) → length (hex_columns n i bytes) ≤ 4 * n
length-hex_columns zero i bytes = omega arith
length-hex_columns (suc n) i [] =
    let txt = b' ' ∷ b' ' ∷ b' ' ∷ hex_columns n (suc i) [] in
    omega (arith, length-append (gap i) txt, length-gap i, length-hex_columns n (suc i) [])
length-hex_columns (suc n) i (b ∷ bytes) =
    let txt = (b' ' ∷ print_hex 2 b) ++ hex_columns n (suc i) bytes in
    omega (
      arith,
      length-append (gap i) txt,
      length-append (b' ' ∷ print_hex 2 b) (hex_columns n (suc i) bytes),
      length-print_hex 2 b,
      length-gap i,
      length-hex_columns n (suc i) bytes,
    )

pub length-shown : (bytes : List ℕ) → length (map shown bytes) ≡ length bytes
length-shown [] = refl
length-shown (c ∷ bytes) = ap suc (length-shown bytes)

pub min_comm : (n m : ℕ) → min n m ≡ min m n
min_comm n m = omega arith

drop-nil : (n : ℕ) → drop {A = ℕ} n [] ≡ []
drop-nil zero = refl
drop-nil (suc n) = refl

zero_le : (n : ℕ) → 0 ≡ min 0 n
zero_le n = omega arith

min_nil : (n : ℕ) → min n 0 ≡ min (suc n) 0
min_nil n = omega arith

suc-min : (n m : ℕ) → suc (min n m) ≡ min (suc n) (suc m)
suc-min n m = omega arith

column_assoc :
    (i : ℕ) (buf txt rest : List ℕ)
    → (buf ++ (gap i ++ txt)) ++ rest ≡ buf ++ (gap i ++ (txt ++ rest))
column_assoc i buf txt rest =
    append_assoc buf (gap i ++ txt) rest ∙ ap (λ l. buf ++ l) (append_assoc (gap i) txt rest)

column_fits :
    (n i : ℕ) (buf txt : List ℕ)
    → length txt ≡ 3
    → length buf + 4 * suc n < 256
    → length (buf ++ (gap i ++ txt)) + 4 * n < 256
column_fits n i buf txt three fits =
    omega (arith, length-append buf (gap i ++ txt), length-append (gap i) txt, length-gap i)

module _ (info : List ℕ → List ℕ → List ℕ) (appends : Appends info) where
  gap_info_lem : (i : ℕ) (buf : List ℕ) → length buf < 255 → gap_info info i buf ≡ buf ++ gap i
  gap_info_lem i buf fits = elim (Bool-cases (i % 8 == 0)) [
    | inl h ↦ rw h (appends buf (b' ' ∷ []) (omega arith))
    | inr h ↦ rw h (sym (append-nil buf))
  ]

  -- A gap and three characters.
  column_lem :
      (i : ℕ) (buf txt : List ℕ)
      → length txt ≡ 3
      → length buf + 4 < 256
      → info (gap_info info i buf) txt ≡ buf ++ (gap i ++ txt)
  column_lem i buf txt three fits =
      ap (λ b. info b txt) (gap_info_lem i buf (omega arith))
      ∙ appends (buf ++ gap i) txt (omega (arith, length-append buf (gap i), length-gap i))
      ∙ append_assoc buf (gap i) txt

  pub columns_lem :
      (n i : ℕ) (bytes buf : List ℕ)
      → length buf + 4 * n < 256
      → columns info n i bytes buf
        ≡ (buf ++ hex_columns n i bytes, drop n bytes, min n (length bytes))
  unfolding columns
  columns_lem zero i bytes buf fits = λ k. (sym (append-nil buf) k, bytes, zero_le (length bytes) k)
  columns_lem (suc n) i [] buf fits =
      let txt = b' ' ∷ b' ' ∷ b' ' ∷ [] in
      ap (λ b. columns info n (suc i) [] b) (column_lem i buf txt refl (omega arith))
      ∙ columns_lem n (suc i) [] (buf ++ (gap i ++ txt)) (column_fits n i buf txt refl fits)
      ∙ (λ k. (column_assoc i buf txt (hex_columns n (suc i) []) k, drop-nil n k, min_nil n k))
  columns_lem (suc n) i (b ∷ bytes) buf fits =
      let txt = b' ' ∷ print_hex 2 b in
      let eq =
        ap (λ l. columns info n (suc i) bytes l)
          (column_lem i buf txt (ap suc (length-print_hex 2 b)) (omega arith))
        ∙ columns_lem n (suc i) bytes (buf ++ (gap i ++ txt))
            (column_fits n i buf txt (ap suc (length-print_hex 2 b)) fits) in
      ap (λ r. (r.0, r.1, suc r.2)) eq ∙ (λ k. (
        column_assoc i buf txt (hex_columns n (suc i) bytes) k,
        drop n bytes,
        suc-min n (length bytes) k,
      ))

  pub characters_lem :
      (bytes buf : List ℕ)
      → length buf + length bytes < 256
      → characters info bytes buf ≡ buf ++ map shown bytes
  unfolding characters
  characters_lem [] buf fits = sym (append-nil buf)
  characters_lem (c ∷ bytes) buf fits =
      ap (characters info bytes) (appends buf (shown c ∷ []) (omega arith))
      ∙ characters_lem bytes (buf ++ (shown c ∷ []))
          (omega (arith, length-append buf (shown c ∷ [])))
      ∙ append_assoc buf (shown c ∷ []) (map shown bytes)
