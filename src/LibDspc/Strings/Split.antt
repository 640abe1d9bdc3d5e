-- ===== src/LibDspc/Strings/Split.antt =====
-- What `strToVecStr` makes of a text of lines.
use processing_common.Common.{
  ℕ, zero, suc, ◌≤◌, ◌≡◌, ◌∙◌, refl, ap, arith, false, ◌==◌, List, [], ◌∷◌, ◌++◌, length,
  length-append, append_assoc,
}
use processing_common.LibDspc.Strings.{split_line, lines_from, str_to_vec_str}

abbrev pub Lacks : ℕ → List ℕ → Type 0
Lacks delim [] = Unit {0}
Lacks delim (c ∷ str) = ((c == delim) ≡ false) × Lacks delim str

abbrev pub AllLack : ℕ → List (List ℕ) → Type 0
AllLack delim [] = Unit {0}
AllLack delim (l ∷ ls) = Lacks delim l × AllLack delim ls

-- The lines, each with the delimiter behind it.
pub terminated : ℕ → List (List ℕ) → List ℕ
terminated delim [] = []
terminated delim (l ∷ ls) = l ++ (delim ∷ terminated delim ls)

-- A last line without a delimiter counts unless it is empty.
abbrev pub last_line : List ℕ → List (List ℕ)
last_line [] = []
last_line (c ∷ l) = (c ∷ l) ∷ []

split_line-append :
    (delim : ℕ) (l str : List ℕ) → Lacks delim l → split_line delim (l ++ (delim ∷ str)) ≡ (l, str)
unfolding split_line
split_line-append delim [] str h = ground arith
split_line-append delim (c ∷ l) str h = rw (h.0, split_line-append delim l str h.1)

split_line-last : (delim : ℕ) (l : List ℕ) → Lacks delim l → split_line delim l ≡ (l, [])
unfolding split_line
split_line-last delim [] h = refl
split_line-last delim (c ∷ l) h = rw (h.0, split_line-last delim l h.1)

lines_from-step :
    (fuel delim : ℕ) (l str : List ℕ)
    → Lacks delim l
    → lines_from (suc fuel) delim (l ++ (delim ∷ str)) ≡ l ∷ lines_from fuel delim str
lines_from-step fuel delim [] str h = unfold lines_from in rw (split_line-append delim [] str h)
lines_from-step fuel delim (c ∷ l) str h =
    unfold lines_from in rw (split_line-append delim (c ∷ l) str h)

lines_from-last :
    (fuel delim : ℕ) (l : List ℕ)
    → Lacks delim l
    → length l ≤ fuel
    → lines_from fuel delim l ≡ last_line l
lines_from-last zero delim [] h le = unfold lines_from in refl
lines_from-last (suc fuel) delim [] h le = unfold lines_from in refl
lines_from-last zero delim (c ∷ l) h le = absurd (omega arith)
lines_from-last (suc zero) delim (c ∷ l) h le =
    unfold lines_from in rw (split_line-last delim (c ∷ l) h)
lines_from-last (suc (suc fuel)) delim (c ∷ l) h le =
    unfold lines_from in rw (split_line-last delim (c ∷ l) h)

lines_from-terminated :
    (fuel delim : ℕ) (ls : List (List ℕ)) (l : List ℕ)
    → AllLack delim ls
    → Lacks delim l
    → length (terminated delim ls ++ l) ≤ fuel
    → lines_from fuel delim (terminated delim ls ++ l) ≡ ls ++ last_line l
unfolding terminated
lines_from-terminated fuel delim [] l h k le = lines_from-last fuel delim l k le
lines_from-terminated zero delim (m ∷ ls) l h k le = absurd (
    omega (
      arith,
      length-append (m ++ (delim ∷ terminated delim ls)) l,
      length-append m (delim ∷ terminated delim ls),
    ))
lines_from-terminated (suc fuel) delim (m ∷ ls) l h k le =
    let rest = terminated delim ls in
    let shorter : length (rest ++ l) ≤ fuel = omega (
      arith,
      length-append (m ++ (delim ∷ rest)) l,
      length-append m (delim ∷ rest),
      length-append rest l,
    ) in
    rw (append_assoc m (delim ∷ rest) l) (
      lines_from-step fuel delim m (rest ++ l) h.0
      ∙ ap (◌∷◌ m) (lines_from-terminated fuel delim ls l h.1 k shorter))

-- `strToVecStr` splits a text of lines that each end in the delimiter, with a last line that does
-- not, into these lines behind what the vector held; a last line that is empty adds no entry.
pub str_to_vec_str-terminated :
    (vec ls : List (List ℕ)) (l : List ℕ) (delim : ℕ)
    → AllLack delim ls
    → Lacks delim l
    → str_to_vec_str (terminated delim ls ++ l) vec delim ≡ vec ++ (ls ++ last_line l)
unfolding str_to_vec_str
str_to_vec_str-terminated vec ls l delim h k =
    ap (◌++◌ vec) (lines_from-terminated _ delim ls l h k (omega arith))
