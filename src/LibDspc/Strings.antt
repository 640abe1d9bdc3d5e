-- ===== src/LibDspc/Strings.antt =====
-- LibDspc.cpp: `strReplace`, `trim` and `strToVecStr`, with what they use of `std::string`. A
-- position is an option, and `none` is `npos`.
pub mod Trim
pub mod Replace
pub mod Split
use processing_common.Common.{
  ℕ, zero, suc, ◌+◌, ◌-◌, Bool, true, false, not, ◌&&◌, ◌||◌, ◌==◌, if◌then◌else◌, List, [], ◌∷◌,
  ◌++◌, Option, none, some, length, take, drop,
}
use mathlib.Core.Option

unfoldable pub is_prefix : List ℕ → List ℕ → Bool
is_prefix [] str = true
is_prefix (c ∷ pat) [] = false
is_prefix (c ∷ pat) (d ∷ str) = c == d && is_prefix pat str

-- str.find(pat)
unfoldable pub find : List ℕ → List ℕ → Option ℕ
unfolding is_prefix
find pat [] = if is_prefix pat [] then some 0 else none
find pat (c ∷ str) =
    let rest = find pat str in if is_prefix pat (c ∷ str) then some 0 else Option.map suc rest

-- The new text, and the position or `npos`.
unfoldable pub str_replace : List ℕ → List ℕ → List ℕ → List ℕ × Option ℕ
str_replace str pat replacement = elim (find pat str) [
  | none ↦ (str, none)
  | some pos ↦ (take pos str ++ (replacement ++ drop (pos + length pat) str), some pos)
]

-- " \t\n\r\f\v"
unfoldable pub is_white : ℕ → Bool
is_white c = c == b' ' || c == 9 || c == 10 || c == 13 || c == 12 || c == 11

unfoldable pub find_first_not_of : List ℕ → Option ℕ
find_first_not_of [] = none
find_first_not_of (c ∷ str) =
    let rest = Option.map suc (find_first_not_of str) in if is_white c then rest else some 0

unfoldable pub find_last_not_of : List ℕ → Option ℕ
find_last_not_of [] = none
find_last_not_of (c ∷ str) = elim (find_last_not_of str) [
  | some p ↦ some (suc p)
  | none ↦ if is_white c then none else some 0
]

-- Where there is a first position there is a last one, so the default is not used.
unfoldable pub trim : List ℕ → List ℕ
trim str = elim (find_first_not_of str) [
  | none ↦ []
  | some start ↦ elim (find_last_not_of str) [
    | none ↦ drop start str
    | some end ↦ take (end - start + 1) (drop start str)
  ]
]

-- getline: the line up to the delimiter and the rest behind it, or `none` at the end of the text.
unfoldable pub split_line : ℕ → List ℕ → List ℕ × List ℕ
split_line delim [] = ([], [])
split_line delim (c ∷ str) =
    let r = split_line delim str in if c == delim then ([], str) else (c ∷ r.0, r.1)

-- The loop over the lines; each takes at least one character of the text.
unfoldable pub lines_from : ℕ → ℕ → List ℕ → List (List ℕ)
unfolding split_line
lines_from zero delim str = []
lines_from (suc fuel) delim [] = []
lines_from (suc fuel) delim (c ∷ str) =
    let r = split_line delim (c ∷ str) in r.0 ∷ lines_from fuel delim r.1

unfoldable pub str_to_vec_str : List ℕ → List (List ℕ) → ℕ → List (List ℕ)
unfolding lines_from
str_to_vec_str str vec delim = vec ++ lines_from (length str) delim str
