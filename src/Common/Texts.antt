-- ===== src/Common/Texts.antt =====
-- Texts as lists of bytes, compared as `std::string` compares them.
use Prim.Native.Nat.{ℕ, suc, ◌+◌}
use mathlib.Core.Logic.{inl, inr}
use mathlib.Core.Path.{◌≡◌, ◌∙◌, refl, sym, ap, ap₂}
use mathlib.Core.Bool.{Bool, true, false, ◌&&◌}
use mathlib.Core.List.{List, [], ◌∷◌, ◌++◌}
use mathlib.Core.Option.{Option, none, some}
use native.Mathlib.Omega.{arith}
use native.Mathlib.Nat.{zero-add, suc-add}
use processing_common.Common.Tests.{◌==◌, Bool-cases, if◌then◌else◌}
use processing_common.Common.Lists.{length}

unfoldable pub same_str : List ℕ → List ℕ → Bool
same_str [] [] = true
same_str [] (c ∷ str') = false
same_str (c ∷ str) [] = false
same_str (c ∷ str) (c' ∷ str') = (c == c') && same_str str str'

pub same_str_self : (str : List ℕ) → same_str str str ≡ true
unfolding same_str
same_str_self [] = refl
same_str_self (c ∷ str) = let eq : (c == c) ≡ true = ground arith in rw (eq, same_str_self str) refl

pub same_str_eq : (str str' : List ℕ) → same_str str str' ≡ true → str ≡ str'
unfolding same_str
same_str_eq [] [] h = refl
same_str_eq [] (c ∷ str') h = absurd cc
same_str_eq (c ∷ str) [] h = absurd cc
same_str_eq (c ∷ str) (c' ∷ str') h = elim (Bool-cases (c == c')) [
  | inl eq ↦
      let first : c ≡ c' = ground arith in
      let rest : same_str str str' ≡ true = sym (ap (λ b. b && same_str str str') eq) ∙ h in
      ap₂ (λ x xs. x ∷ xs) first (same_str_eq str str' rest)
  | inr ne ↦ let no : false ≡ true = sym (ap (λ b. b && same_str str str') ne) ∙ h in absurd cc
]

abbrev later : Option ℕ → Option ℕ → Option ℕ
later here none = here
later here (some i) = some (suc i)

-- string::find_last_of of a character
unfoldable pub find_last_of : ℕ → List ℕ → Option ℕ
find_last_of ch [] = none
find_last_of ch (c ∷ str) = later (if c == ch then some 0 else none) (find_last_of ch str)

pub find_last_of-append :
    (ch : ℕ) (xs ys : List ℕ) (i : ℕ)
    → find_last_of ch ys ≡ some i
    → find_last_of ch (xs ++ ys) ≡ some (length xs + i)
unfolding find_last_of
find_last_of-append ch [] ys i h = h ∙ ap some (sym (zero-add i))
find_last_of-append ch (x ∷ xs) ys i h =
    rw (find_last_of-append ch xs ys i h) (ap some (sym (suc-add (length xs) i)))
