-- ===== src/LibDspc/Strings/Replace.antt =====
-- What `strReplace` makes of a text.
use processing_common.Common.{
  ℕ, zero, suc, ◌+◌, ◌<◌, ◌≤◌, ◌≡◌, ◌∙◌, ◌⊎◌, inl, inr, refl, sym, ap, arith, true, false, List, [],
  ◌∷◌, ◌++◌, Option, none, some, length, take, drop, drop-drop, take-append-drop, Bool-cases,
}
use processing_common.LibDspc.Strings.{is_prefix, find, str_replace}

is_prefix_lem : (pat str : List ℕ) → is_prefix pat str ≡ true → str ≡ pat ++ drop (length pat) str
unfolding is_prefix
is_prefix_lem [] str h = refl
is_prefix_lem (c ∷ pat) [] h = cc
is_prefix_lem (c ∷ pat) (d ∷ str) h = ground (arith, is_prefix_lem pat str)

-- There is no occurrence before position `n`.
abbrev pub NoneBefore : List ℕ → List ℕ → ℕ → Type 0
NoneBefore pat str n = (q : ℕ) → q < n → is_prefix pat (drop q str) ≡ false

abbrev Found : List ℕ → List ℕ → Option ℕ → Type 0
Found pat str r =
    ((r ≡ none) × NoneBefore pat str (suc (length str)))
    ⊎ ((pos : ℕ) × (r ≡ some pos)
        × (is_prefix pat (drop pos str) ≡ true)
        × NoneBefore pat str pos
        × (pos ≤ length str))

NoneBefore-cons :
    (pat : List ℕ) (c : ℕ) (str : List ℕ) (n : ℕ)
    → is_prefix pat (c ∷ str) ≡ false
    → NoneBefore pat str n
    → NoneBefore pat (c ∷ str) (suc n)
NoneBefore-cons pat c str n h before zero lt = h
NoneBefore-cons pat c str n h before (suc q) lt = before q (omega arith)

find-Found : (pat str : List ℕ) → Found pat str (find pat str)
unfolding find
find-Found pat [] = elim (Bool-cases (is_prefix pat [])) [
  | inl h ↦ inr (0, rw h, h, λ q lt. absurd (omega arith), omega arith)
  | inr h ↦ inl (rw h, λ q lt. let e : q ≡ 0 = omega arith in rw e h)
]
find-Found pat (c ∷ str) = elim (Bool-cases (is_prefix pat (c ∷ str))) [
  | inl h ↦ inr (0, rw h, h, λ q lt. absurd (omega arith), omega arith)
  | inr h ↦ elim (find-Found pat str) [
    | inl (e, before) ↦ inl (rw h (rw e), NoneBefore-cons pat c str (suc (length str)) h before)
    | inr (pos, e, at, before, le) ↦
        inr (suc pos, rw h (rw e), at, NoneBefore-cons pat c str pos h before, omega arith)
  ]
]

-- What `strReplace` returns: the first occurrence is replaced and its position is the result, or
-- there is none, and the text is the old one.
abbrev pub Replaces : List ℕ → List ℕ → List ℕ → List ℕ × Option ℕ → Type 0
Replaces str pat replacement r =
    ((r ≡ (str, none)) × NoneBefore pat str (suc (length str)))
    ⊎ ((pos : ℕ) × (tail : List ℕ) × (r ≡ (take pos str ++ (replacement ++ tail), some pos))
        × (str ≡ take pos str ++ (pat ++ tail))
        × NoneBefore pat str pos)

-- `strReplace` replaces the first occurrence of the pattern and nothing else, and leaves a text
-- without an occurrence as it is.
pub str_replace-Replaces :
    (str pat replacement : List ℕ) → Replaces str pat replacement (str_replace str pat replacement)
unfolding str_replace
str_replace-Replaces str pat replacement = elim (find-Found pat str) [
  | inl (e, before) ↦ inl (rw (e, str_replace), before)
  | inr (pos, e, at, before, le) ↦ inr (
    pos,
    drop (pos + length pat) str,
    rw (e, str_replace),
    sym (take-append-drop pos str)
        ∙ ap (◌++◌ (take pos str)) (
            is_prefix_lem pat (drop pos str) at
            ∙ ap (◌++◌ pat) (drop-drop pos (length pat) (pos + length pat) str refl)),
    before,
  )
]
