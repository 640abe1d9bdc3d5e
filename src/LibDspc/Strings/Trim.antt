-- ===== src/LibDspc/Strings/Trim.antt =====
-- What `trim` takes off.
use processing_common.Common.{
  ℕ, zero, suc, ◌+◌, ◌-◌, ◌≤◌, ◌≡◌, ◌∙◌, ◌⊎◌, inl, inr, refl, sym, ap, subst, arith, true, false,
  List, [], ◌∷◌, ◌++◌, Option, none, some, take, drop, drop-drop, take_split, append-nil,
  take-append-drop, Bool-cases,
}
use native.Mathlib.Decide.{dec_le}
use processing_common.LibDspc.Strings.{is_white, find_first_not_of, find_last_not_of, trim}

abbrev pub AllWhite : List ℕ → Type 0
AllWhite [] = Unit {0}
AllWhite (c ∷ str) = (is_white c ≡ true) × AllWhite str

abbrev pub first? : List ℕ → Option ℕ
first? [] = none
first? (c ∷ str) = some c

abbrev pub last? : List ℕ → Option ℕ
last? [] = none
last? (c ∷ []) = some c
last? (c ∷ d ∷ str) = last? (d ∷ str)

AllWhite-drop : (n : ℕ) (str : List ℕ) → AllWhite str → AllWhite (drop n str)
AllWhite-drop zero str h = h
AllWhite-drop (suc n) [] h = tt
AllWhite-drop (suc n) (c ∷ str) h = AllWhite-drop n str h.1

last?-append : (xs : List ℕ) (y : ℕ) (ys : List ℕ) → last? (xs ++ (y ∷ ys)) ≡ last? (y ∷ ys)
last?-append [] y ys = refl
last?-append (x ∷ []) y ys = refl
last?-append (x ∷ x' ∷ xs) y ys = last?-append (x' ∷ xs) y ys

abbrev First : List ℕ → Option ℕ → Type 0
First str r =
    ((r ≡ none) × AllWhite str)
    ⊎ ((start c : ℕ) × (rest : List ℕ) × (r ≡ some start)
        × AllWhite (take start str)
        × (drop start str ≡ c ∷ rest)
        × (is_white c ≡ false))

find-First : (str : List ℕ) → First str (find_first_not_of str)
unfolding find_first_not_of
find-First [] = inl (refl, tt)
find-First (c ∷ str) = elim (Bool-cases (is_white c)) [
  | inr dark ↦ inr (0, c, str, rw dark, tt, refl, dark)
  | inl white ↦ elim (find-First str) [
    | inl (e, all) ↦ inl (rw (white, e), (white, all))
    | inr (start, d, rest, e, before, at, dark) ↦
        inr (suc start, d, rest, rw (white, e), (white, before), at, dark)
  ]
]

abbrev Last : List ℕ → Option ℕ → Type 0
Last str r =
    ((r ≡ none) × AllWhite str)
    ⊎ ((end c : ℕ) × (r ≡ some end)
        × AllWhite (drop (suc end) str)
        × (last? (take (suc end) str) ≡ some c)
        × (is_white c ≡ false))

last?-cons :
    (c : ℕ) (n : ℕ) (str : List ℕ) (d : ℕ)
    → last? (take n str) ≡ some d
    → last? (c ∷ take n str) ≡ some d
last?-cons c zero str d h = cc
last?-cons c (suc n) [] d h = cc
last?-cons c (suc n) (x ∷ str) d h = h

find-Last : (str : List ℕ) → Last str (find_last_not_of str)
unfolding find_last_not_of
find-Last [] = inl (refl, tt)
find-Last (c ∷ str) = elim (find-Last str) [
  | inr (end, d, e, after, at, dark) ↦
      inr (suc end, d, rw (e, find_last_not_of), after, last?-cons c (suc end) str d at, dark)
  | inl (e, all) ↦ elim (Bool-cases (is_white c)) [
    | inl white ↦ inl (rw (e, find_last_not_of) (rw white), (white, all))
    | inr dark ↦ inr (0, c, rw (e, find_last_not_of) (rw dark), all, refl, dark)
  ]
]

-- The text is cut into white space, the trimmed text and white space again; the trimmed text is
-- empty, or its first and its last character are no white space.
pub record IsTrimmed (str mid : List ℕ) : Type 0 where
  pub before : List ℕ
  pub after : List ℕ
  pub cut : str ≡ before ++ (mid ++ after)
  pub before_white : AllWhite before
  pub after_white : AllWhite after
  pub first_dark : (c : ℕ) → first? mid ≡ some c → is_white c ≡ false
  pub last_dark : (c : ℕ) → last? mid ≡ some c → is_white c ≡ false

-- The middle part between two positions that are no white space.
middle :
    (str rest : List ℕ) (start end c d : ℕ)
    → start ≤ end
    → AllWhite (take start str)
    → drop start str ≡ c ∷ rest
    → is_white c ≡ false
    → AllWhite (drop (suc end) str)
    → last? (take (suc end) str) ≡ some d
    → is_white d ≡ false
    → IsTrimmed str (take (end - start + 1) (drop start str))
middle str rest start end c d le before at dark after at' dark' = record {
  before = take start str;
  after = drop (suc end) str;
  cut =
      sym (take-append-drop start str)
      ∙ ap (◌++◌ (take start str)) (
          sym (take-append-drop k (drop start str))
          ∙ ap (◌++◌ mid) (drop-drop start k (suc end) str (omega arith)));
  before_white = before;
  after_white = after;
  first_dark = λ x h. let e : x ≡ c = ground (arith, mid_lem) in rw e dark;
  last_dark = λ x h. let e : x ≡ d = ground (arith, last_lem) in rw e dark';
}
  where
    k : ℕ
    k = end - start + 1

    mid : List ℕ
    mid = take k (drop start str)

    tail : List ℕ
    tail = take (end - start) rest

    mid_lem : mid ≡ c ∷ tail
    mid_lem = let e : k ≡ suc (end - start) = omega arith in rw (at, e)

    last_lem : last? mid ≡ some d
    last_lem = rw mid_lem (
        sym (last?-append (take start str) c tail)
        ∙ ap last? (
            ap (◌++◌ (take start str)) (sym mid_lem)
            ∙ sym (take_split start k (suc end) str (omega arith)))
        ∙ at')

-- White space behind `end` leaves no room for a dark character behind it.
start-le-end :
    (str rest : List ℕ) (start end c : ℕ)
    → drop start str ≡ c ∷ rest
    → is_white c ≡ false
    → AllWhite (drop (suc end) str)
    → start ≤ end
start-le-end str rest start end c at dark after = elim (dec_le start end) [
  | yes h ↦ h
  | no h ↦
      let white : AllWhite (drop start str) =
        subst AllWhite (drop-drop (suc end) (start - suc end) start str (omega arith))
          (AllWhite-drop (start - suc end) (drop (suc end) str) after) in
      let all : AllWhite (c ∷ rest) = subst AllWhite at white in
      let both : true ≡ false = sym all.0 ∙ dark in cc
]

all_dark :
    (str : List ℕ) (start c : ℕ) (rest : List ℕ)
    → AllWhite str
    → drop start str ≡ c ∷ rest
    → is_white c ≡ false
    → ⊥
all_dark str start c rest all at dark =
    let white : AllWhite (c ∷ rest) = subst AllWhite at (AllWhite-drop start str all) in
    let both : true ≡ false = sym white.0 ∙ dark in cc

-- `trim` takes off all white space at both ends and nothing else.
pub trim-IsTrimmed : (str : List ℕ) → IsTrimmed str (trim str)
unfolding trim
trim-IsTrimmed str = elim (find-First str) [
  | inl (e, all) ↦
      rw (e, trim)
        (record {
          before = str;
          after = [];
          cut = sym (append-nil str);
          before_white = all;
          after_white = tt;
          first_dark = λ c h. cc;
          last_dark = λ c h. cc;
        })
  | inr (start, c, rest, e, before, at, dark) ↦ elim (find-Last str) [
    | inl (e', all) ↦ absurd (all_dark str start c rest all at dark)
    | inr (end, d, e', after, at', dark') ↦
        rw (e, trim)
          (rw e' (
            middle str rest start end c d (start-le-end str rest start end c at dark after) before
              at dark after at' dark'))
  ]
]
