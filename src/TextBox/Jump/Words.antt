-- ===== src/TextBox/Jump/Words.antt =====
-- Where the loop of `cursorJump` ends: the next end of a word, or the last start of one.
use processing_common.Common.{
  ℕ, zero, suc, ◌+◌, ◌-◌, ◌^◌, ◌<◌, ◌≤◌, ◌≡◌, ◌⊎◌, inl, inr, refl, arith, Bool, true, false,
  if◌then◌else◌, u16, List, Option, none, some, length, Bool-cases,
}
use native.Mathlib.Decide.{dec_lt}
use processing_common.ListIdx.{ListIdx}
use processing_common.ListIdx
use processing_common.ListIdx.Bounds.{inc-IsValid, dec-IsValid}
use processing_common.ListIdx.Moves.{inc_lem, inc-Keeps, dec_lem, dec-Keeps}
use processing_common.TextBox.Consistent.{IsOver, Keeps-IsOver}
use processing_common.TextBox.Jump.{stops_at, jump_loop}

-- From position `from`, with `n` characters to go, the first place to stop at, or the end.
pub word_right : List ℕ → ℕ → ℕ → ℕ
word_right ustr zero from = from
word_right ustr (suc n) from =
    let rest = word_right ustr n (from + 1) in
    if stops_at true ustr from (from + 1) then from + 1 else rest

-- The other way: down from position `from`, or to the first position.
pub word_left : List ℕ → ℕ → ℕ
word_left ustr zero = 0
word_left ustr (suc n) =
    let rest = word_left ustr n in if stops_at false ustr (n - 1) n then n else rest

-- A place to the right of `from` where the loop may end, among `n` characters.
pub record IsRightStop (ustr : List ℕ) (n from place : ℕ) : Type 0 where
  pub ahead : 0 < n → from < place
  pub not_behind : from ≤ place
  pub within : place ≤ from + n
  pub first : (p : ℕ) → from < p → p < place → stops_at true ustr (p - 1) p ≡ false
  pub stops : (place ≡ from + n) ⊎ (stops_at true ustr (place - 1) place ≡ true)

pub word_right-IsRightStop :
    (ustr : List ℕ) (n from : ℕ) → IsRightStop ustr n from (word_right ustr n from)
unfolding word_right
word_right-IsRightStop ustr zero from = record {
  ahead = λ h. omega arith;
  not_behind = omega arith;
  within = omega arith;
  first = λ p a b. absurd (omega arith);
  stops = inl (omega arith);
}
word_right-IsRightStop ustr (suc n) from = elim (Bool-cases (stops_at true ustr from (from + 1))) [
  | inl s ↦ rw s (record {
    ahead = λ h. omega arith;
    not_behind = omega arith;
    within = omega arith;
    first = λ p a b. absurd (omega arith);
    stops = inr (let e : from + 1 - 1 ≡ from = omega arith in rw e s);
  })
  | inr s ↦
      let r = word_right-IsRightStop ustr n (from + 1) in
      rw s (record {
        ahead = λ h. omega arith;
        not_behind = omega arith;
        within = omega arith;
        first = λ p a b. elim (dec_lt (from + 1) p) [
          | yes h ↦ r.first p h b
          | no h ↦
              let e : p ≡ from + 1 = omega arith in
              let e' : from + 1 - 1 ≡ from = omega arith in rw (e, e') s
        ];
        stops = elim r.stops [ inl e ↦ inl (omega arith) | inr t ↦ inr t ];
      })
]

module _ (ustr : List ℕ) where
  -- One round to the right and one to the left.
  inc-IsOver : (l : ListIdx) → IsOver (length ustr) l → IsOver (length ustr) (ListIdx.inc l).0
  inc-IsOver l o =
      Keeps-IsOver (length ustr) l (ListIdx.inc l).0 o (inc-Keeps l) (inc-IsValid l o.valid)

  dec-IsOver : (l : ListIdx) → IsOver (length ustr) l → IsOver (length ustr) (ListIdx.dec l).0
  dec-IsOver l o =
      Keeps-IsOver (length ustr) l (ListIdx.dec l).0 o (dec-Keeps l) (dec-IsValid l o.valid)

  -- How the loop ends: with an index over the text at the given place.
  abbrev pub Ends : ℕ → Option (ListIdx × Bool) → Type 0
  Ends place r =
      (front : ListIdx) × (changed : Bool) × (r ≡ some (front, changed))
      × IsOver (length ustr) front
      × (ListIdx.cursor_abs front ≡ place)

  jump_step_right :
      (fuel idx : ℕ) (prev : Option ℕ) (front : ListIdx) (changed : Bool)
      → idx < length ustr
      → length ustr < 2 ^ 16
      → jump_loop (suc fuel) true ustr (length ustr) idx idx prev front changed ≡ (
          if stops_at true ustr idx (idx + 1)
          then some ((ListIdx.inc front).0, true)
          else jump_loop fuel true ustr
              (length ustr)
              (idx + 1)
              (idx + 1)
              (some idx)
              (ListIdx.inc front).0
              true)
  unfolding jump_loop
  jump_step_right fuel idx prev front changed h small =
      let e : idx + 1 - 1 ≡ idx = omega arith in ground arith

  pub jump_loop_right :
      (n fuel idx : ℕ) (prev : Option ℕ) (front : ListIdx) (changed : Bool)
      → IsOver (length ustr) front
      → ListIdx.cursor_abs front ≡ idx
      → idx + n ≡ length ustr
      → length ustr < 2 ^ 16
      → n < fuel
      → Ends
          (word_right ustr n idx)
          (jump_loop fuel true ustr (length ustr) idx idx prev front changed)
  unfolding word_right
  jump_loop_right n zero idx prev front changed o at e small h = absurd (omega arith)
  jump_loop_right zero (suc fuel) idx prev front changed o at e small h =
      let e' : idx ≡ length ustr = omega arith in
      (front, changed, unfold jump_loop in ground arith, o, at)
  jump_loop_right (suc n) (suc fuel) idx prev front changed o at e small h =
      let moved : ListIdx.cursor_abs (ListIdx.inc front).0 ≡ idx + 1 =
        ground (arith, inc_lem front o.valid o.open_win) in
      let o' = inc-IsOver front o in
      rw (jump_step_right fuel idx prev front changed (omega arith) small)
        (elim (Bool-cases (stops_at true ustr idx (idx + 1))) [
          | inl s ↦ rw s ((ListIdx.inc front).0, true, refl, o', moved)
          | inr s ↦ rw s (
              jump_loop_right n fuel (idx + 1) (some idx) (ListIdx.inc front).0 true o' moved
                (omega arith) small (omega arith))
        ])

  jump_step_left :
      (fuel i : ℕ) (prev : Option ℕ) (front : ListIdx) (changed : Bool)
      → 0 < i
      → i + 1 < 2 ^ 16
      → jump_loop (suc fuel) false ustr 0 (suc i) (suc i) prev front changed ≡ (
          if stops_at false ustr (i - 1) i
          then some ((ListIdx.dec front).0, true)
          else jump_loop fuel false ustr 0 i i (some (i - 1)) (ListIdx.dec front).0 true)
  unfolding jump_loop
  jump_step_left fuel i prev front changed h small =
      let e : suc i - 1 ≡ i = omega arith in
      let e' : u16 (suc i + 65535) ≡ i = omega arith in ground arith

  jump_step_first :
      (fuel : ℕ) (prev : Option ℕ) (front : ListIdx) (changed : Bool)
      → jump_loop (suc (suc fuel)) false ustr 0 1 1 prev front changed
        ≡ some ((ListIdx.dec front).0, true)
  unfolding jump_loop
  jump_step_first fuel none front changed = refl
  jump_step_first fuel (some q) front changed = ground arith

  pub jump_loop_left :
      (n fuel : ℕ) (prev : Option ℕ) (front : ListIdx) (changed : Bool)
      → IsOver (length ustr) front
      → ListIdx.cursor_abs front ≡ n
      → n < 2 ^ 16
      → n < fuel
      → Ends (word_left ustr n) (jump_loop fuel false ustr 0 n n prev front changed)
  unfolding word_left
  jump_loop_left n zero prev front changed o at small h = absurd (omega arith)
  jump_loop_left zero (suc fuel) prev front changed o at small h =
      (front, changed, unfold jump_loop in refl, o, at)
  jump_loop_left (suc zero) (suc zero) prev front changed o at small h = absurd (omega arith)
  jump_loop_left (suc zero) (suc (suc fuel)) prev front changed o at small h = (
    (ListIdx.dec front).0,
    true,
    jump_step_first fuel prev front changed,
    dec-IsOver front o,
    ground (arith, dec_lem front o.valid o.open_win),
  )
  jump_loop_left (suc (suc i)) (suc fuel) prev front changed o at small h =
      let moved : ListIdx.cursor_abs (ListIdx.dec front).0 ≡ suc i =
        ground (arith, dec_lem front o.valid o.open_win) in
      let o' = dec-IsOver front o in
      let step = jump_step_left fuel (suc i) prev front changed (omega arith) (omega arith) in
      rw step (elim (Bool-cases (stops_at false ustr (suc i - 1) (suc i))) [
        | inl s ↦ rw s ((ListIdx.dec front).0, true, refl, o', moved)
        | inr s ↦ rw s (
            jump_loop_left (suc i) fuel (some (suc i - 1)) (ListIdx.dec front).0 true o' moved
              (omega arith) (omega arith))
      ])

-- A place to the left of `n` where the loop may end.
pub record IsLeftStop (ustr : List ℕ) (n place : ℕ) : Type 0 where
  pub ahead : 0 < n → place < n
  pub not_behind : place ≤ n
  pub first : (p : ℕ) → place < p → p < n → stops_at false ustr (p - 1) p ≡ false
  pub stops : (place ≡ 0) ⊎ (stops_at false ustr (place - 1) place ≡ true)

pub word_left-IsLeftStop : (ustr : List ℕ) (n : ℕ) → IsLeftStop ustr n (word_left ustr n)
unfolding word_left
word_left-IsLeftStop ustr zero = record {
  ahead = λ h. omega arith;
  not_behind = omega arith;
  first = λ p a b. absurd (omega arith);
  stops = inl refl;
}
word_left-IsLeftStop ustr (suc n) = elim (Bool-cases (stops_at false ustr (n - 1) n)) [
  | inl s ↦ rw s (record {
    ahead = λ h. omega arith;
    not_behind = omega arith;
    first = λ p a b. absurd (omega arith);
    stops = inr s;
  })
  | inr s ↦
      let r = word_left-IsLeftStop ustr n in
      rw s (record {
        ahead = λ h. omega arith;
        not_behind = omega arith;
        first = λ p a b. elim (dec_lt p n) [
          | yes h ↦ r.first p a h
          | no h ↦ let e : p ≡ n = omega arith in rw e s
        ];
        stops = r.stops;
      })
]
