-- ===== src/MsWaiting/Waits.antt =====
-- How long MsWaiting.cpp waits.
use processing_common.Common.{
  ℕ, ◌+◌, ◌^◌, ◌<◌, ◌≤◌, ◌≡◌, refl, arith, true, false, ltb, u32, sub32, List, [], ◌∷◌, ◌++◌,
}
use processing_common.MsWaiting.{positive, main, MsWaiting, new, process_in, process, run}

-- A clock of 32 bits that is read at true times, none of which lies `limit` or more behind `from`.
abbrev pub Before : ℕ → ℕ → List ℕ → Type 0
Before from limit [] = Unit {0}
Before from limit (t ∷ ts) = (from ≤ t) × (t < from + limit) × Before from limit ts

-- What the clock shows at true times.
abbrev pub shown : List ℕ → List ℕ
shown [] = []
shown (t ∷ ts) = u32 t ∷ shown ts

-- A wait under way, since the true time `from`.
abbrev waiting : ℕ → ℕ → ℕ → MsWaiting
waiting from duration diff = record {
  state = main;
  start_ms = u32 from;
  duration_ms = duration;
  diff_ms = diff;
}

run-waiting :
    (from duration diff : ℕ) (ts : List ℕ) (late : ℕ) (more : List ℕ)
    → duration < 2 ^ 32
    → Before from duration ts
    → from + duration ≤ late
    → late < from + 2 ^ 32
    → run (waiting from duration diff) (shown ts ++ (u32 late ∷ more)) ≡ (positive, more)
unfolding run process process_in
run-waiting from d diff [] late more h b low high =
    let done : ltb (sub32 (u32 late) (u32 from)) d ≡ false = ground arith in
    rw (done, run, process, process_in) refl
run-waiting from d diff (t ∷ ts) late more h b low high =
    let early : ltb (sub32 (u32 t) (u32 from)) d ≡ true = ground arith in
    rw (early, run, process, process_in)
      (run-waiting from d (sub32 (u32 t) (u32 from)) ts late more h b.2 low high)

-- Driven by a 32-bit clock that may wrap around, a new `MsWaiting` of less than 2 ^ 32 ms is
-- pending at its first call and at all calls before its duration is over, and ends with success at
-- the first call from then on, if that one comes less than 2 ^ 32 ms after the first.
pub run-new :
    (duration from : ℕ) (ts : List ℕ) (late : ℕ) (more : List ℕ)
    → duration < 2 ^ 32
    → Before from duration ts
    → from + duration ≤ late
    → late < from + 2 ^ 32
    → run (new duration) (u32 from ∷ (shown ts ++ (u32 late ∷ more))) ≡ (positive, more)
unfolding run process process_in new
run-new d from ts late more h b low high = run-waiting from d 0 ts late more h b low high
