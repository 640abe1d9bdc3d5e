-- ===== src/MsWaiting.antt =====
-- MsWaiting.h and MsWaiting.cpp: a process that waits for some milliseconds. Times are uint32_t and
-- wrap around. What `millis` returns at a call is an argument of the call.
pub mod Waits
pub mod Tests
use processing_common.Common.{
  ℕ, ◌+◌, ◌-◌, Bool, true, false, ltb, if◌then◌else◌, u32, sub32, List, [], ◌∷◌, ◌++◌,
}

pub data Success : Type 0 where
  pending positive : Success

pub data WaitState : Type 0 where
  start main : WaitState

pub record MsWaiting : Type 0 where
  pub state : WaitState
  pub start_ms : ℕ
  pub duration_ms : ℕ
  pub diff_ms : ℕ

-- MsWaiting(durationMs)
unfoldable pub new : ℕ → MsWaiting
new duration_ms = record { state = start; start_ms = 0; duration_ms = duration_ms; diff_ms = 0 }

-- process(), by the state
unfoldable pub process_in : WaitState → MsWaiting → ℕ → MsWaiting × Success
process_in start p cur_time_ms = (record p { start_ms = cur_time_ms; state = main }, pending)
process_in main p cur_time_ms =
    let diff_ms = sub32 cur_time_ms p.start_ms in
    (record p { diff_ms = diff_ms }, if ltb diff_ms p.duration_ms then pending else positive)

unfoldable pub process : MsWaiting → ℕ → MsWaiting × Success
process p cur_time_ms = process_in p.state p cur_time_ms

-- The calls of the framework, which drives a process until it is no longer pending: the result of
-- the last call, and the times that are left over.
unfoldable pub run : MsWaiting → List ℕ → Success × List ℕ
run p [] = (pending, [])
run p (t ∷ ts) =
    let r = process p t in
    let rest = run r.0 ts in elim r.1 [ pending ↦ rest | positive ↦ (positive, ts) ]
