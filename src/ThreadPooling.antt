-- ===== src/ThreadPooling.antt =====
-- ThreadPooling.h and ThreadPooling.cpp: a broker that hands processes over to workers. An object
-- with `mIsInternal` is a `Worker` here and one without is a `Broker`; each has the fields and the
-- states that it uses. A process is a number. What the framework reports comes as an argument: the
-- requests that the pipe delivers, whether a process is still in progress after its tick, whether
-- an object could be created, whether a worker has shut down. `none` is an index behind the end of
-- the vector of workers. Each function is one call that holds the lock where the code takes it.
pub mod Choice
pub mod Counting
pub mod Distribution
pub mod Interleaving
pub mod Tests
use processing_common.Common.{
  ℕ, zero, suc, ◌+◌, Bool, true, false, not, ltb, ◌==◌, if◌then◌else◌, u64, sub64, List, [], ◌∷◌,
  ◌++◌, Option, none, some, length, get_elem?, set,
}

-- An int32_t that is negative has no further use than that.
pub data Desired : Type 0 where
  any_driver : Desired
  driver : ℕ → Desired

pub record PoolRequest : Type 0 where
  pub proc : ℕ
  pub id_driver_desired : Desired

pub data Success : Type 0 where
  pending positive negative : Success

pub data WorkerState : Type 0 where
  start internal_start internal_main : WorkerState

pub data WorkerSdState : Type 0 where
  sd_start internal_sd_start internal_sd_main : WorkerSdState

pub record Worker : Type 0 where
  pub state : WorkerState
  pub state_sd : WorkerSdState
  pub canceled : Bool
  pub num_processing : ℕ  -- size_t
  pub num_finished : ℕ  -- size_t
  pub procs_req : List ℕ
  pub procs : List ℕ

unfoldable pub new_worker : Worker
new_worker = record {
  state = start;
  state_sd = sd_start;
  canceled = false;
  num_processing = 0;
  num_finished = 0;
  procs_req = [];
  procs = [];
}

-- procInternalAdd, called by the broker
unfoldable pub proc_internal_add : Worker → ℕ → Worker
proc_internal_add w proc = record w {
  procs_req = w.procs_req ++ (proc ∷ []);
  num_processing = u64 (w.num_processing + 1);
}

-- The splice at the start of `procsDrive`.
unfoldable pub splice : Worker → Worker
splice w = record w { procs = w.procs ++ w.procs_req; procs_req = [] }

-- The loop of `procsDrive`: what stays in the list, and how many processes have ended.
unfoldable pub drive : (ℕ → Bool) → List ℕ → List ℕ × ℕ
drive progress [] = ([], 0)
drive progress (proc ∷ procs) =
    let r = drive progress procs in if progress proc then (proc ∷ r.0, r.1) else (r.0, suc r.1)

-- The loop and its two counters: each process that has ended takes one off the first counter and
-- adds one to the second.
unfoldable pub drive_all : Worker → (ℕ → Bool) → Worker
drive_all w progress =
    let r = drive progress w.procs in
    record w {
      procs = r.0;
      num_processing = sub64 w.num_processing (u64 r.1);
      num_finished = u64 (w.num_finished + r.1);
    }

unfoldable pub procs_drive : Worker → (ℕ → Bool) → Worker
procs_drive w progress = drive_all (splice w) progress

-- process() and shutdown() of a worker, by its state
unfoldable pub worker_process_in : WorkerState → Worker → (ℕ → Bool) → Worker
worker_process_in start w progress = record w { state = internal_start }
worker_process_in internal_start w progress = record w { state = internal_main }
worker_process_in internal_main w progress = procs_drive w progress

unfoldable pub worker_process : Worker → (ℕ → Bool) → Worker × Success
worker_process w progress = (worker_process_in w.state w progress, pending)

unfoldable pub worker_shutdown_in : WorkerSdState → Worker → (ℕ → Bool) → Worker × Success
worker_shutdown_in sd_start w progress = (record w { state_sd = internal_sd_start }, pending)
worker_shutdown_in internal_sd_start w progress =
    let w' = procs_drive w progress in
    if not (length w'.procs == 0)
    then (record w' { state_sd = internal_sd_main }, pending)
    else (w', positive)
worker_shutdown_in internal_sd_main w progress =
    let w' = procs_drive w progress in
    if not (length w'.procs == 0) then (w', pending) else (w', positive)

unfoldable pub worker_shutdown : Worker → (ℕ → Bool) → Worker × Success
worker_shutdown w progress = worker_shutdown_in w.state_sd w progress

pub data BrokerState : Type 0 where
  start broker_start broker_main : BrokerState

pub data BrokerSdState : Type 0 where
  sd_start broker_sd_start : BrokerSdState

pub record Broker : Type 0 where
  pub state : BrokerState
  pub state_sd : BrokerSdState
  pub cnt_internals : ℕ  -- uint16_t
  pub internals : List Worker

unfoldable pub new_broker : Broker
new_broker = record { state = start; state_sd = sd_start; cnt_internals = 1; internals = [] }

unfoldable pub worker_cnt_set : Broker → ℕ → Broker
worker_cnt_set b cnt = record b { cnt_internals = cnt }

-- The loop of `idDriverNextGet` over the workers from `id` on.
unfoldable pub next_from : ℕ → List Worker → ℕ → ℕ → ℕ
next_from id [] id_selected num_selected = id_selected
next_from id (w ∷ ws) id_selected num_selected =
    let better = ltb w.num_processing num_selected in
    next_from (id + 1) ws (if better then id else id_selected)
      (if better then w.num_processing else num_selected)

unfoldable pub id_driver_next_get : List Worker → Option ℕ
unfolding next_from
id_driver_next_get [] = none
id_driver_next_get (w ∷ ws) = some (next_from 1 ws 0 w.num_processing)

-- A desired driver below the number of workers is taken, and otherwise the next one.
unfoldable pub id_driver : Broker → Desired → Option ℕ
unfolding id_driver_next_get
id_driver b any_driver = id_driver_next_get b.internals
id_driver b (driver n) =
    let next = id_driver_next_get b.internals in if ltb n b.cnt_internals then some n else next

-- The body of the loop of `poolRequestsProcess`.
unfoldable pub pool_request : Broker → PoolRequest → Option Broker
pool_request b req = elim (id_driver b req.id_driver_desired) [
  | none ↦ none
  | some id ↦ elim (get_elem? b.internals id) [
    | none ↦ none
    | some w ↦ some (record b { internals = set b.internals id (proc_internal_add w req.proc) })
  ]
]

unfoldable pub pool_requests_process : Broker → List PoolRequest → Option Broker
pool_requests_process b [] = some b
pool_requests_process b (req ∷ reqs) = elim (pool_request b req) [
  | none ↦ none
  | some b' ↦ pool_requests_process b' reqs
]

-- The loop that creates the workers; `created i` tells whether the i-th could be. The result is
-- false if one could not.
unfoldable pub create_from : (ℕ → Bool) → ℕ → ℕ → List Worker → List Worker × Bool
create_from created zero i workers = (workers, true)
create_from created (suc n) i workers = elim (created i) [
  | true ↦ create_from created n (i + 1) (workers ++ (new_worker ∷ []))
  | false ↦ (workers, false)
]

-- process() of a broker, by its state
unfoldable pub broker_process_in :
    BrokerState → Broker → (ℕ → Bool) → List PoolRequest → Option (Broker × Success)
broker_process_in start b created reqs = some (record b { state = broker_start }, pending)
broker_process_in broker_start b created reqs =
    let r = create_from created b.cnt_internals 0 b.internals in
    if b.cnt_internals == 0
    then some (b, negative)
    else if not r.1
    then some (record b { internals = r.0 }, negative)
    else some (record b { internals = r.0; state = broker_main }, pending)
broker_process_in broker_main b created reqs = elim (pool_requests_process b reqs) [
  | none ↦ none
  | some b' ↦ some (b', pending)
]

unfoldable pub broker_process : Broker → (ℕ → Bool) → List PoolRequest → Option (Broker × Success)
broker_process b created reqs = broker_process_in b.state b created reqs

abbrev pub canceled_first : Worker → Option (List Worker) → Option (List Worker)
canceled_first w none = none
canceled_first w (some ws) = some (record w { canceled = true } ∷ ws)

-- The loop that cancels the workers, over the vector and by the rounds left.
unfoldable pub cancel_all : ℕ → List Worker → Option (List Worker)
cancel_all zero ws = some ws
cancel_all (suc n) [] = none
cancel_all (suc n) (w ∷ ws) = canceled_first w (cancel_all n ws)

-- The loop that asks the workers, which returns at the first that has not shut down.
unfoldable pub all_done : (ℕ → Bool) → ℕ → ℕ → List Worker → Option Bool
all_done done zero i ws = some true
all_done done (suc n) i [] = none
all_done done (suc n) i (w ∷ ws) = elim (done i) [
  | true ↦ all_done done n (i + 1) ws
  | false ↦ some false
]

abbrev pub canceled_with : Broker → Option (List Worker) → Option (Broker × Success)
canceled_with b none = none
canceled_with b (some ws) = some (record b { internals = ws; state_sd = broker_sd_start }, pending)

abbrev pub asked_with : Broker → Option Bool → Option (Broker × Success)
asked_with b none = none
asked_with b (some ready) = some (b, if ready then positive else pending)

-- shutdown() of a broker, by its state
unfoldable pub broker_shutdown_in : BrokerSdState → Broker → (ℕ → Bool) → Option (Broker × Success)
unfolding cancel_all all_done
broker_shutdown_in sd_start b done = canceled_with b (cancel_all b.cnt_internals b.internals)
broker_shutdown_in broker_sd_start b done =
    asked_with b (all_done done b.cnt_internals 0 b.internals)

unfoldable pub broker_shutdown : Broker → (ℕ → Bool) → Option (Broker × Success)
unfolding broker_shutdown_in
broker_shutdown b done = broker_shutdown_in b.state_sd b done
