-- ===== src/ThreadPooling/Tests.antt =====
-- Examples of the theorems about ThreadPooling.cpp.
use processing_common.Common.{
  ℕ, zero, suc, ◌+◌, ◌≡◌, refl, arith, Bool, true, false, List, [], ◌∷◌, none, some, length,
}
use processing_common.ThreadPooling.{
  Worker, Broker, PoolRequest, any_driver, driver, pending, negative, internal_main, broker_start,
  broker_main, sd_start, new_worker, new_broker, worker_cnt_set, pool_requests_process,
  broker_process_in, broker_process, create_from, cancel_all, broker_shutdown_in, broker_shutdown,
}
use processing_common.ThreadPooling.Distribution.{
  IsRunning, IsServed, requested, pool_requests_process-IsServed,
}
use processing_common.ThreadPooling.Interleaving.{
  Reach, here, later, broker_runs, IsSound, set_up, Reach-IsSound,
}

-- A worker with processes to take over and processes to drive.
abbrev worker : List ℕ → List ℕ → Worker
worker procs_req procs = record {
  state = internal_main;
  state_sd = sd_start;
  canceled = false;
  num_processing = length procs_req + length procs;
  num_finished = 0;
  procs_req = procs_req;
  procs = procs;
}

abbrev busy : Worker
busy = worker (4 ∷ []) (5 ∷ 6 ∷ [])

abbrev calm : Worker
calm = worker [] (7 ∷ [])

abbrev broker : Broker
broker = record {
  state = broker_main;
  state_sd = sd_start;
  cnt_internals = 2;
  internals = busy ∷ calm ∷ [];
}

broker-IsRunning : IsRunning broker
broker-IsRunning = record {
  some_workers = omega arith;
  all_there = refl;
  counted = (refl, (refl, tt));
}

abbrev requests : List PoolRequest
requests =
    record { proc = 8; id_driver_desired = any_driver }
    ∷ record { proc = 9; id_driver_desired = driver 0 }
    ∷ []

pool_requests_process_example :
    (b' : Broker) × (pool_requests_process broker requests ≡ some b')
    × IsServed broker (requested requests) b'
pool_requests_process_example = pool_requests_process-IsServed broker requests broker-IsRunning

abbrev all_created : ℕ → Bool
all_created i = true

abbrev started : Broker
started = record { state = broker_start; state_sd = sd_start; cnt_internals = 2; internals = [] }

abbrev ready : Broker
ready = record {
  state = broker_main;
  state_sd = sd_start;
  cnt_internals = 2;
  internals = new_worker ∷ new_worker ∷ [];
}

first_call : broker_process (set_up 2).broker all_created [] ≡ some (started, pending)
unfolding broker_process broker_process_in new_broker worker_cnt_set
first_call = refl

second_call : broker_process started all_created [] ≡ some (ready, pending)
unfolding broker_process broker_process_in create_from
second_call = refl

-- The second worker cannot be created.
abbrev half : Broker
half = record started { internals = new_worker ∷ [] }

abbrev only_first : ℕ → Bool
only_first zero = true
only_first (suc i) = false

failing_call : broker_process started only_first [] ≡ some (half, negative)
unfolding broker_process broker_process_in create_from
failing_call = refl

-- `shutdown` of a broker without all of its workers indexes behind the vector.
half_shutdown : broker_shutdown half all_created ≡ none
unfolding broker_shutdown broker_shutdown_in cancel_all
half_shutdown = refl

ready_reached : Reach (set_up 2) (record { broker = ready; ended = false })
ready_reached =
    later (later here (broker_runs all_created [] (started, pending) refl first_call refl))
      (broker_runs all_created [] (ready, pending) refl second_call refl)

Reach-IsSound_example : IsSound (record { broker = ready; ended = false })
Reach-IsSound_example = Reach-IsSound 2 (record { broker = ready; ended = false }) ready_reached
