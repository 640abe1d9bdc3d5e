-- ===== src/ThreadPooling/Counting.antt =====
-- The counters of a worker.
use processing_common.Common.{
  ℕ, ◌+◌, ◌≡◌, refl, arith, Bool, u64, sub64, List, [], ◌∷◌, ◌++◌, length, length-append,
}
use processing_common.ThreadPooling.{
  Worker, new_worker, proc_internal_add, splice, drive, drive_all, procs_drive,
}

-- The first counter is the number of processes that the worker has, in both lists.
abbrev pub IsCounted : Worker → Type 0
IsCounted w = w.num_processing ≡ u64 (length w.procs_req + length w.procs)

pub new_worker-IsCounted : IsCounted new_worker
unfolding new_worker
new_worker-IsCounted = refl

pub proc_internal_add-IsCounted :
    (w : Worker) (proc : ℕ) → IsCounted w → IsCounted (proc_internal_add w proc)
unfolding proc_internal_add
proc_internal_add-IsCounted w proc c = omega (arith, length-append w.procs_req (proc ∷ []))

length-drive :
    (progress : ℕ → Bool) (procs : List ℕ)
    → length (drive progress procs).0 + (drive progress procs).1 ≡ length procs
unfolding drive
length-drive progress [] = refl
length-drive progress (p ∷ procs) = ground (arith, length-drive progress procs)

splice-IsCounted : (w : Worker) → IsCounted w → IsCounted (splice w)
unfolding splice
splice-IsCounted w c = omega (arith, length-append w.procs w.procs_req)

drive_all-IsCounted :
    (w : Worker) (progress : ℕ → Bool) → IsCounted w → IsCounted (drive_all w progress)
unfolding drive_all
drive_all-IsCounted w progress c = omega (arith, length-drive progress w.procs)

pub procs_drive-IsCounted :
    (w : Worker) (progress : ℕ → Bool) → IsCounted w → IsCounted (procs_drive w progress)
unfolding procs_drive
procs_drive-IsCounted w progress c = drive_all-IsCounted (splice w) progress (splice-IsCounted w c)

-- If the broker adds a process after the worker has spliced its lists, the result of the round is
-- the same as if the broker had waited for its end.
pub procs_drive-interleaved :
    (w : Worker) (proc : ℕ) (progress : ℕ → Bool)
    → drive_all (proc_internal_add (splice w) proc) progress
      ≡ proc_internal_add (procs_drive w progress) proc
unfolding procs_drive drive_all proc_internal_add splice
procs_drive-interleaved w proc progress =
    let n : sub64 (u64 (w.num_processing + 1)) (u64 (drive progress (w.procs ++ w.procs_req)).1)
        ≡ u64 (sub64 w.num_processing (u64 (drive progress (w.procs ++ w.procs_req)).1) + 1) =
      omega arith in
    rw n refl
