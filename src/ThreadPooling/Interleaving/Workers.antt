-- ===== src/ThreadPooling/Interleaving/Workers.antt =====
-- The counters of the workers stay right, whichever calls come.
use processing_common.Common.{
  ℕ, zero, suc, ◌+◌, ◌≤◌, ◌≡◌, inl, inr, refl, ap, subst, arith, Bool, true, false, not, ◌==◌, List,
  [], ◌∷◌, ◌++◌, Option, none, some, length, length-append, get_elem?, set, Bool-cases,
}
use processing_common.ThreadPooling.{
  Worker, WorkerState, start, internal_start, internal_main, WorkerSdState, sd_start,
  internal_sd_start, internal_sd_main, canceled_first, cancel_all, new_worker, procs_drive,
  worker_process_in, worker_shutdown_in, create_from,
}
use processing_common.ThreadPooling.Counting.{
  IsCounted, new_worker-IsCounted, procs_drive-IsCounted,
}
use processing_common.ThreadPooling.Distribution.{AllCounted}

pub worker_process_in-IsCounted :
    (s : WorkerState) (w : Worker) (progress : ℕ → Bool)
    → IsCounted w
    → IsCounted (worker_process_in s w progress)
unfolding worker_process_in
worker_process_in-IsCounted start w progress c = c
worker_process_in-IsCounted internal_start w progress c = c
worker_process_in-IsCounted internal_main w progress c = procs_drive-IsCounted w progress c

pub worker_shutdown_in-IsCounted :
    (s : WorkerSdState) (w : Worker) (progress : ℕ → Bool)
    → IsCounted w
    → IsCounted (worker_shutdown_in s w progress).0
unfolding worker_shutdown_in
worker_shutdown_in-IsCounted sd_start w progress c = c
worker_shutdown_in-IsCounted internal_sd_start w progress c =
    elim (Bool-cases (not (length (procs_drive w progress).procs == 0))) [
      | inl h ↦ rw h (procs_drive-IsCounted w progress c)
      | inr h ↦ rw h (procs_drive-IsCounted w progress c)
    ]
worker_shutdown_in-IsCounted internal_sd_main w progress c =
    elim (Bool-cases (not (length (procs_drive w progress).procs == 0))) [
      | inl h ↦ rw h (procs_drive-IsCounted w progress c)
      | inr h ↦ rw h (procs_drive-IsCounted w progress c)
    ]

pub set_counted :
    (ws : List Worker) (id : ℕ) (w w' : Worker)
    → get_elem? ws id ≡ some w
    → (IsCounted w → IsCounted w')
    → AllCounted ws
    → AllCounted (set ws id w') × (length (set ws id w') ≡ length ws)
set_counted [] id w w' at keep c = (tt, refl)
set_counted (v ∷ ws) zero w w' at keep c =
    let same : v ≡ w = cc in ((keep (subst IsCounted same c.0), c.1), refl)
set_counted (v ∷ ws) (suc id) w w' at keep c =
    let (c', len) = set_counted ws id w w' at keep c.1 in ((c.0, c'), ap suc len)

AllCounted-snoc : (ws : List Worker) → AllCounted ws → AllCounted (ws ++ (new_worker ∷ []))
AllCounted-snoc [] c = (new_worker-IsCounted, tt)
AllCounted-snoc (w ∷ ws) c = (c.0, AllCounted-snoc ws c.1)

pub create_from-AllCounted :
    (created : ℕ → Bool) (n i : ℕ) (ws : List Worker)
    → (create_from created n i ws).1 ≡ true
    → AllCounted ws
    → AllCounted (create_from created n i ws).0
      × (length (create_from created n i ws).0 ≡ length ws + n)
unfolding create_from
create_from-AllCounted created zero i ws h c = (c, omega arith)
create_from-AllCounted created (suc n) i ws h c = elim (Bool-cases (created i)) [
  | inl one ↦
      let more : List Worker = ws ++ (new_worker ∷ []) in
      let e : create_from created (suc n) i ws ≡ create_from created n (i + 1) more =
        rw (one, create_from) refl in
      let (c', len) =
        create_from-AllCounted created n (i + 1) more (subst (λ r. r.1 ≡ true) e h)
          (AllCounted-snoc ws c) in
      rw e (c', omega (arith, length-append ws (new_worker ∷ [])))
  | inr none_made ↦
      let e : create_from created (suc n) i ws ≡ (ws, false) = rw (none_made, create_from) refl in
      let no : false ≡ true = subst (λ r. r.1 ≡ true) e h in absurd cc
]

pub create_from-few :
    (created : ℕ → Bool) (n i : ℕ) (ws : List Worker)
    → AllCounted ws
    → AllCounted (create_from created n i ws).0
      × (length (create_from created n i ws).0 ≤ length ws + n)
unfolding create_from
create_from-few created zero i ws c = (c, omega arith)
create_from-few created (suc n) i ws c = elim (Bool-cases (created i)) [
  | inl one ↦
      let more : List Worker = ws ++ (new_worker ∷ []) in
      let e : create_from created (suc n) i ws ≡ create_from created n (i + 1) more =
        rw (one, create_from) refl in
      let (c', len) = create_from-few created n (i + 1) more (AllCounted-snoc ws c) in
      rw e (c', omega (arith, len, length-append ws (new_worker ∷ [])))
  | inr none_made ↦
      let e : create_from created (suc n) i ws ≡ (ws, false) = rw (none_made, create_from) refl in
      rw e (c, omega arith)
]

canceled_first-AllCounted :
    (ws : List Worker) (w : Worker) (o : Option (List Worker)) (ws' : List Worker)
    → ((l : List Worker) → o ≡ some l → AllCounted l × (length l ≡ length ws))
    → IsCounted w
    → canceled_first w o ≡ some ws'
    → AllCounted ws' × (length ws' ≡ suc (length ws))
canceled_first-AllCounted ws w none ws' rest c e = absurd cc
canceled_first-AllCounted ws w (some l) ws' rest c e =
    let (c', len) = rest l refl in
    let same : record w { canceled = true } ∷ l ≡ ws' = cc in
    subst (λ l. AllCounted l × (length l ≡ suc (length ws))) same ((c, c'), ap suc len)

pub cancel_all-AllCounted :
    (n : ℕ) (ws ws' : List Worker)
    → cancel_all n ws ≡ some ws'
    → AllCounted ws
    → AllCounted ws' × (length ws' ≡ length ws)
unfolding cancel_all
cancel_all-AllCounted zero ws ws' e c =
    let same : ws ≡ ws' = cc in subst (λ l. AllCounted l × (length l ≡ length ws)) same (c, refl)
cancel_all-AllCounted (suc n) [] ws' e c = absurd cc
cancel_all-AllCounted (suc n) (w ∷ ws) ws' e c =
    canceled_first-AllCounted ws w (cancel_all n ws) ws'
      (λ l at. cancel_all-AllCounted n ws l at c.1) c.0 e
