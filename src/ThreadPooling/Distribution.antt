-- ===== src/ThreadPooling/Distribution.antt =====
-- Where the requests of the pipe go.
use processing_common.Common.{
  ℕ, zero, suc, ◌<◌, ◌≡◌, ◌∙◌, inl, inr, refl, sym, ap, subst, arith, ltb, List, [], ◌∷◌, ◌++◌,
  append_assoc, some, length, get_elem?, set, Bool-cases,
}
use mathlib.Core.List.{Perm, perm_middle}
use mathlib.Core.List.Perm
use processing_common.ThreadPooling.{
  Worker, Broker, Desired, PoolRequest, any_driver, driver, proc_internal_add, id_driver,
  pool_request, pool_requests_process,
}
use processing_common.ThreadPooling.Choice.{id_driver_next_get-IsLeastLoaded}
use processing_common.ThreadPooling.Counting.{IsCounted, proc_internal_add-IsCounted}

abbrev pub AllCounted : List Worker → Type 0
AllCounted [] = Unit {0}
AllCounted (w ∷ ws) = IsCounted w × AllCounted ws

-- The processes that the workers have, and those that the requests bring.
abbrev pub held : List Worker → List ℕ
held [] = []
held (w ∷ ws) = w.procs_req ++ (w.procs ++ held ws)

abbrev pub requested : List PoolRequest → List ℕ
requested [] = []
requested (req ∷ reqs) = req.proc ∷ requested reqs

-- What adding a process to the worker at `id` does to the workers.
pub record IsAdded (ws : List Worker) (id proc : ℕ) (ws' : List Worker) : Type 0 where
  pub counted : AllCounted ws'
  pub perm : Perm (held ws') (proc ∷ held ws)
  pub same_length : length ws' ≡ length ws

add_at :
    (ws : List Worker) (id proc : ℕ)
    → id < length ws
    → AllCounted ws
    → (w : Worker) × (get_elem? ws id ≡ some w)
      × IsAdded ws id proc (set ws id (proc_internal_add w proc))
unfolding proc_internal_add
add_at [] id proc h c = absurd (omega arith)
add_at (w ∷ ws) zero proc h c = (
  w,
  refl,
  record {
    counted = (proc_internal_add-IsCounted w proc c.0, c.1);
    perm =
        subst (λ l. Perm l (proc ∷ (w.procs_req ++ (w.procs ++ held ws))))
          (sym (append_assoc w.procs_req (proc ∷ []) (w.procs ++ held ws)))
          (perm_middle w.procs_req (w.procs ++ held ws));
    same_length = refl;
  },
)
add_at (w ∷ ws) (suc id) proc h c =
    let (v, at, a) = add_at ws id proc (omega arith) c.1 in
    let ws' : List Worker = set ws id (proc_internal_add v proc) in
    (
      v,
      at,
      record {
        counted = (c.0, a.counted);
        perm = Perm.trans (Perm.append_left w.procs_req (Perm.append_left w.procs a.perm)) (
            Perm.trans (Perm.append_left w.procs_req (perm_middle w.procs (held ws)))
              (perm_middle w.procs_req (w.procs ++ held ws)));
        same_length = ap suc a.same_length;
      },
    )

get_elem?-lt : (ws : List Worker) (id : ℕ) (w : Worker) → get_elem? ws id ≡ some w → id < length ws
get_elem?-lt [] id w e = absurd cc
get_elem?-lt (v ∷ ws) zero w e = omega arith
get_elem?-lt (v ∷ ws) (suc id) w e = omega (arith, get_elem?-lt ws id w e)

id_driver-lt :
    (b : Broker) (desired : Desired)
    → 0 < b.cnt_internals
    → length b.internals ≡ b.cnt_internals
    → (id : ℕ) × (id_driver b desired ≡ some id) × (id < length b.internals)
unfolding id_driver
id_driver-lt b any_driver h e =
    let (id, at, least) = id_driver_next_get-IsLeastLoaded b.internals (omega arith) in
    (id, at, get_elem?-lt b.internals id least.worker least.here)
id_driver-lt b (driver n) h e = elim (Bool-cases (ltb n b.cnt_internals)) [
  | inl lt ↦ (n, rw lt refl, ground arith)
  | inr ge ↦
      let (id, at, least) = id_driver_next_get-IsLeastLoaded b.internals (omega arith) in
      (id, rw ge at, get_elem?-lt b.internals id least.worker least.here)
]

-- A broker that has its workers, each with a right counter.
pub record IsRunning (b : Broker) : Type 0 where
  pub some_workers : 0 < b.cnt_internals
  pub all_there : length b.internals ≡ b.cnt_internals
  pub counted : AllCounted b.internals

pub record IsServed (b : Broker) (procs : List ℕ) (b' : Broker) : Type 0 where
  pub running : IsRunning b'
  pub distributed : Perm (held b'.internals) (procs ++ held b.internals)
  pub same_state : b'.state ≡ b.state

pool_request-IsServed :
    (b : Broker) (req : PoolRequest)
    → IsRunning b
    → (b' : Broker) × (pool_request b req ≡ some b') × IsServed b (req.proc ∷ []) b'
unfolding pool_request
pool_request-IsServed b req r =
    let (id, chosen, lt) = id_driver-lt b req.id_driver_desired r.some_workers r.all_there in
    let (w, at, a) = add_at b.internals id req.proc lt r.counted in
    (
      record b { internals = set b.internals id (proc_internal_add w req.proc) },
      rw (chosen, pool_request) (rw at refl),
      record {
        running = record {
          some_workers = r.some_workers;
          all_there = a.same_length ∙ r.all_there;
          counted = a.counted;
        };
        distributed = a.perm;
        same_state = refl;
      },
    )

-- With all workers there and their counters right, `poolRequestsProcess` never indexes behind them:
-- the workers have their old processes and those of the requests, none lost or doubled, and the
-- counters are right again.
pub pool_requests_process-IsServed :
    (b : Broker) (reqs : List PoolRequest)
    → IsRunning b
    → (b' : Broker) × (pool_requests_process b reqs ≡ some b') × IsServed b (requested reqs) b'
unfolding pool_requests_process
pool_requests_process-IsServed b [] r =
    (b, refl, record { running = r; distributed = Perm.refl (held b.internals); same_state = refl })
pool_requests_process-IsServed b (req ∷ reqs) r =
    let (b₁, e₁, s₁) = pool_request-IsServed b req r in
    let (b₂, e₂, s₂) = pool_requests_process-IsServed b₁ reqs s₁.running in
    (
      b₂,
      rw (e₁, pool_requests_process) e₂,
      record {
        running = s₂.running;
        distributed = Perm.trans s₂.distributed (
            Perm.trans (Perm.append_left (requested reqs) s₁.distributed)
              (perm_middle (requested reqs) (held b.internals)));
        same_state = s₂.same_state ∙ s₁.same_state;
      },
    )
