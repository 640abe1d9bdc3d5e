-- ===== src/ThreadPooling/Interleaving.antt =====
-- The broker and its workers run in threads of their own: any interleaving of their calls.
mod Workers
use processing_common.Common.{
  ℕ, ◌≤◌, ◌≡◌, ◌∙◌, refl, sym, ap, subst, arith, Bool, true, false, not, ◌||◌, ◌==◌, if◌then◌else◌,
  List, [], ◌∷◌, Option, none, some, length, get_elem?, set,
}
use processing_common.ThreadPooling.{
  Worker, Broker, BrokerState, PoolRequest, Success, start, sd_start, broker_start, broker_main,
  new_broker, worker_cnt_set, pending, positive, negative, BrokerSdState, broker_sd_start,
  cancel_all, all_done, canceled_with, asked_with, broker_shutdown_in, broker_shutdown,
  worker_process, worker_shutdown, broker_process_in, create_from, broker_process,
}
use processing_common.ThreadPooling.Counting.{IsCounted}
use processing_common.ThreadPooling.Distribution.{
  AllCounted, IsRunning, pool_requests_process-IsServed,
}
use processing_common.ThreadPooling.Interleaving.Workers.{
  worker_process_in-IsCounted, worker_shutdown_in-IsCounted, set_counted, create_from-AllCounted,
  create_from-few, cancel_all-AllCounted,
}

-- A broker, and whether its `process` has given another result than Pending.
pub record Pool : Type 0 where
  pub broker : Broker
  pub ended : Bool

abbrev pub ends : Success → Bool
ends pending = false
ends positive = true
ends negative = true

abbrev pub pool_of : Bool → Broker × Success → Pool
pool_of ended (b, success) = record { broker = b; ended = ended || ends success }

-- A call of `process` or `shutdown` by the broker or by one of the workers. The framework calls
-- `process` of the broker until that gives another result than Pending.
pub data Step (p p' : Pool) : Type 0 where
  broker_runs :
      (created : ℕ → Bool) (reqs : List PoolRequest) (r : Broker × Success)
      → p.ended ≡ false
      → broker_process p.broker created reqs ≡ some r
      → p' ≡ pool_of false r
      → Step p p'
  broker_ends :
      (done : ℕ → Bool) (r : Broker × Success)
      → broker_shutdown p.broker done ≡ some r
      → p' ≡ record p { broker = r.0 }
      → Step p p'
  worker_runs :
      (id : ℕ) (w : Worker) (progress : ℕ → Bool)
      → get_elem? p.broker.internals id ≡ some w
      → p' ≡ record p {
        broker = record p.broker {
          internals = set p.broker.internals id (worker_process w progress).0;
        };
      }
      → Step p p'
  worker_ends :
      (id : ℕ) (w : Worker) (progress : ℕ → Bool)
      → get_elem? p.broker.internals id ≡ some w
      → p' ≡ record p {
        broker = record p.broker {
          internals = set p.broker.internals id (worker_shutdown w progress).0;
        };
      }
      → Step p p'

pub data Reach (p : Pool) : Pool → Type 0 where
  here : Reach p p
  later : {p₁ p₂ : Pool} → Reach p p₁ → Step p₁ p₂ → Reach p p₂

unfoldable pub not_main : BrokerState → Bool
not_main start = true
not_main broker_start = true
not_main broker_main = false

-- Before its workers are created a broker has none. Then it has as many as were asked for, or no more
-- than that where it has failed, and their counters are right.
pub data IsSound (p : Pool) : Type 0 where
  before : p.ended ≡ false → not_main p.broker.state ≡ true → p.broker.internals ≡ [] → IsSound p
  running : p.ended ≡ false → p.broker.state ≡ broker_main → IsRunning p.broker → IsSound p
  failed :
      p.ended ≡ true
      → length p.broker.internals ≤ p.broker.cnt_internals
      → AllCounted p.broker.internals
      → IsSound p

-- What a call gives, if it returns.
abbrev Outcome : Bool → Option (Broker × Success) → Type 0
Outcome ended none = Unit {0}
Outcome ended (some r) = IsSound (pool_of ended r)

Outcome-if :
    (ended c : Bool) (x y : Option (Broker × Success))
    → (c ≡ true → Outcome ended x)
    → (c ≡ false → Outcome ended y)
    → Outcome ended (if c then x else y)
Outcome-if ended true x y p q = p refl
Outcome-if ended false x y p q = q refl

-- The call that creates the workers.
creation-IsSound :
    (b : Broker) (created : ℕ → Bool) (reqs : List PoolRequest)
    → b.internals ≡ []
    → Outcome false (broker_process_in broker_start b created reqs)
unfolding broker_process_in
creation-IsSound b created reqs none_yet =
    let r = create_from created b.cnt_internals 0 b.internals in
    let c : AllCounted b.internals = rw none_yet tt in
    let empty : length b.internals ≡ 0 = ap length none_yet in
    let few = create_from-few created b.cnt_internals 0 b.internals c in
    Outcome-if false (b.cnt_internals == 0) _ _ (λ h. failed refl (omega (arith, empty)) c)
      (λ some_wanted.
        Outcome-if false (not r.1) _ _ (λ h. failed refl (omega (arith, few.1, empty)) few.0)
          (λ h.
            let made =
              create_from-AllCounted created b.cnt_internals 0 b.internals (ground arith) c in
            running refl refl (record {
              some_workers = ground arith;
              all_there = omega (arith, made.1, empty);
              counted = made.0;
            })))

broker_process_in-IsSound :
    (s : BrokerState) (b : Broker) (created : ℕ → Bool) (reqs : List PoolRequest)
    → b.state ≡ s
    → IsSound (record { broker = b; ended = false })
    → Outcome false (broker_process_in s b created reqs)
unfolding broker_process_in not_main
broker_process_in-IsSound s b created reqs at (failed over few c) = absurd cc
broker_process_in-IsSound start b created reqs at (before going m none_yet) =
    before refl refl none_yet
broker_process_in-IsSound start b created reqs at (running going m r) =
    (let no : start ≡ broker_main = sym at ∙ m in absurd cc)
broker_process_in-IsSound broker_start b created reqs at (before going m none_yet) =
    creation-IsSound b created reqs none_yet
broker_process_in-IsSound broker_start b created reqs at (running going m r) =
    (let no : broker_start ≡ broker_main = sym at ∙ m in absurd cc)
broker_process_in-IsSound broker_main b created reqs at (before going m none_yet) =
    (let no : false ≡ true = subst (λ s. not_main s ≡ true) at m in absurd cc)
broker_process_in-IsSound broker_main b created reqs at (running going m r) =
    let (b₁, served, s) = pool_requests_process-IsServed b reqs r in
    let e : broker_process_in broker_main b created reqs ≡ some (b₁, pending) =
      rw (served, broker_process_in) refl in
    subst (Outcome false) (sym e) (running refl (s.same_state ∙ m) s.running)

-- Other workers, as many as before, whose counters are right.
with_workers :
    (p : Pool) (ws : List Worker) (sd : BrokerSdState)
    → (AllCounted p.broker.internals → AllCounted ws × (length ws ≡ length p.broker.internals))
    → IsSound p
    → IsSound (record p { broker = record p.broker { internals = ws; state_sd = sd } })
with_workers p ws sd keep (before going m none_yet) =
    let (c, len) = keep (rw none_yet tt) in
    before going m (no_workers ws (len ∙ ap length none_yet))
  where
    no_workers : (ws : List Worker) → length ws ≡ 0 → ws ≡ []
    no_workers [] h = refl
    no_workers (w ∷ ws) h = absurd (omega (arith, h))
with_workers p ws sd keep (running going m r) =
    let (c, len) = keep r.counted in
    running going m
      (record { some_workers = r.some_workers; all_there = len ∙ r.all_there; counted = c })
with_workers p ws sd keep (failed over few c) =
    let (c', len) = keep c in failed over (omega (arith, few, len)) c'

changed-IsSound :
    (p : Pool) (id : ℕ) (w w' : Worker)
    → get_elem? p.broker.internals id ≡ some w
    → (IsCounted w → IsCounted w')
    → IsSound p
    → IsSound (record p { broker = record p.broker { internals = set p.broker.internals id w' } })
changed-IsSound p id w w' at keep s =
    with_workers p (set p.broker.internals id w') p.broker.state_sd
      (λ c. set_counted p.broker.internals id w w' at keep c) s

abbrev After : Bool → Option (Broker × Success) → Type 0
After ended none = Unit {0}
After ended (some r) = IsSound (record { broker = r.0; ended = ended })

broker_shutdown_in-IsSound :
    (sd : BrokerSdState) (p : Pool) (done : ℕ → Bool)
    → IsSound p
    → After p.ended (broker_shutdown_in sd p.broker done)
unfolding broker_shutdown_in
broker_shutdown_in-IsSound sd_start p done s =
    go (cancel_all p.broker.cnt_internals p.broker.internals) refl
  where
    go :
        (o : Option (List Worker))
        → cancel_all p.broker.cnt_internals p.broker.internals ≡ o
        → After p.ended (canceled_with p.broker o)
    go none at = tt
    go (some ws) at =
        with_workers p ws broker_sd_start
          (cancel_all-AllCounted p.broker.cnt_internals p.broker.internals ws at) s
broker_shutdown_in-IsSound broker_sd_start p done s =
    go (all_done done p.broker.cnt_internals 0 p.broker.internals)
  where
    go : (o : Option Bool) → After p.ended (asked_with p.broker o)
    go none = tt
    go (some ready) = s

Step-IsSound : (p p' : Pool) → Step p p' → IsSound p → IsSound p'
unfolding broker_process broker_shutdown worker_process worker_shutdown
Step-IsSound p p' (broker_runs created reqs r going e same) s =
    let s' : IsSound (record { broker = p.broker; ended = false }) =
      subst (λ b. IsSound (record { broker = p.broker; ended = b })) going s in
    let s₁ = broker_process_in-IsSound p.broker.state p.broker created reqs refl s' in
    subst IsSound (sym same) (subst (Outcome false) e s₁)
Step-IsSound p p' (broker_ends done r e same) s =
    subst IsSound (sym same)
      (subst (After p.ended) e (broker_shutdown_in-IsSound p.broker.state_sd p done s))
Step-IsSound p p' (worker_runs id w progress at e) s = subst IsSound (sym e) (
    changed-IsSound p id w (worker_process w progress).0 at
      (worker_process_in-IsCounted w.state w progress) s)
Step-IsSound p p' (worker_ends id w progress at e) s = subst IsSound (sym e) (
    changed-IsSound p id w (worker_shutdown w progress).0 at
      (worker_shutdown_in-IsCounted w.state_sd w progress) s)

-- A broker with the number of workers that it was set up for.
abbrev pub set_up : ℕ → Pool
set_up cnt = record { broker = worker_cnt_set new_broker cnt; ended = false }

set_up-IsSound : (cnt : ℕ) → IsSound (set_up cnt)
unfolding worker_cnt_set new_broker not_main
set_up-IsSound cnt = before refl refl refl

-- A broker is set up for a number of workers. Its `process` and `shutdown` and those of its workers
-- are called in any order, none indexes behind the vector of workers, and none is its own `process`
-- behind one that did not give Pending. In every state that is reached so, it has no workers yet,
-- or all of them, or no more than all where `process` has failed; and the counters of its workers
-- are right.
pub Reach-IsSound : (cnt : ℕ) (p : Pool) → Reach (set_up cnt) p → IsSound p
Reach-IsSound cnt p here = set_up-IsSound cnt
Reach-IsSound cnt p (later {p₁} r s) = Step-IsSound p₁ p s (Reach-IsSound cnt p₁ r)
