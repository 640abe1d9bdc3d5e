-- ===== src/ThreadPooling/Choice.antt =====
-- Which worker gets a request that desires none.
use processing_common.Common.{
  ℕ, zero, suc, ◌+◌, ◌<◌, ◌≤◌, ◌≡◌, ◌⊎◌, inl, inr, refl, arith, ltb, List, [], ◌∷◌, some, length,
  get_elem?, Bool-cases, ltb→lt,
}
use processing_common.ThreadPooling.{Worker, next_from, id_driver_next_get}

-- The worker at `id` is there, no worker is less loaded, and every worker before it is more loaded.
pub record IsLeastLoaded (ws : List Worker) (id : ℕ) : Type 0 where
  pub load : ℕ
  pub worker : Worker
  pub here : get_elem? ws id ≡ some worker
  pub load_eq : worker.num_processing ≡ load
  pub least : (i : ℕ) (w : Worker) → get_elem? ws i ≡ some w → load ≤ w.num_processing
  pub first : (i : ℕ) (w : Worker) → get_elem? ws i ≡ some w → i < id → load < w.num_processing

-- No worker is loaded less than `a`; every worker before `k` is loaded more than `a`.
abbrev AllFrom : ℕ → List Worker → Type 0
AllFrom a ws = (i : ℕ) (w : Worker) → get_elem? ws i ≡ some w → a ≤ w.num_processing

abbrev AllAbove : ℕ → ℕ → List Worker → Type 0
AllAbove a k ws = (i : ℕ) (w : Worker) → get_elem? ws i ≡ some w → i < k → a < w.num_processing

AllFrom-cons :
    (a : ℕ) (v : Worker) (ws : List Worker)
    → a ≤ v.num_processing
    → AllFrom a ws
    → AllFrom a (v ∷ ws)
AllFrom-cons a v ws h all zero w e = ground arith
AllFrom-cons a v ws h all (suc i) w e = all i w e

AllAbove-cons :
    (a k : ℕ) (v : Worker) (ws : List Worker)
    → a < v.num_processing
    → AllAbove a k ws
    → AllAbove a (suc k) (v ∷ ws)
AllAbove-cons a k v ws h all zero w e lt = ground arith
AllAbove-cons a k v ws h all (suc i) w e lt = all i w e (omega arith)

-- What the loop over `ws`, which start at position `id`, returns: the worker chosen before, or the
-- first of the least loaded ones of `ws`.
abbrev Chosen : ℕ → List Worker → ℕ → ℕ → ℕ → Type 0
Chosen id ws sel num r =
    ((r ≡ sel) × AllFrom num ws)
    ⊎ ((k : ℕ) × (v : Worker) × (r ≡ id + k)
        × (get_elem? ws k ≡ some v)
        × (v.num_processing < num)
        × AllFrom v.num_processing ws
        × AllAbove v.num_processing k ws)

next_from-Chosen :
    (id : ℕ) (ws : List Worker) (sel num : ℕ) → Chosen id ws sel num (next_from id ws sel num)
unfolding next_from
next_from-Chosen id [] sel num = inl (refl, λ i w e. cc)
next_from-Chosen id (v ∷ ws) sel num = elim (Bool-cases (ltb v.num_processing num)) [
  | inl better ↦ rw better (elim (next_from-Chosen (id + 1) ws id v.num_processing) [
    | inl (e, all) ↦ inr (
      0,
      v,
      omega arith,
      refl,
      ltb→lt _ _ better,
      AllFrom-cons v.num_processing v ws (omega arith) all,
      λ i w e lt. absurd (omega arith),
    )
    | inr (k, u, e, at, less, all, above) ↦ inr (
      suc k,
      u,
      omega arith,
      at,
      omega (arith, ltb→lt v.num_processing num better),
      AllFrom-cons u.num_processing v ws (omega arith) all,
      AllAbove-cons u.num_processing k v ws less above,
    )
  ])
  | inr worse ↦
      let le : num ≤ v.num_processing = ground arith in
      rw worse (elim (next_from-Chosen (id + 1) ws sel num) [
        | inl (e, all) ↦ inl (e, AllFrom-cons num v ws le all)
        | inr (k, u, e, at, less, all, above) ↦ inr (
          suc k,
          u,
          omega arith,
          at,
          less,
          AllFrom-cons u.num_processing v ws (omega arith) all,
          AllAbove-cons u.num_processing k v ws (omega arith) above,
        )
      ])
]

-- With at least one worker `idDriverNextGet` returns the first of the least loaded workers.
pub id_driver_next_get-IsLeastLoaded :
    (ws : List Worker)
    → 0 < length ws
    → (id : ℕ) × (id_driver_next_get ws ≡ some id) × IsLeastLoaded ws id
unfolding id_driver_next_get
id_driver_next_get-IsLeastLoaded [] h = absurd (omega arith)
id_driver_next_get-IsLeastLoaded (v ∷ ws) h = elim (next_from-Chosen 1 ws 0 v.num_processing) [
  | inl (e, all) ↦ (
    0,
    rw e,
    record {
      load = v.num_processing;
      worker = v;
      here = refl;
      load_eq = refl;
      least = AllFrom-cons v.num_processing v ws (omega arith) all;
      first = λ i w e lt. absurd (omega arith);
    },
  )
  | inr (k, u, e, at, less, all, above) ↦
      let e' : next_from 1 ws 0 v.num_processing ≡ suc k = omega arith in
      (
        suc k,
        rw e',
        record {
          load = u.num_processing;
          worker = u;
          here = at;
          load_eq = refl;
          least = AllFrom-cons u.num_processing v ws (omega arith) all;
          first = AllAbove-cons u.num_processing k v ws less above;
        },
      )
]
