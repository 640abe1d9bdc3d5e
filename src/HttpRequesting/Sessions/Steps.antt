-- ===== src/HttpRequesting/Sessions/Steps.antt =====
-- Requests that take sessions and give them back, in any order.
use processing_common.Common.{
  ℕ, zero, suc, ◌+◌, ◌*◌, ◌^◌, ◌≤◌, ◌<◌, ◌≡◌, inl, inr, refl, sym, ap, subst, arith, Bool, true,
  false, ◌&&◌, ◌==◌, if◌then◌else◌, List, [], ◌∷◌, Option, none, some, length, Bool-cases,
  replicate, ◌-◌,
}
use processing_common.HttpRequesting.Sessions.{
  Sessions, no_sessions, Env, session_find, mtxs_new, num_set, shared_data_mtx_list_delete,
  referenced, session_new, session_found, session_create, dereferenced, session_ended,
  session_terminate,
}
use processing_common.HttpRequesting.Sessions.Counts.{
  AllSound, refs_of, AllSound-suc, session_at-fresh, session_find-at, session_at-referenced,
  session_at-Referenced, changed-AllSound, refs_of-changed, length-changed, erased-AllSound,
  refs_of-erased, length-erased_node,
}

abbrev pub count : ℕ → List ℕ → ℕ
count id [] = 0
count id (i ∷ ids) = (if i == id then 1 else 0) + count id ids

-- The requests without one that holds a session.
unfoldable pub released : ℕ → List ℕ → List ℕ
released id [] = []
released id (i ∷ ids) = if i == id then ids else i ∷ released id ids

-- The store and, for each request that holds a session, the session.
pub record World : Type 0 where
  pub store : Sessions
  pub held : List ℕ

-- A request takes a session, fails to, or gives its session back. There are less than 2 ^ 64
-- requests, the one that takes included, since each is an object in memory.
pub data Step (w w' : World) : Type 0 where
  takes :
      (env : Env) (address : List ℕ) (port id : ℕ) (store : Sessions)
      → suc (length w.held) < 2 ^ 64
      → session_create env address port w.store ≡ (store, some id)
      → w' ≡ record { store = store; held = id ∷ w.held }
      → Step w w'
  fails :
      (env : Env) (address : List ℕ) (port : ℕ) (store : Sessions)
      → suc (length w.held) < 2 ^ 64
      → session_create env address port w.store ≡ (store, none)
      → w' ≡ record w { store = store }
      → Step w w'
  ends :
      (id : ℕ)
      → 0 < count id w.held
      → w' ≡ record { store = session_terminate id w.store; held = released id w.held }
      → Step w w'

pub data Reach (w : World) : World → Type 0 where
  here : Reach w w
  later : {w₁ w₂ : World} → Reach w w₁ → Step w₁ w₂ → Reach w w₂

abbrev pub nobody : World
nobody = record { store = no_sessions; held = [] }

-- The counters are those of the requests, and the mutexes and share handles those of the sessions.
pub record IsShared (w : World) : Type 0 where
  pub sound : AllSound w.store.next w.store.sessions
  pub refs : (id : ℕ) → refs_of id w.store.sessions ≡ count id w.held
  pub small : length w.held < 2 ^ 64
  pub mutexes : w.store.mutexes ≡ 4 * length w.store.sessions
  pub shares : w.store.shares ≡ length w.store.sessions

count_le : (id : ℕ) (ids : List ℕ) → count id ids ≤ length ids
count_le id [] = omega arith
count_le id (i ∷ ids) = ground (arith, count_le id ids)

count-released :
    (i id : ℕ) (ids : List ℕ)
    → 0 < count id ids
    → count i (released id ids) + (if id == i then 1 else 0) ≡ count i ids
unfolding released
count-released i id [] h = absurd (omega arith)
count-released i id (j ∷ ids) h = elim (Bool-cases (j == id)) [
  | inl same ↦ rw same (ground arith)
  | inr other ↦ rw other (ground (arith, count-released i id ids (ground arith)))
]

length-released : (id : ℕ) (ids : List ℕ) → length (released id ids) ≤ length ids
unfolding released
length-released id [] = omega arith
length-released id (j ∷ ids) = ground (arith, length-released id ids)

-- The mutexes of a new session: all or none are left.
all_set :
    (alloc : ℕ → Bool) (n i : ℕ)
    → (mtxs_new alloc n i).1 ≡ true
    → (shared_data_mtx_list_delete (mtxs_new alloc n i).0 ≡ n)
      × (num_set (mtxs_new alloc n i).0 ≡ n)
unfolding mtxs_new shared_data_mtx_list_delete num_set
all_set alloc zero i h = (refl, refl)
all_set alloc (suc n) i h = elim (Bool-cases (alloc i)) [
  | inl one ↦ let (d, s) = all_set alloc n (suc i) (ground arith) in rw one (ap suc d, ap suc s)
  | inr failed ↦ absurd (ground arith)
]

num_set-none : (n : ℕ) → num_set (replicate n false) ≡ 0
unfolding num_set
num_set-none zero = refl
num_set-none (suc n) = num_set-none n

all_deleted :
    (alloc : ℕ → Bool) (n i : ℕ)
    → shared_data_mtx_list_delete (mtxs_new alloc n i).0 ≡ num_set (mtxs_new alloc n i).0
unfolding mtxs_new shared_data_mtx_list_delete num_set
all_deleted alloc zero i = refl
all_deleted alloc (suc n) i = elim (Bool-cases (alloc i)) [
  | inl one ↦ rw one (ap suc (all_deleted alloc n (suc i)))
  | inr failed ↦ rw failed (sym (num_set-none n))
]

-- What `session_create` gives, for a request that holds no session yet.
abbrev Outcome : List ℕ → Sessions × Option ℕ → Type 0
Outcome held (st, none) = IsShared (record { store = st; held = held })
Outcome held (st, some id) = IsShared (record { store = st; held = id ∷ held })

session_new-IsShared :
    (env : Env) (address : List ℕ) (port : ℕ) (w : World)
    → suc (length w.held) < 2 ^ 64
    → session_find address port w.store.sessions ≡ none
    → IsShared w
    → Outcome w.held (session_new env address port w.store)
unfolding session_new
session_new-IsShared env address port w fits only sh =
    let made = mtxs_new env.alloc 4 0 in
    let gone = all_deleted env.alloc 4 0 in
    elim (Bool-cases (made.1 && env.share_init && env.share_set)) [
      | inl ok ↦
          let (whole, num) = all_set env.alloc 4 0 (ground arith) in
          rw ok (record {
            sound = (
              omega arith,
              omega arith,
              omega arith,
              whole,
              only,
              session_at-fresh w.store.next w.store.sessions sh.sound,
              AllSound-suc w.store.next w.store.sessions sh.sound,
            );
            refs = λ id. ground (arith, sh.refs id);
            small = fits;
            mutexes = omega (arith, sh.mutexes, num);
            shares = omega (arith, sh.shares);
          })
      | inr failed ↦ rw failed (record {
        sound = AllSound-suc w.store.next w.store.sessions sh.sound;
        refs = sh.refs;
        small = sh.small;
        mutexes = omega (arith, sh.mutexes, gone);
        shares = sh.shares;
      })
    ]

session_found-IsShared :
    (env : Env) (address : List ℕ) (port : ℕ) (w : World) (o : Option ℕ)
    → suc (length w.held) < 2 ^ 64
    → session_find address port w.store.sessions ≡ o
    → IsShared w
    → Outcome w.held (session_found env address port w.store o)
unfolding session_found
session_found-IsShared env address port w none fits found sh =
    session_new-IsShared env address port w fits found sh
session_found-IsShared env address port w (some id) fits found sh =
    let (s, at) = session_find-at address port id w.store.sessions found in
    let (some_ref, most, whole, low) =
      session_at-Referenced w.store.next id w.store.sessions s sh.sound at in
    let bound : s.num_references + 1 < 2 ^ 64 = omega (arith, sh.refs id, count_le id w.held) in
    let more : (referenced s).num_references ≡ s.num_references + 1 = omega arith in
    record {
      sound =
          changed-AllSound referenced (λ t. (refl, refl, refl, refl)) w.store.next id
            w.store.sessions s at (omega arith) (ground arith) sh.sound;
      refs = λ i. ground (
        arith,
        refs_of-changed referenced (λ t. (refl, refl, refl, refl)) i id w.store.sessions s at,
        sh.refs i,
        more,
      );
      small = fits;
      mutexes = omega (
        arith,
        sh.mutexes,
        length-changed referenced (λ t. (refl, refl, refl, refl)) id w.store.sessions,
      );
      shares = omega (
        arith,
        sh.shares,
        length-changed referenced (λ t. (refl, refl, refl, refl)) id w.store.sessions,
      );
    }

session_terminate-IsShared :
    (id : ℕ) (w : World)
    → 0 < count id w.held
    → IsShared w
    → IsShared (record { store = session_terminate id w.store; held = released id w.held })
unfolding session_terminate session_ended
session_terminate-IsShared id w some_held sh =
    let (s, at) = session_at-referenced id w.store.sessions (omega (arith, sh.refs id)) in
    let (some_ref, most, whole, low) =
      session_at-Referenced w.store.next id w.store.sessions s sh.sound at in
    let bound : s.num_references < 2 ^ 64 =
      omega (arith, sh.refs id, count_le id w.held, sh.small) in
    let less : (dereferenced s).num_references ≡ s.num_references - 1 = omega arith in
    elim (Bool-cases ((dereferenced s).num_references == 0)) [
      | inl last ↦
          let num : s.num_references ≡ 1 = ground arith in
          rw (at, last)
            (record {
              sound = erased-AllSound w.store.next id w.store.sessions sh.sound;
              refs = λ i. ground (
                arith,
                refs_of-erased i id w.store.sessions s at,
                count-released i id w.held some_held,
                sh.refs i,
              );
              small = omega (arith, length-released id w.held, sh.small);
              mutexes =
                  omega (arith, sh.mutexes, whole, length-erased_node id w.store.sessions s at);
              shares = omega (arith, sh.shares, length-erased_node id w.store.sessions s at);
            })
      | inr more ↦
          rw (at, more)
            (record {
              sound =
                  changed-AllSound dereferenced (λ t. (refl, refl, refl, refl)) w.store.next id
                    w.store.sessions s at (ground arith) (omega arith) sh.sound;
              refs = λ i. ground (
                arith,
                refs_of-changed dereferenced (λ t. (refl, refl, refl, refl)) i id w.store.sessions s
                    at,
                count-released i id w.held some_held,
                sh.refs i,
                less,
              );
              small = omega (arith, length-released id w.held, sh.small);
              mutexes = omega (
                arith,
                sh.mutexes,
                length-changed dereferenced (λ t. (refl, refl, refl, refl)) id w.store.sessions,
              );
              shares = omega (
                arith,
                sh.shares,
                length-changed dereferenced (λ t. (refl, refl, refl, refl)) id w.store.sessions,
              );
            })
    ]

session_create-Outcome :
    (env : Env) (address : List ℕ) (port : ℕ) (w : World)
    → suc (length w.held) < 2 ^ 64
    → IsShared w
    → Outcome w.held (session_create env address port w.store)
unfolding session_create
session_create-Outcome env address port w fits sh =
    session_found-IsShared env address port w (session_find address port w.store.sessions) fits refl
      sh

Step-IsShared : {w w' : World} → Step w w' → IsShared w → IsShared w'
Step-IsShared {w} (takes env address port id store fits made eq) sh =
    subst IsShared (sym eq)
      (subst (Outcome w.held) made (session_create-Outcome env address port w fits sh))
Step-IsShared {w} (fails env address port store fits made eq) sh =
    subst IsShared (sym eq)
      (subst (Outcome w.held) made (session_create-Outcome env address port w fits sh))
Step-IsShared {w} (ends id some_held eq) sh =
    subst IsShared (sym eq) (session_terminate-IsShared id w some_held sh)

-- From an empty store on, after any sequence of calls in which less than 2 ^ 64 requests take
-- sessions, fail to, or give theirs back: the references of each session are as many as the
-- requests that hold it, and at least one; no two sessions have one name, or one host and port; and
-- four mutexes and one share handle are alive for each session, so none without sessions.
pub Reach-IsShared : {w : World} → Reach nobody w → IsShared w
Reach-IsShared here = record {
  sound = tt;
  refs = λ id. refl;
  small = omega arith;
  mutexes = refl;
  shares = refl;
}
Reach-IsShared (later r st) = Step-IsShared st (Reach-IsShared r)
