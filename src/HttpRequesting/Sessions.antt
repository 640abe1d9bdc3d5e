-- ===== src/HttpRequesting/Sessions.antt =====
-- HttpRequesting.cpp: the sessions that requests to the same host and port share. A session is named
-- by its node of the list, which the iterator `mSession` of a request points to.
pub mod Counts
pub mod Steps
use processing_common.Common.{
  ℕ, zero, suc, ◌+◌, ◌-◌, Bool, true, false, not, ◌&&◌, ltb, ◌==◌, if◌then◌else◌, same_str, u64,
  sub64, List, [], ◌∷◌, Option, none, some, replicate,
}

-- `shared_data_mtxs` holds whether each of the pointers is set.
pub record HttpSession : Type 0 where
  pub id : ℕ
  pub num_references : ℕ
  pub max_references : ℕ
  pub address : List ℕ
  pub port : ℕ
  pub shared_data_mtxs : List Bool

-- The static list, the name of its next node, and how many mutexes and share handles are alive.
pub record Sessions : Type 0 where
  pub sessions : List HttpSession
  pub next : ℕ
  pub mutexes : ℕ
  pub shares : ℕ

abbrev pub no_sessions : Sessions
no_sessions = record { sessions = []; next = 0; mutexes = 0; shares = 0 }

abbrev pub num_shared_data_types : ℕ
num_shared_data_types = 4

-- What a call meets: the mutexes that can be allocated, curl_share_init() and curl_share_setopt().
pub record Env : Type 0 where
  pub alloc : ℕ → Bool
  pub share_init : Bool
  pub share_set : Bool

abbrev pub is_for : List ℕ → ℕ → HttpSession → Bool
is_for address port s = same_str s.address address && (s.port == port)

unfoldable pub session_find : List ℕ → ℕ → List HttpSession → Option ℕ
session_find address port [] = none
session_find address port (s ∷ ss) =
    if is_for address port s then some s.id else session_find address port ss

-- A change of the node that the iterator points to, and its removal.
unfoldable pub changed : (HttpSession → HttpSession) → ℕ → List HttpSession → List HttpSession
changed f id [] = []
changed f id (s ∷ ss) = if s.id == id then f s ∷ ss else s ∷ changed f id ss

unfoldable pub erased : ℕ → List HttpSession → List HttpSession
erased id [] = []
erased id (s ∷ ss) = if s.id == id then ss else s ∷ erased id ss

unfoldable pub session_at : ℕ → List HttpSession → Option HttpSession
session_at id [] = none
session_at id (s ∷ ss) = if s.id == id then some s else session_at id ss

-- The loop that allocates the mutexes: the pointers, and whether all are set. The ones behind a
-- failed allocation stay NULL.
unfoldable pub mtxs_new : (ℕ → Bool) → ℕ → ℕ → List Bool × Bool
mtxs_new alloc zero i = ([], true)
mtxs_new alloc (suc n) i =
    let rest = mtxs_new alloc n (suc i) in
    if alloc i then (true ∷ rest.0, rest.1) else (replicate (suc n) false, false)

-- The mutexes among the pointers.
unfoldable pub num_set : List Bool → ℕ
num_set [] = 0
num_set (true ∷ mtxs) = suc (num_set mtxs)
num_set (false ∷ mtxs) = num_set mtxs

-- How many mutexes sharedDataMtxListDelete deletes: those in front of the first NULL.
unfoldable pub shared_data_mtx_list_delete : List Bool → ℕ
shared_data_mtx_list_delete [] = 0
shared_data_mtx_list_delete (true ∷ mtxs) = suc (shared_data_mtx_list_delete mtxs)
shared_data_mtx_list_delete (false ∷ mtxs) = 0

-- The last lines of sessionCreate.
abbrev pub max_updated : HttpSession → HttpSession
max_updated s = record s {
  max_references =
      if ltb s.max_references s.num_references then s.num_references else s.max_references;
}

abbrev pub referenced : HttpSession → HttpSession
referenced s = max_updated (record s { num_references = u64 (s.num_references + 1) })

-- The branch without a session: the store with or without the new node.
unfoldable pub session_new : Env → List ℕ → ℕ → Sessions → Sessions × Option ℕ
unfolding mtxs_new num_set shared_data_mtx_list_delete
session_new env address port st =
    let made = mtxs_new env.alloc num_shared_data_types 0 in
    let node : HttpSession = record {
      id = st.next;
      num_references = 1;
      max_references = 1;
      address = address;
      port = port;
      shared_data_mtxs = made.0;
    } in
    let gone : Sessions = record st {
      next = suc st.next;
      mutexes = st.mutexes + num_set made.0 - shared_data_mtx_list_delete made.0;
    } in
    if made.1 && env.share_init && env.share_set
    then (
      record {
        sessions = max_updated node ∷ st.sessions;
        next = suc st.next;
        mutexes = st.mutexes + num_set made.0;
        shares = suc st.shares;
      },
      some st.next,
    )
    else (gone, none)

unfoldable pub session_found : Env → List ℕ → ℕ → Sessions → Option ℕ → Sessions × Option ℕ
unfolding session_new changed
session_found env address port st none = session_new env address port st
session_found env address port st (some id) =
    (record st { sessions = changed referenced id st.sessions }, some id)

-- The node that `mSession` of the request points to where the result is Positive.
unfoldable pub session_create : Env → List ℕ → ℕ → Sessions → Sessions × Option ℕ
unfolding session_find session_found
session_create env address port st =
    session_found env address port st (session_find address port st.sessions)

abbrev pub dereferenced : HttpSession → HttpSession
dereferenced s = record s { num_references = sub64 s.num_references 1 }

unfoldable pub session_ended : ℕ → Sessions → Option HttpSession → Sessions
unfolding changed erased shared_data_mtx_list_delete
session_ended id st none = st
session_ended id st (some s) =
    if not ((dereferenced s).num_references == 0)
    then record st { sessions = changed dereferenced id st.sessions }
    else record st {
      sessions = erased id st.sessions;
      mutexes = st.mutexes - shared_data_mtx_list_delete s.shared_data_mtxs;
      shares = st.shares - 1;
    }

unfoldable pub session_terminate : ℕ → Sessions → Sessions
unfolding session_at session_ended
session_terminate id st = session_ended id st (session_at id st.sessions)

-- What the callbacks of libcurl do with the mutex of a kind of data: lock or unlock one, print an
-- error, or take one in front of the list.
pub data Shared : Type 0 where
  mutex : ℕ → Shared
  refused undefined : Shared

abbrev pub shared_data_lock : ℕ → Shared
shared_data_lock zero = undefined
shared_data_lock (suc idx) = if ltb idx num_shared_data_types then mutex idx else refused
