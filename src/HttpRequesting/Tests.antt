-- ===== src/HttpRequesting/Tests.antt =====
-- Runs of HttpRequesting.cpp on small inputs.
use processing_common.Common.{
  ℕ, ◌≡◌, ◌⊎◌, refl, sym, ap, arith, Bool, true, false, same_str, List, [], ◌∷◌, ◌++◌, none, some,
}
use processing_common.LibDspc.Url.Parts.{url_of}
use processing_common.MailSending.{Success, pending, positive}
use processing_common.HttpRequesting.{
  dns_resolv_done_wait, HttpRequesting, Libc, new_request, version_tls_set, url_set, addr_host_add,
  Tick, run,
}
use processing_common.HttpRequesting.Runs.{
  IsReAssembled, run-IsReAssembled, answered, IsAnswered, run-IsAnswered,
}
use processing_common.HttpRequesting.Sessions.{
  HttpSession, Sessions, no_sessions, Env, session_find, changed, erased, session_at, mtxs_new,
  num_set, shared_data_mtx_list_delete, session_new, session_found, session_create, session_ended,
  session_terminate, refused, shared_data_lock,
}
use processing_common.HttpRequesting.Sessions.Steps.{
  released, takes, ends, here, later, IsShared, Reach-IsShared,
}
use processing_common.HttpRequesting.Configure.{
  live, Easy, tlsv1_2, Lists, easy_handle_curl_configure,
}
use processing_common.HttpRequesting.Configure.Options.{
  fresh, ready, tls_set, IsAccepted, IsDangling, easy_handle_curl_configure-IsAccepted,
}
use processing_common.HttpRequesting.Multi.{no_multi, easy_handle_curl_bind}
use processing_common.HttpRequesting.Multi.Bindings
use processing_common.HttpRequesting.Multi.Bindings.{with_request}
use processing_common.HttpRequesting.Secured.{run-configured}

abbrev libc : Libc
libc = record { valid4 = λ ip. false; valid6 = λ ip. false; atoi = λ str. 8080 }

abbrev tick : Success → Tick
tick answer = record {
  resolver_made = true;
  resolver = answer;
  addrs = (b'1' ∷ []) ∷ [];
  configured = true;
  bound = true;
  msgs = [];
}

abbrev request : HttpRequesting
request = addr_host_add (b'1' ∷ []) (
    url_set (url_of (b'p' ∷ []) (b'h' ∷ []) (b'8' ∷ []) (b'a' ∷ []) (b's' ∷ []))
      (new_request 1 true))

run-IsReAssembled_example :
    IsReAssembled libc request
      (b'p' ∷ [])
      (b'h' ∷ [])
      (b'8' ∷ [])
      (b'a' ∷ [])
      (b's' ∷ [])
      (run libc (tick pending ∷ tick pending ∷ []) request)
run-IsReAssembled_example =
    run-IsReAssembled libc (tick pending) (tick pending) request (b'p' ∷ []) (b'h' ∷ []) (b'8' ∷ [])
      (b'a' ∷ []) (b's' ∷ []) refl refl refl (omega arith) (refl, tt) (omega arith) (refl, tt)
      (refl, tt) (refl, tt) (refl, tt) (omega arith)

abbrev resolving : HttpRequesting
resolving = record (new_request 1 true) {
  state = dns_resolv_done_wait;
  name_host = b'h' ∷ [];
  port = 80;
  resolving = true;
}

run-IsAnswered_example :
    IsAnswered
      (answered positive ((b'1' ∷ []) ∷ []) [])
      resolving
      (run libc ((tick pending ∷ []) ++ (tick positive ∷ tick pending ∷ [])) resolving)
run-IsAnswered_example =
    run-IsAnswered libc (tick pending ∷ []) (tick positive) (tick pending) resolving refl refl
      (refl, tt) (λ h. absurd cc)

abbrev env : Bool → Env
env ok = record { alloc = λ i. true; share_init = true; share_set = ok }

abbrev host : List ℕ
host = b'h' ∷ []

abbrev session : ℕ → ℕ → HttpSession
session num max = record {
  id = 0;
  num_references = num;
  max_references = max;
  address = host;
  port = 80;
  shared_data_mtxs = true ∷ true ∷ true ∷ true ∷ [];
}

abbrev store : ℕ → ℕ → Sessions
store num max = record { sessions = session num max ∷ []; next = 1; mutexes = 4; shares = 1 }

taken_first : session_create (env true) host 80 no_sessions ≡ (store 1 1, some 0)
unfolding session_create session_find session_found session_new mtxs_new num_set
taken_first = refl

taken_again : session_create (env true) host 80 (store 1 1) ≡ (store 2 2, some 0)
unfolding session_create session_find session_found changed same_str
taken_again = refl

given_back : session_terminate 0 (store 2 2) ≡ store 1 2
unfolding session_terminate session_at session_ended changed
given_back = refl

last_given_back : session_terminate 0 (store 1 2) ≡ record no_sessions { next = 1 }
unfolding session_terminate session_at session_ended erased shared_data_mtx_list_delete
last_given_back = refl

not_made : session_create (env false) host 80 no_sessions ≡ (record no_sessions { next = 1 }, none)
unfolding session_create session_find session_found session_new mtxs_new num_set
    shared_data_mtx_list_delete
not_made = refl

-- The data of connections has the number 5.
not_locked : shared_data_lock 5 ≡ refused
not_locked = refl

Reach-IsShared_example : IsShared (record { store = store 1 2; held = 0 ∷ [] })
unfolding released
Reach-IsShared_example = Reach-IsShared (
    later
      (later (later here (takes (env true) host 80 0 (store 1 1) (omega arith) taken_first refl))
        (takes (env true) host 80 0 (store 2 2) (omega arith) taken_again refl))
      (ends 0 (omega arith) (ap (λ st. record { store = st; held = 0 ∷ [] }) (sym given_back))))

abbrev lists : Lists
lists = record { header = λ i. true; resolv = true }

abbrev strange : HttpRequesting
strange = version_tls_set (b'S' ∷ b'S' ∷ b'L' ∷ []) request

-- A handle that was configured before.
abbrev used : Easy
used = record {
  handle = live;
  options = [];
  list_header = (b'a' ∷ []) ∷ [];
  list_resolv = (b'b' ∷ []) ∷ [];
}

easy_handle_curl_configure-IsAccepted_example :
    IsAccepted lists strange used (easy_handle_curl_configure lists strange used)
    ⊎ IsDangling strange (easy_handle_curl_configure lists strange used)
easy_handle_curl_configure-IsAccepted_example =
    easy_handle_curl_configure-IsAccepted lists strange used refl

abbrev at_start : Bindings.World
at_start = record { multi = no_multi; requests = λ i. new_request i true }

abbrev bound_one : Bindings.World
bound_one =
    with_request at_start 7
      (let r = easy_handle_curl_bind true true no_multi (new_request 7 true) in (r.0, r.1))

abbrev schemeless : HttpRequesting
schemeless =
    addr_host_add (b'1' ∷ [])
      (url_set (url_of [] (b'h' ∷ []) (b'8' ∷ []) (b'a' ∷ []) (b's' ∷ [])) (new_request 1 true))

run-configured_example :
    easy_handle_curl_configure lists
      (run libc (tick pending ∷ tick pending ∷ []) schemeless).0
      fresh
    ≡ some (
      ready lists (run libc (tick pending ∷ tick pending ∷ []) schemeless).0 (tls_set tlsv1_2),
      positive,
    )
run-configured_example =
    run-configured libc (tick pending) (tick pending) schemeless lists true [] (b'h' ∷ [])
      (b'8' ∷ []) (b'a' ∷ []) (b's' ∷ []) refl refl refl (omega arith) tt (omega arith) (refl, tt)
      (refl, tt) (refl, tt) (refl, tt) (omega arith) refl refl
