-- ===== src/HttpRequesting/Runs.antt =====
-- What becomes of the URL of a request, and of the resolution of its host.
use processing_common.Common.{
  ℕ, ◌<◌, ◌^◌, ◌≡◌, ◌≢◌, ◌∙◌, refl, sym, ap, subst, arith, true, false, ◌==◌, if◌then◌else◌,
  same_str, u16, List, [], ◌∷◌, ◌++◌, length,
}
use processing_common.LibDspc.Strings.Split.{Lacks}
use processing_common.LibDspc.Url.{
  UrlParts, AddrFamily, af_unspec, af_inet, af_inet6, url_to_parts, type_ip, scheme,
}
use processing_common.LibDspc.Url.Parts.{url_of, length-url_of}
use processing_common.LibDspc.Url.Roundtrip.{url_to_parts-url_of}
use processing_common.MailSending.{Success, pending, positive, negative, digits}
use processing_common.HttpRequesting.{
  start, url_re_asm, easy_init, dns_resolv_done_wait, HttpRequesting, Libc, kept, https,
  is_unresolved, parts_set, started, resolved, behind, re_assembled, Tick, process_in, process,
  next, run,
}
use processing_common.HttpRequesting.Configure.{resolv_list}

-- A request whose URL has been taken apart and put together again, without its port, and whose TLS
-- version is as before.
pub record IsReAssembled (libc : Libc) (old : HttpRequesting) (p h q a s : List ℕ)
    (r : HttpRequesting × Success) : Type 0 where
  pub going : r.1 ≡ pending
  pub state : r.0.state ≡ easy_init
  pub url : r.0.url ≡ kept https p ++ (scheme ++ (h ++ (behind b'/' a ++ behind b'?' s)))
  pub version_tls : r.0.version_tls ≡ old.version_tls
  pub port : r.0.port ≡ (
      if u16 (libc.atoi q) == 0
      then (if same_str (kept https p) https then 443 else 80)
      else u16 (libc.atoi q))

-- The parts of a request, with the defaults.
abbrev with_parts : Libc → HttpRequesting → UrlParts → HttpRequesting
with_parts libc r parts = record r {
  protocol = kept https parts.protocol;
  name_host = parts.host;
  type_name_host = type_ip libc.valid4 libc.valid6 parts.host;
  port =
      if parts.port == 0
      then (if same_str (kept https parts.protocol) https then 443 else 80)
      else parts.port;
  path = parts.path;
  queries = parts.queries;
}

parts_set_lem :
    (libc : Libc) (r : HttpRequesting)
    → parts_set libc r ≡ with_parts libc r (url_to_parts libc.atoi r.url)
unfolding parts_set
parts_set_lem libc r = refl

known_host :
    (r : HttpRequesting) (family : AddrFamily)
    → r.type_name_host ≡ family
    → 0 < length r.addr_host
    → is_unresolved r ≡ false
unfolding is_unresolved
known_host r af_unspec h some_addr =
    let eq : (length r.addr_host == 0) ≡ false = ground arith in rw h eq
known_host r af_inet h some_addr = rw h refl
known_host r af_inet6 h some_addr = rw h refl

started_lem :
    (libc : Libc) (r : HttpRequesting)
    → r.curl ≡ true
    → 0 < length r.url
    → 0 < length r.addr_host
    → started libc r ≡ (record (parts_set libc r) { state = url_re_asm }, pending)
unfolding started
started_lem libc r curl some_url some_addr =
    let named : (length r.url == 0) ≡ false = ground arith in
    let known : is_unresolved (parts_set libc r) ≡ false =
      known_host (parts_set libc r) (parts_set libc r).type_name_host refl some_addr in
    simp (curl, named, known)

-- For a request at its start with a handle, the address of its host and a URL of five parts
-- (protocol and port without ':', a host that is not empty, host and port without '/', queries
-- without '?', a size that fits in 64 bits), two calls of `process` give the URL without its port,
-- "https" being the protocol if there is none, and the port, which is the protocol's if it is 0;
-- the TLS version stays.
pub run-IsReAssembled :
    (libc : Libc) (t t' : Tick) (r : HttpRequesting) (p h q a s : List ℕ)
    → r.state ≡ start
    → r.curl ≡ true
    → r.url ≡ url_of p h q a s
    → 0 < length r.addr_host
    → Lacks b':' p
    → 0 < length h
    → Lacks b'/' h
    → Lacks b'/' q
    → Lacks b':' q
    → Lacks b'?' s
    → length (url_of p h q a s) < 2 ^ 64
    → IsReAssembled libc r p h q a s (run libc (t ∷ t' ∷ []) r)
unfolding run next process process_in re_assembled
run-IsReAssembled libc t t' r p h q a s state curl url some_addr lp some_host lh lq lq' ls fits =
    let parts : UrlParts = record {
      protocol = p;
      host = h;
      port = u16 (libc.atoi q);
      path = a;
      queries = s;
    } in
    let cut : url_to_parts libc.atoi r.url ≡ parts =
      ap (url_to_parts libc.atoi) url
      ∙ url_to_parts-url_of libc.atoi p h q a s lp some_host lh lq lq' ls fits in
    let some_url : 0 < length r.url = omega (arith, ap length url, length-url_of p h q a s) in
    let eq : process libc t r ≡ (record (with_parts libc r parts) { state = url_re_asm }, pending) =
      ap (λ st. process_in st libc t r) state
      ∙ started_lem libc r curl some_url some_addr
      ∙ ap (λ x. (record x { state = url_re_asm }, pending))
          (parts_set_lem libc r ∙ ap (with_parts libc r) cut) in
    let r' : HttpRequesting = record (with_parts libc r parts) { state = url_re_asm } in
    subst (IsReAssembled libc r p h q a s) (sym (ap (λ x. next x (run libc (t' ∷ []))) eq))
      (record { going = refl; state = refl; url = refl; version_tls = refl; port = refl })

abbrev pub AllPending : List Tick → Type 0
AllPending [] = Unit {0}
AllPending (t ∷ ts) = (t.resolver ≡ pending) × AllPending ts

-- The address of the host, once the resolver has answered: the first of those found, or the one that
-- there was.
pub answered : Success → List (List ℕ) → List ℕ → List ℕ
answered positive (addr ∷ addrs) old = addr
answered positive [] old = old
answered pending addrs old = old
answered negative addrs old = old

-- What libcurl is told about the host, if its address is known: "<name>:<port>:<address>".
abbrev pub entry_of : List ℕ → ℕ → List ℕ → List (List ℕ)
entry_of name num [] = []
entry_of name num (c ∷ addr) =
    (name ++ ((b':' ∷ []) ++ (digits 5 num [] ++ ((b':' ∷ []) ++ (c ∷ addr))))) ∷ []

-- A request that is about to be configured, with this address of its host.
pub record IsAnswered (addr : List ℕ) (old : HttpRequesting) (r : HttpRequesting × Success)
    : Type 0 where
  pub going : r.1 ≡ pending
  pub state : r.0.state ≡ easy_init
  pub resolver_gone : r.0.resolving ≡ false
  pub addr_host : r.0.addr_host ≡ addr
  pub entry : resolv_list true r.0 ≡ entry_of old.name_host old.port addr

resolv_list_lem :
    (r : HttpRequesting) (addr : List ℕ)
    → r.type_name_host ≡ af_unspec
    → r.addr_host ≡ addr
    → resolv_list true r ≡ entry_of r.name_host r.port addr
unfolding resolv_list
resolv_list_lem r [] name h = simp (name, h) refl
resolv_list_lem r (c ∷ addr) name h =
    let eq : (length (c ∷ addr) == 0) ≡ false = ground arith in simp (name, h, eq) refl

-- A request that the resolver has answered.
abbrev with_addr : List ℕ → HttpRequesting → HttpRequesting
with_addr addr r = record r { addr_host = addr; resolving = false; state = url_re_asm }

resolved_lem :
    (answer : Success) (addrs : List (List ℕ)) (r : HttpRequesting)
    → answer ≢ pending
    → resolved answer addrs r ≡ (with_addr (answered answer addrs r.addr_host) r, pending)
unfolding resolved answered
resolved_lem pending addrs r some_answer = absurd (some_answer refl)
resolved_lem positive [] r some_answer = refl
resolved_lem positive (addr ∷ addrs) r some_answer = refl
resolved_lem negative addrs r some_answer = refl

process-resolved :
    (libc : Libc) (t : Tick) (r : HttpRequesting)
    → r.state ≡ dns_resolv_done_wait
    → process libc t r ≡ resolved t.resolver t.addrs r
unfolding process process_in
process-resolved libc t r state = ap (λ st. process_in st libc t r) state

still : (addrs : List (List ℕ)) (r : HttpRequesting) → resolved pending addrs r ≡ (r, pending)
unfolding resolved
still addrs r = refl

run_first :
    (libc : Libc) (t : Tick) (ts : List Tick) (r r' : HttpRequesting)
    → process libc t r ≡ (r', pending)
    → run libc (t ∷ ts) r ≡ run libc ts r'
unfolding run next
run_first libc t ts r r' eq = ap (λ x. next x (run libc ts)) eq

-- The call behind the answer puts the URL together.
run-with_addr :
    (libc : Libc) (t : Tick) (addr : List ℕ) (r : HttpRequesting)
    → r.type_name_host ≡ af_unspec
    → IsAnswered addr r (run libc (t ∷ []) (with_addr addr r))
unfolding run next process process_in
run-with_addr libc t addr r name = record {
  going = refl;
  state = refl;
  resolver_gone = refl;
  addr_host = refl;
  entry =
      resolv_list_lem (record (with_addr addr r) { url = re_assembled r; state = easy_init }) addr
        name refl;
}

-- A request with a host name waits for its resolver as long as that is pending. Two calls from the
-- answer on it is about to be configured, also where the resolver has failed, without the resolver:
-- with the first IPv4 address of a success, and else with the address that it had. With this
-- address and its name and port as before, the entry of the host for libcurl is made, if there is
-- an address.
pub run-IsAnswered :
    (libc : Libc) (waits : List Tick) (t t' : Tick) (r : HttpRequesting)
    → r.state ≡ dns_resolv_done_wait
    → r.type_name_host ≡ af_unspec
    → AllPending waits
    → t.resolver ≢ pending
    → IsAnswered (answered t.resolver t.addrs r.addr_host) r (run libc (waits ++ (t ∷ t' ∷ [])) r)
run-IsAnswered libc [] t t' r state name w some_answer =
    let addr = answered t.resolver t.addrs r.addr_host in
    subst (IsAnswered addr r)
      (sym (
        run_first libc t (t' ∷ []) r (with_addr addr r)
          (process-resolved libc t r state ∙ resolved_lem t.resolver t.addrs r some_answer)))
      (run-with_addr libc t' addr r name)
run-IsAnswered libc (x ∷ waits) t t' r state name (silent, w) some_answer =
    let eq : process libc x r ≡ (r, pending) =
      process-resolved libc x r state ∙ ap (λ o. resolved o x.addrs r) silent ∙ still x.addrs r in
    subst (IsAnswered (answered t.resolver t.addrs r.addr_host) r)
      (sym (run_first libc x (waits ++ (t ∷ t' ∷ [])) r r eq))
      (run-IsAnswered libc waits t t' r state name w some_answer)
