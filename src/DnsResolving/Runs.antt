-- ===== src/DnsResolving/Runs.antt =====
-- What a resolution ends with.
use processing_common.Common.{
  ℕ, ◌<◌, ◌≤◌, ◌≡◌, ◌∙◌, refl, sym, ap, subst, arith, true, false, ltb, ◌==◌, List, [], ◌∷◌, ◌++◌,
  append_assoc, append-nil, none, some, length,
}
use processing_common.DnsResolving.{
  pending, positive, negative, Success, global_init, ares_start, ares_done_wait, DnsResolving,
  new_resolving, hostname_set, AddrNode, inet, inet6, other_family, found, Ares, nodes_add,
  ares_request_done, answered, ares_begin, ares_process, waited, begun, process_in, process, next,
  run,
}

-- The addresses of one family, in the order of the nodes.
pub ipv4_of : List AddrNode → List (List ℕ)
ipv4_of [] = []
ipv4_of (inet addr ∷ nodes) = addr ∷ ipv4_of nodes
ipv4_of (inet6 addr ∷ nodes) = ipv4_of nodes
ipv4_of (other_family ∷ nodes) = ipv4_of nodes

pub ipv6_of : List AddrNode → List (List ℕ)
ipv6_of [] = []
ipv6_of (inet addr ∷ nodes) = ipv6_of nodes
ipv6_of (inet6 addr ∷ nodes) = addr ∷ ipv6_of nodes
ipv6_of (other_family ∷ nodes) = ipv6_of nodes

nodes_add_lem :
    (nodes : List AddrNode) (d : DnsResolving)
    → nodes_add nodes d
      ≡ record d { ipv4 = d.ipv4 ++ ipv4_of nodes; ipv6 = d.ipv6 ++ ipv6_of nodes }
unfolding nodes_add ipv4_of ipv6_of
nodes_add_lem [] d = simp (append-nil d.ipv4, append-nil d.ipv6)
nodes_add_lem (inet addr ∷ nodes) d =
    nodes_add_lem nodes (record d { ipv4 = d.ipv4 ++ (addr ∷ []) })
    ∙ ap (λ l. record d { ipv4 = l; ipv6 = d.ipv6 ++ ipv6_of nodes })
        (append_assoc d.ipv4 (addr ∷ []) (ipv4_of nodes))
nodes_add_lem (inet6 addr ∷ nodes) d =
    nodes_add_lem nodes (record d { ipv6 = d.ipv6 ++ (addr ∷ []) })
    ∙ ap (λ l. record d { ipv4 = d.ipv4 ++ ipv4_of nodes; ipv6 = l })
        (append_assoc d.ipv6 (addr ∷ []) (ipv6_of nodes))
nodes_add_lem (other_family ∷ nodes) d = nodes_add_lem nodes d

-- A call of the library that can be served.
pub record IsServed (a : Ares) : Type 0 where
  pub some_fds : 0 < a.fds
  pub few_fds : a.fds ≤ 1000
  pub selected : a.selected ≡ true

abbrev pub AreWaits : List Ares → Type 0
AreWaits [] = Unit {0}
AreWaits (a ∷ more) = IsServed a × (a.at_process ≡ none) × AreWaits more

-- An object that waits for the library.
record IsWaiting (d : DnsResolving) : Type 0 where
  state : d.state ≡ ares_done_wait
  channel : d.channel_init_done ≡ true
  going : d.done_ares ≡ pending

ares_process_served :
    (a : Ares) (d : DnsResolving)
    → IsServed a
    → d.channel_init_done ≡ true
    → ares_process a d ≡ answered a.at_process d
unfolding ares_process
ares_process_served a d s channel =
    let more : (a.fds == 0) ≡ false = let h = s.some_fds in ground arith in
    let few : ltb 1000 a.fds ≡ false = let h = s.few_fds in ground arith in
    simp (channel, more, few, s.selected)

process_wait :
    (a : Ares) (d : DnsResolving)
    → d.state ≡ ares_done_wait
    → process a d ≡ (let d' = ares_process a d in waited d'.done_ares d')
unfolding process process_in
process_wait a d state = simp state

process_waits :
    (a : Ares) (d : DnsResolving)
    → IsWaiting d
    → IsServed a
    → a.at_process ≡ none
    → process a d ≡ (d, pending)
unfolding answered waited
process_waits a d w s silent =
    process_wait a d w.state
    ∙ ap (λ d'. waited d'.done_ares d')
        (ares_process_served a d s w.channel ∙ ap (λ o. answered o d) silent)
    ∙ ap (λ r. waited r d) w.going

run_waits :
    (waits more : List Ares) (d : DnsResolving)
    → IsWaiting d
    → AreWaits waits
    → run (waits ++ more) d ≡ run more d
unfolding run next
run_waits [] more d w a = refl
run_waits (x ∷ waits) more d w (s, silent, later) =
    ap (λ r. next r (run (waits ++ more))) (process_waits x d w s silent)
    ∙ run_waits waits more d w later

process_found :
    (a : Ares) (nodes : List AddrNode) (d : DnsResolving)
    → IsWaiting d
    → IsServed a
    → a.at_process ≡ some (found nodes)
    → process a d
      ≡ (record (nodes_add nodes d) { done_ares = positive; channel_init_done = false }, positive)
unfolding answered ares_request_done waited
process_found a nodes d w s ok =
    process_wait a d w.state
    ∙ ap (λ d'. waited d'.done_ares d')
        (ares_process_served a d s w.channel ∙ ap (λ o. answered o d) ok)

-- What is left behind a resolution that has succeeded.
pub record IsResolved (nodes : List AddrNode) (r : DnsResolving × Success) : Type 0 where
  pub success : r.1 ≡ positive
  pub all_ipv4 : r.0.ipv4 ≡ ipv4_of nodes
  pub all_ipv6 : r.0.ipv6 ≡ ipv6_of nodes
  pub channel_freed : r.0.channel_init_done ≡ false

abbrev begun_state : DnsResolving → DnsResolving
begun_state d = record d { channel_init_done = true; state = ares_done_wait }

abbrev at_ares : List ℕ → DnsResolving
at_ares hostname = record (hostname_set hostname new_resolving) { state = ares_start }

process_named :
    (a : Ares) (hostname : List ℕ)
    → 0 < length hostname
    → process a (hostname_set hostname new_resolving)
      ≡ (record (hostname_set hostname new_resolving) { state = global_init }, pending)
unfolding process process_in
process_named a hostname some_name =
    let named : (length hostname == 0) ≡ false = ground arith in simp named

ares_begin_set :
    (a : Ares) (d : DnsResolving)
    → a.options_set ≡ true
    → ares_begin a d ≡ (record (answered a.at_start d) { channel_init_done = true }, true)
unfolding ares_begin
ares_begin_set a d set = simp set

run_starts :
    (a b c : Ares) (more : List Ares) (hostname : List ℕ)
    → 0 < length hostname
    → c.options_set ≡ true
    → run (a ∷ b ∷ c ∷ more) (hostname_set hostname new_resolving)
      ≡ run more (begun_state (answered c.at_start (at_ares hostname)))
unfolding run next process process_in begun
run_starts a b c more hostname some_name set =
    ap (λ r. next r (run (b ∷ c ∷ more))) (process_named a hostname some_name)
    ∙ ap (λ r. next (begun r) (run more)) (ares_begin_set c (at_ares hostname) set)

run_found :
    (a : Ares) (more : List Ares) (nodes : List AddrNode) (d : DnsResolving)
    → IsWaiting d
    → IsServed a
    → a.at_process ≡ some (found nodes)
    → run (a ∷ more) d
      ≡ (record (nodes_add nodes d) { done_ares = positive; channel_init_done = false }, positive)
unfolding run next
run_found a more nodes d w s ok = ap (λ r. next r (run more)) (process_found a nodes d w s ok)

resolved_lem :
    (nodes : List AddrNode) (d : DnsResolving)
    → d.ipv4 ≡ []
    → d.ipv6 ≡ []
    → IsResolved nodes
        (record (nodes_add nodes d) { done_ares = positive; channel_init_done = false }, positive)
resolved_lem nodes d no4 no6 = record {
  success = refl;
  all_ipv4 =
      ap (λ (x : DnsResolving). x.ipv4) (nodes_add_lem nodes d) ∙ ap (λ l. l ++ ipv4_of nodes) no4;
  all_ipv6 =
      ap (λ (x : DnsResolving). x.ipv6) (nodes_add_lem nodes d) ∙ ap (λ l. l ++ ipv6_of nodes) no6;
  channel_freed = refl;
}

-- With a host name and a library that can be set up and served, `process` is pending up to the call
-- in which the answer comes and then succeeds: the addresses of each family are those of the answer
-- in their order, and the channel is freed.
pub run-IsResolved :
    (a b c last : Ares) (waits more : List Ares) (hostname : List ℕ) (nodes : List AddrNode)
    → 0 < length hostname
    → c.options_set ≡ true
    → c.at_start ≡ none
    → AreWaits waits
    → IsServed last
    → last.at_process ≡ some (found nodes)
    → IsResolved nodes
        (run (a ∷ b ∷ c ∷ (waits ++ (last ∷ more))) (hostname_set hostname new_resolving))
unfolding answered
run-IsResolved a b c last waits more hostname nodes some_name set silent w s ok =
    let d = begun_state (at_ares hostname) in
    let waiting : IsWaiting d = record { state = refl; channel = refl; going = refl } in
    let eq =
      run_starts a b c (waits ++ (last ∷ more)) hostname some_name set
      ∙ ap (λ o. run (waits ++ (last ∷ more)) (begun_state (answered o (at_ares hostname)))) silent
      ∙ run_waits waits (last ∷ more) d waiting w
      ∙ run_found last more nodes d waiting s ok in
    subst (IsResolved nodes) (sym eq) (resolved_lem nodes d refl refl)

process_no_fds :
    (a : Ares) (d : DnsResolving)
    → d.state ≡ ares_done_wait
    → d.channel_init_done ≡ true
    → a.fds ≡ 0
    → process a d ≡ (record d { done_ares = negative }, negative)
unfolding ares_process waited
process_no_fds a d state channel no_fds =
    let none_left : (a.fds == 0) ≡ true = ground arith in
    let eq : ares_process a d ≡ record d { done_ares = negative } = simp (channel, none_left) in
    process_wait a d state ∙ ap (λ d'. waited d'.done_ares d') eq

-- Where the answer comes within the start of the request and the library has no descriptors left
-- then, `process` fails, although the addresses are there.
pub run_numeric :
    (a b c last : Ares) (more : List Ares) (hostname : List ℕ) (nodes : List AddrNode)
    → 0 < length hostname
    → c.options_set ≡ true
    → c.at_start ≡ some (found nodes)
    → last.fds ≡ 0
    → let r = run (a ∷ b ∷ c ∷ last ∷ more) (hostname_set hostname new_resolving) in
      (r.1 ≡ negative) × (r.0.ipv4 ≡ ipv4_of nodes) × (r.0.ipv6 ≡ ipv6_of nodes)
unfolding answered ares_request_done run next
run_numeric a b c last more hostname nodes some_name set ok no_fds =
    let d = begun_state (record (nodes_add nodes (at_ares hostname)) { done_ares = positive }) in
    let eq =
      run_starts a b c (last ∷ more) hostname some_name set
      ∙ ap (λ o. run (last ∷ more) (begun_state (answered o (at_ares hostname)))) ok
      ∙ ap (λ r. next r (run more)) (process_no_fds last d refl refl no_fds) in
    (
      ap (λ (r : DnsResolving × Success). r.1) eq,
      ap (λ (r : DnsResolving × Success). r.0.ipv4) eq
          ∙ ap (λ (x : DnsResolving). x.ipv4) (nodes_add_lem nodes (at_ares hostname)),
      ap (λ (r : DnsResolving × Success). r.0.ipv6) eq
          ∙ ap (λ (x : DnsResolving). x.ipv6) (nodes_add_lem nodes (at_ares hostname)),
    )
