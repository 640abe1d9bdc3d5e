-- ===== src/DnsResolving.antt =====
-- DnsResolving.cpp: the resolution of a host name with libc-ares. What the library answers is an
-- argument; it calls `aresRequestDone` within ares_getaddrinfo() or ares_process().
pub mod Runs
pub mod Tests
use processing_common.Common.{
  ℕ, zero, suc, Bool, true, false, not, ltb, ◌==◌, if◌then◌else◌, List, [], ◌∷◌, ◌++◌, Option, none,
  some, length,
}

pub data Success : Type 0 where
  pending positive negative : Success

pub data ProcState : Type 0 where
  start global_init ares_start ares_done_wait : ProcState

pub record DnsResolving : Type 0 where
  pub state : ProcState
  pub hostname : List ℕ
  pub ipv4 : List (List ℕ)
  pub ipv6 : List (List ℕ)
  pub channel_init_done : Bool
  pub done_ares : Success
  pub err_ares : List ℕ

abbrev pub new_resolving : DnsResolving
new_resolving = record {
  state = start;
  hostname = [];
  ipv4 = [];
  ipv6 = [];
  channel_init_done = false;
  done_ares = pending;
  err_ares = [];
}

abbrev pub hostname_set : List ℕ → DnsResolving → DnsResolving
hostname_set hostname d = record d { hostname = hostname }

-- A node of the result, its address as ares_inet_ntop() prints it.
pub data AddrNode : Type 0 where
  inet inet6 : List ℕ → AddrNode
  other_family : AddrNode

-- A call of `aresRequestDone`.
pub data Answer : Type 0 where
  found : List AddrNode → Answer
  not_found : List ℕ → Answer

unfoldable pub nodes_add : List AddrNode → DnsResolving → DnsResolving
nodes_add [] d = d
nodes_add (inet addr ∷ nodes) d = nodes_add nodes (record d { ipv4 = d.ipv4 ++ (addr ∷ []) })
nodes_add (inet6 addr ∷ nodes) d = nodes_add nodes (record d { ipv6 = d.ipv6 ++ (addr ∷ []) })
nodes_add (other_family ∷ nodes) d = nodes_add nodes d

unfoldable pub ares_request_done : Answer → DnsResolving → DnsResolving
unfolding nodes_add
ares_request_done (not_found msg) d = record d { err_ares = msg; done_ares = negative }
ares_request_done (found nodes) d = record (nodes_add nodes d) { done_ares = positive }

-- The answer that comes within a call of the library, if there is one.
unfoldable pub answered : Option Answer → DnsResolving → DnsResolving
unfolding ares_request_done
answered none d = d
answered (some a) d = ares_request_done a d

-- What the library and select() answer in one call of `process`.
pub record Ares : Type 0 where
  pub options_set : Bool
  pub at_start : Option Answer
  pub fds : ℕ
  pub selected : Bool
  pub at_process : Option Answer

unfoldable pub ares_begin : Ares → DnsResolving → DnsResolving × Bool
unfolding answered
ares_begin ares d =
    if not ares.options_set
    then (d, false)
    else (record (answered ares.at_start d) { channel_init_done = true }, true)

unfoldable pub ares_process : Ares → DnsResolving → DnsResolving
unfolding answered
ares_process ares d =
    if not d.channel_init_done
    then record d { done_ares = negative }
    else if ares.fds == 0
    then record d { done_ares = negative }
    else if ltb 1000 ares.fds
    then record d { done_ares = negative }
    else if not ares.selected
    then record d { done_ares = negative }
    else answered ares.at_process d

-- Behind aresProcess
unfoldable pub waited : Success → DnsResolving → DnsResolving × Success
waited pending d = (d, pending)
waited negative d = (d, negative)
waited positive d = (record d { channel_init_done = false }, positive)

unfoldable pub begun : DnsResolving × Bool → DnsResolving × Success
begun (d, false) = (d, negative)
begun (d, true) = (record d { state = ares_done_wait }, pending)

unfoldable pub process_in : ProcState → Ares → DnsResolving → DnsResolving × Success
unfolding ares_begin ares_process waited begun
process_in start ares d =
    if length d.hostname == 0 then (d, negative) else (record d { state = global_init }, pending)
process_in global_init ares d = (record d { state = ares_start }, pending)
process_in ares_start ares d = begun (ares_begin ares d)
process_in ares_done_wait ares d = let d' = ares_process ares d in waited d'.done_ares d'

unfoldable pub process : Ares → DnsResolving → DnsResolving × Success
unfolding process_in
process ares d = process_in d.state ares d

unfoldable pub shutdown : DnsResolving → DnsResolving × Success
shutdown d = (if d.channel_init_done then record d { channel_init_done = false } else d, positive)

unfoldable pub next :
    DnsResolving × Success → (DnsResolving → DnsResolving × Success) → DnsResolving × Success
next (d, pending) f = f d
next (d, positive) f = (d, positive)
next (d, negative) f = (d, negative)

-- The calls of `process`, up to the first that is not pending.
unfoldable pub run : List Ares → DnsResolving → DnsResolving × Success
unfolding process next
run [] d = (d, pending)
run (ares ∷ more) d = next (process ares d) (run more)
