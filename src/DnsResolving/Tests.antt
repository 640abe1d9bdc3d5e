-- ===== src/DnsResolving/Tests.antt =====
-- Runs of DnsResolving.cpp on small inputs.
use processing_common.Common.{ℕ, refl, arith, true, List, [], ◌∷◌, ◌++◌, Option, none, some}
use processing_common.DnsResolving.{
  new_resolving, hostname_set, AddrNode, inet, inet6, Answer, found, Ares, run,
}
use processing_common.DnsResolving.Runs.{IsResolved, run-IsResolved}

abbrev host : List ℕ
host = b'a' ∷ []

abbrev nodes : List AddrNode
nodes = inet (b'1' ∷ []) ∷ inet6 (b':' ∷ []) ∷ []

abbrev served : Option Answer → Option Answer → ℕ → Ares
served at_start at_process fds = record {
  options_set = true;
  at_start = at_start;
  fds = fds;
  selected = true;
  at_process = at_process;
}

abbrev idle : Ares
idle = served none none 4

abbrev last : Ares
last = served none (some (found nodes)) 4

run-IsResolved_example :
    IsResolved nodes
      (run (idle ∷ idle ∷ idle ∷ ((idle ∷ []) ++ (last ∷ []))) (hostname_set host new_resolving))
run-IsResolved_example =
    run-IsResolved idle idle idle last (idle ∷ []) [] host nodes (omega arith) refl refl
      (record { some_fds = omega arith; few_fds = omega arith; selected = refl }, refl, tt)
      (record { some_fds = omega arith; few_fds = omega arith; selected = refl }) refl
