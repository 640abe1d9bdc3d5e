-- ===== src/FileExecuting/Tests.antt =====
-- Runs of FileExecuting.cpp on small inputs.
use processing_common.Common.{
  ℕ, zero, suc, ◌+◌, ◌<◌, ◌≡◌, ◌↔◌, refl, arith, Bool, true, false, not, ◌==◌, List, [], ◌∷◌, none,
  some,
}
use processing_common.FileExecuting.Arguments.{
  Heap, in_use, without, free, elements_free, ptr_list_free, elements_copy, list_made,
  vec_const_char_to_char_list,
}
use processing_common.FileExecuting.Arguments.Copies.{
  IsCopied, vec_const_char_to_char_list-IsCopied,
}
use processing_common.FileExecuting.{
  Received, received, Reply, bytes, again, wrote, new_node, Node, Exec, new_exec, child_supervise,
}
use processing_common.FileExecuting.Auto.{SourceOs, auto_sink, sink_burst}
use processing_common.FileExecuting.Auto.Sources.{IsFed, feed, feed-IsFed}
use processing_common.FileExecuting.Auto.Sinks.{IsSpread, until_stop, auto_sink-IsSpread}
use processing_common.FileExecuting.Child.{ChildOs, exited, process}
use processing_common.FileExecuting.Child.Ends.{IsEnded, process-IsEnded}
use processing_common.FileExecuting.Config.{
  Container, new_container, Call, cmd_add, sink_add_string, source_set_string, configure_all,
}
use processing_common.FileExecuting.Config.Links.{IsChain, wanted_all, configure_all-IsChain}
use processing_common.FileExecuting.Results.{bool_ret}
use processing_common.FileExecuting.Results.Chains.{bool_ret_iff}

abbrev text : List ℕ
text = b'h' ∷ b'i' ∷ b'!' ∷ []

abbrev feeder : Exec
feeder = record (new_exec 1) {
  send_ready = true;
  node_in = record new_node {
    sources = record { src = text; processed = 0 } ∷ [];
    auto_enabled = true;
    fd_write = some 4;
  };
}

abbrev halves : ℕ → SourceOs
halves t = record { reads = λ i n. again; writes = λ i k. wrote 2 }

abbrev silent : ℕ → ℕ → ℕ → Received
silent t i n = received []

feed-IsFed_example : IsFed [] text (feed 1 halves silent 0 feeder)
feed-IsFed_example =
    feed-IsFed 1 halves silent 0 [] text 0 feeder
      (record {
        buffer = refl;
        sent = refl;
        more = omega arith;
        enabled = refl;
        going = refl;
        ready = refl;
        fd = 4;
        fd_open = refl;
      })
      (λ t k. (1, refl)) (omega arith)

abbrev replies : ℕ → Reply
replies zero = bytes text
replies (suc i) = again

abbrev sink : Node
sink = record new_node {
  fd_read = some 5;
  strings = [] ∷ [];
  transfers = record { id = 2; sent = []; is_done = false } ∷ [];
  auto_enabled = true;
}

abbrev reader : Exec
reader = record (new_exec 1) { read_ready = true; node_out = sink }

auto_sink-IsSpread_example :
    IsSpread sink (auto_sink reader sink replies).1 (until_stop sink_burst replies 0)
auto_sink-IsSpread_example =
    auto_sink-IsSpread reader sink replies refl refl
      (record { fd = 5; ready = refl; fd_open = refl; no_dests = refl })

abbrev child : Exec
child = record (new_exec 1) { state = child_supervise; read_ready = true }

abbrev os : ChildOs
os = record {
  pipe_in = none;
  pipe_out = none;
  pipe_err = none;
  null_out = none;
  null_err = none;
  lists_made = true;
  forked = none;
  non_blocking = true;
  transfer_ready = λ id. true;
  source = halves 0;
  source_reads = silent 0;
  out_reads = replies;
  err_reads = replies;
  wait = exited 3;
}

process-IsEnded_example : (child.state ≡ child_supervise) × IsEnded (process child os).0
unfolding process
process-IsEnded_example = process-IsEnded child os refl

abbrev calls : List Call
calls =
    source_set_string (some text)
    ∷ cmd_add (text ∷ text ∷ []) (some 1)
    ∷ cmd_add (text ∷ []) (some 2)
    ∷ sink_add_string (some []) true
    ∷ []

configure_all-IsChain_example : IsChain (wanted_all calls) (configure_all [] calls new_container)
configure_all-IsChain_example = configure_all-IsChain [] calls

abbrev runner : ℕ → Exec
runner id = record (new_exec id) {
  result = record (new_exec id).result { id_child = some (100 + id) };
}

abbrev chain : Container
chain = record new_container {
  internals = runner 1 ∷ new_exec 2 ∷ runner 3 ∷ [];
  config_closed = true;
}

bool_ret_iff_example :
    (bool_ret chain none 1 false ≡ false)
    ↔ ((idx : ℕ) → idx < 3 → bool_ret chain (some idx) 1 false ≡ false)
bool_ret_iff_example = bool_ret_iff chain 1 false refl

abbrev clean_heap : Heap
clean_heap = record { next = 0; blocks = []; fault = false }

-- All allocations but the third.
abbrev two_only : ℕ → Bool
two_only i = not (i == 2)

abbrev two_args : List (List ℕ)
two_args = (b'l' ∷ b's' ∷ []) ∷ (b'-' ∷ b'l' ∷ []) ∷ []

args_rolled_back :
    vec_const_char_to_char_list two_only two_args clean_heap
    ≡ (record clean_heap { next = 3 }, none)
unfolding vec_const_char_to_char_list elements_copy list_made ptr_list_free elements_free free
    in_use without
args_rolled_back = refl

vec_const_char_to_char_list-IsCopied_example :
    IsCopied two_args (λ i. 0) (vec_const_char_to_char_list (λ i. true) two_args clean_heap)
vec_const_char_to_char_list-IsCopied_example =
    vec_const_char_to_char_list-IsCopied (λ i. true) two_args clean_heap refl (omega arith)
