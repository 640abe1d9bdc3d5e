-- ===== src/FileExecuting/Child.antt =====
-- FileExecuting.cpp: `process`, `shutdown`, `childStateRecord` and `sinksReady` of an object that
-- runs a child. The code that the forked child itself runs up to execvpe() is not a part of it.
pub mod Ends
use processing_common.Common.{
  ℕ, zero, suc, Bool, true, false, not, ◌&&◌, ◌||◌, if◌then◌else◌, List, [], ◌∷◌, Option, none,
  some,
}
use processing_common.FileExecuting.{
  Received, Reply, Transfer, Node, FeResult, ExecState, start, internal_start, pipes_create, fork,
  parent_start, sinks_ready_wait, child_supervise, sd_start, sd_internals, sd_pipes_close, Exec,
}
use processing_common.FileExecuting.Auto.{SourceOs, auto_source_done, auto_source, auto_sink}

pub data Success : Type 0 where
  pending positive negative : Success

-- What waitpid() answers: 0 or EAGAIN is `unchanged`.
pub data Wait : Type 0 where
  wait_failed unchanged continued unknown : Wait
  exited signaled stopped : ℕ → Wait

-- The record of a change of the child, and whether it is a known one.
unfoldable pub changed : FeResult → Wait → FeResult × Success
changed r wait_failed = (r, negative)
changed r unchanged = (r, pending)
changed r unknown = (r, negative)
changed r (exited code) = (
  record r {
    id_child = none;
    child_terminated = true;
    child_terminated_by_sig = false;
    code_ret = code;
  },
  positive,
)
changed r (signaled sig) = (
  record r {
    id_child = none;
    child_terminated = true;
    child_terminated_by_sig = true;
    code_sig = sig;
  },
  positive,
)
changed r (stopped sig) = (record r { child_stopped = true; code_sig = sig }, positive)
changed r continued = (record r { child_stopped = false; code_sig = 0 }, positive)

unfoldable pub child_state_record : Exec → Wait → Exec × Success
unfolding changed
child_state_record e w =
    let r = changed e.result w in
    if e.result.child_terminated then (e, pending) else (record e { result = r.0 }, r.1)

-- `ready id` is mSendReady of a transfer.
unfoldable pub sinks_ready : (ℕ → Bool) → List Transfer → Bool
sinks_ready ready [] = true
sinks_ready ready (t ∷ ts) = ready t.id && sinks_ready ready ts

-- What the operating system answers during one call of `process`: a pipe is its read and write
-- end, /dev/null its write end.
pub record ChildOs : Type 0 where
  pub pipe_in : Option (ℕ × ℕ)
  pub pipe_out : Option (ℕ × ℕ)
  pub pipe_err : Option (ℕ × ℕ)
  pub null_out : Option ℕ
  pub null_err : Option ℕ
  pub lists_made : Bool
  pub forked : Option ℕ
  pub non_blocking : Bool
  pub transfer_ready : ℕ → Bool
  pub source : SourceOs
  pub source_reads : ℕ → ℕ → Received
  pub out_reads : ℕ → Reply
  pub err_reads : ℕ → Reply
  pub wait : Wait

-- A descriptor that is not -1.
unfoldable pub is_open : Option ℕ → Bool
is_open none = false
is_open (some fd) = true

unfoldable pub pipe_used : Node → Bool
pipe_used node = node.manual_enabled || node.auto_enabled

abbrev pub both_ends : Node → Option (ℕ × ℕ) → Option Node
both_ends node none = none
both_ends node (some (r, w)) = some (record node { fd_read = some r; fd_write = some w })

abbrev write_end : Node → Option ℕ → Option Node
write_end node none = none
write_end node (some w) = some (record node { fd_write = some w })

-- An output of the child: a pipe if it is used, /dev/null otherwise.
unfoldable pub output_open : Node → Option (ℕ × ℕ) → Option ℕ → Option Node
unfolding pipe_used
output_open node pipe null = if pipe_used node then both_ends node pipe else write_end node null

unfoldable pub pipes_created : Exec → Option Node → Option Node → Option Node → Exec × Success
pipes_created e none out err = (e, negative)
pipes_created e (some i) none err = (record e { node_in = i }, negative)
pipes_created e (some i) (some out) none = (record e { node_in = i; node_out = out }, negative)
pipes_created e (some i) (some out) (some err) =
    (record e { node_in = i; node_out = out; node_err = err; state = fork }, pending)

unfoldable pub forked_as : Exec → Bool → Option ℕ → Exec × Success
forked_as e false child = (e, negative)
forked_as e true none = (e, negative)
forked_as e true (some id) =
    (record e { result = record e.result { id_child = some id }; state = parent_start }, pending)

-- The parent closes its copies of the ends that the child writes to, and the source if it is not used.
unfoldable pub parent_close : Exec → Exec
unfolding pipe_used
parent_close e = record e {
  node_in = if pipe_used e.node_in then e.node_in else record e.node_in { fd_write = none };
  node_out = record e.node_out { fd_write = none };
  node_err = record e.node_err { fd_write = none };
}

unfoldable pub blocking_fails : Exec → Bool → Bool
blocking_fails e non_blocking =
    not non_blocking
    && (is_open e.node_in.fd_write || is_open e.node_out.fd_read || is_open e.node_err.fd_read)

-- doneSet() of the container is acknowledged.
unfoldable pub done_taken : Exec → Exec
unfolding auto_source_done
done_taken e =
    if e.done && not e.done_ack then record (auto_source_done e) { done_ack = true } else e

-- The data moved in one call.
unfoldable pub moved : Exec → ChildOs → Exec
unfolding done_taken auto_source auto_sink
moved e os =
    let e₁ = auto_source (done_taken e) os.source os.source_reads in
    let out = auto_sink e₁ e₁.node_out os.out_reads in
    let e₂ = record out.0 { node_out = out.1 } in
    let err = auto_sink e₂ e₂.node_err os.err_reads in record err.0 { node_err = err.1 }

-- The result of a call with the child under supervision.
unfoldable pub ended : Exec → Bool
unfolding is_open
ended e =
    e.result.child_terminated
    && not (is_open e.node_out.fd_read)
    && not (is_open e.node_err.fd_read)

unfoldable pub supervised : Exec × Success → Exec × Success
unfolding ended
supervised (e, negative) = (e, negative)
supervised (e, pending) = (e, if ended e then positive else pending)
supervised (e, positive) = (e, if ended e then positive else pending)

unfoldable pub process_in : ExecState → Exec → ChildOs → Exec × Success
unfolding pipes_created output_open forked_as parent_close blocking_fails sinks_ready moved
    child_state_record supervised
process_in start e os = (record e { state = internal_start }, pending)
process_in internal_start e os = (record e { state = pipes_create }, pending)
process_in pipes_create e os =
    pipes_created e (both_ends e.node_in os.pipe_in)
      (output_open e.node_out os.pipe_out os.null_out)
      (output_open e.node_err os.pipe_err os.null_err)
process_in fork e os = forked_as e os.lists_made os.forked
process_in parent_start e os =
    if blocking_fails (parent_close e) os.non_blocking then (parent_close e, negative) else (
      record (parent_close e) { send_ready = true; read_ready = true; state = sinks_ready_wait },
      pending,
    )
process_in sinks_ready_wait e os =
    if sinks_ready os.transfer_ready e.node_out.transfers
      && sinks_ready os.transfer_ready e.node_err.transfers
    then (record e { state = child_supervise }, pending)
    else (e, pending)
process_in child_supervise e os = supervised (child_state_record (moved e os) os.wait)
process_in sd_start e os = (e, pending)
process_in sd_internals e os = (e, pending)
process_in sd_pipes_close e os = (e, pending)

unfoldable pub process : Exec → ChildOs → Exec × Success
unfolding process_in
process e os = process_in e.state e os

-- pipeClose
abbrev pub pipe_close : Node → Node
pipe_close node = record node { fd_read = none; fd_write = none }

unfoldable pub shutdown_in : ExecState → Exec → Exec × Success
shutdown_in sd_start e = (record e { state = sd_internals }, pending)
shutdown_in sd_internals e = (record e { state = sd_pipes_close }, pending)
shutdown_in sd_pipes_close e = (
  record e {
    node_in = pipe_close e.node_in;
    node_out = pipe_close e.node_out;
    node_err = pipe_close e.node_err;
  },
  positive,
)
shutdown_in start e = (record e { state = sd_start }, pending)
shutdown_in internal_start e = (record e { state = sd_start }, pending)
shutdown_in pipes_create e = (record e { state = sd_start }, pending)
shutdown_in fork e = (record e { state = sd_start }, pending)
shutdown_in parent_start e = (record e { state = sd_start }, pending)
shutdown_in sinks_ready_wait e = (record e { state = sd_start }, pending)
shutdown_in child_supervise e = (record e { state = sd_start }, pending)

unfoldable pub shutdown : Exec → Exec × Success
unfolding shutdown_in
shutdown e = shutdown_in e.state e

-- The calls of `shutdown` up to the first that is not pending, `rounds` of them at most.
unfoldable pub shutdown_next : Exec × Success → (Exec → Exec × Success) → Exec × Success
shutdown_next (e, pending) next = next e
shutdown_next (e, positive) next = (e, positive)
shutdown_next (e, negative) next = (e, negative)

unfoldable pub shutdown_all : ℕ → Exec → Exec × Success
unfolding shutdown shutdown_next
shutdown_all zero e = (e, pending)
shutdown_all (suc rounds) e = shutdown_next (shutdown e) (shutdown_all rounds)
