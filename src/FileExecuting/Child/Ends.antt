-- ===== src/FileExecuting/Child/Ends.antt =====
-- How the supervision of a child ends, and how its resources are given back.
use processing_common.Common.{
  ℕ, ◌≡◌, refl, ◌≢◌, Bool, true, false, not, ◌&&◌, if◌then◌else◌, Option, none, some,
}
use processing_common.FileExecuting.{
  Node, ExecState, start, internal_start, pipes_create, fork, parent_start, sinks_ready_wait,
  child_supervise, sd_start, sd_internals, sd_pipes_close, Exec,
}
use processing_common.FileExecuting.Child.{
  Success, pending, positive, negative, ChildOs, is_open, ended, supervised, process_in, process,
  shutdown, shutdown_in, shutdown_next, shutdown_all, pipe_close, child_state_record, moved,
  pipes_created, forked_as, both_ends, output_open, blocking_fails, parent_close, sinks_ready,
}

-- The child is gone, and all that it has written has been read.
pub record IsEnded (e : Exec) : Type 0 where
  pub terminated : e.result.child_terminated ≡ true
  pub out_closed : e.node_out.fd_read ≡ none
  pub err_closed : e.node_err.fd_read ≡ none

closed_lem : (fd : Option ℕ) → is_open fd ≡ false → fd ≡ none
unfolding is_open
closed_lem none h = refl
closed_lem (some fd) h = absurd cc

both_lem : (a b : Bool) → a && b ≡ true → (a ≡ true) × (b ≡ true)
both_lem true true h = (refl, refl)
both_lem true false h = absurd cc
both_lem false b h = absurd cc

not_lem : (a : Bool) → not a ≡ true → a ≡ false
not_lem false h = refl
not_lem true h = absurd cc

ended_lem : (e : Exec) → ended e ≡ true → IsEnded e
unfolding ended
ended_lem e h =
    let (before, err) =
      both_lem (e.result.child_terminated && not (is_open e.node_out.fd_read))
        (not (is_open e.node_err.fd_read)) h in
    let (gone, out) =
      both_lem e.result.child_terminated (not (is_open e.node_out.fd_read)) before in
    record {
      terminated = gone;
      out_closed = closed_lem e.node_out.fd_read (not_lem (is_open e.node_out.fd_read) out);
      err_closed = closed_lem e.node_err.fd_read (not_lem (is_open e.node_err.fd_read) err);
    }

choice_lem : (b : Bool) → (if b then positive else pending) ≡ positive → b ≡ true
choice_lem true h = refl
choice_lem false h = absurd cc

supervised_lem : (r : Exec × Success) → (supervised r).1 ≡ positive → IsEnded (supervised r).0
unfolding supervised
supervised_lem (e, negative) h = absurd cc
supervised_lem (e, pending) h = ended_lem e (choice_lem (ended e) h)
supervised_lem (e, positive) h = ended_lem e (choice_lem (ended e) h)

not_created : (e : Exec) (i out err : Option Node) → (pipes_created e i out err).1 ≢ positive
unfolding pipes_created
not_created e none out err h = absurd cc
not_created e (some i) none err h = absurd cc
not_created e (some i) (some out) none h = absurd cc
not_created e (some i) (some out) (some err) h = absurd cc

not_forked : (e : Exec) (made : Bool) (id : Option ℕ) → (forked_as e made id).1 ≢ positive
unfolding forked_as
not_forked e false id h = absurd cc
not_forked e true none h = absurd cc
not_forked e true (some id) h = absurd cc

not_yet :
    (b : Bool) (e e' : Exec) (r r' : Success)
    → r ≢ positive
    → r' ≢ positive
    → (let x : Exec × Success = if b then (e, r) else (e', r') in x.1 ≢ positive)
not_yet true e e' r r' h h' = h
not_yet false e e' r r' h h' = h'

pub process_in-IsEnded :
    (state : ExecState) (e : Exec) (os : ChildOs)
    → (process_in state e os).1 ≡ positive
    → (state ≡ child_supervise) × IsEnded (process_in state e os).0
unfolding process_in
process_in-IsEnded child_supervise e os h =
    (refl, supervised_lem (child_state_record (moved e os) os.wait) h)
process_in-IsEnded start e os h = absurd cc
process_in-IsEnded internal_start e os h = absurd cc
process_in-IsEnded pipes_create e os h = absurd (
    not_created e (both_ends e.node_in os.pipe_in) (output_open e.node_out os.pipe_out os.null_out)
      (output_open e.node_err os.pipe_err os.null_err) h)
process_in-IsEnded fork e os h = absurd (not_forked e os.lists_made os.forked h)
process_in-IsEnded parent_start e os h = absurd (
    not_yet (blocking_fails (parent_close e) os.non_blocking) (parent_close e)
      (record (parent_close e) { send_ready = true; read_ready = true; state = sinks_ready_wait })
      negative pending (λ p. absurd cc) (λ p. absurd cc) h)
process_in-IsEnded sinks_ready_wait e os h = absurd (
    not_yet
      (sinks_ready os.transfer_ready e.node_out.transfers
        && sinks_ready os.transfer_ready e.node_err.transfers)
      (record e { state = child_supervise }) e pending pending (λ p. absurd cc) (λ p. absurd cc) h)
process_in-IsEnded sd_start e os h = absurd cc
process_in-IsEnded sd_internals e os h = absurd cc
process_in-IsEnded sd_pipes_close e os h = absurd cc

-- `process` of an object that runs a child succeeds only in its supervising state, with the child
-- terminated and both pipes that the child writes to closed.
pub process-IsEnded :
    (e : Exec) (os : ChildOs)
    → (process e os).1 ≡ positive
    → (e.state ≡ child_supervise) × IsEnded (process e os).0
unfolding process
process-IsEnded e os h = process_in-IsEnded e.state e os h

-- All six descriptors are given back.
pub record IsClosed (e : Exec) : Type 0 where
  pub in_read : e.node_in.fd_read ≡ none
  pub in_write : e.node_in.fd_write ≡ none
  pub out_read : e.node_out.fd_read ≡ none
  pub out_write : e.node_out.fd_write ≡ none
  pub err_read : e.node_err.fd_read ≡ none
  pub err_write : e.node_err.fd_write ≡ none

abbrev closed : Exec → Exec
closed e = record e {
  state = sd_pipes_close;
  node_in = pipe_close e.node_in;
  node_out = pipe_close e.node_out;
  node_err = pipe_close e.node_err;
}

shutdown_all_from :
    (state : ExecState) (e : Exec) → e.state ≡ state → shutdown_all 4 e ≡ (closed e, positive)
unfolding shutdown_all shutdown shutdown_in shutdown_next
shutdown_all_from start e h = rw h refl
shutdown_all_from internal_start e h = rw h refl
shutdown_all_from pipes_create e h = rw h refl
shutdown_all_from fork e h = rw h refl
shutdown_all_from parent_start e h = rw h refl
shutdown_all_from sinks_ready_wait e h = rw h refl
shutdown_all_from child_supervise e h = rw h refl
shutdown_all_from sd_start e h = rw h refl
shutdown_all_from sd_internals e h = rw h refl
shutdown_all_from sd_pipes_close e h = rw h refl

-- From every state, `shutdown` of an object that runs a child ends within four calls, with success
-- and all six descriptors closed.
pub shutdown_all-IsClosed :
    (e : Exec) → ((shutdown_all 4 e).1 ≡ positive) × IsClosed (shutdown_all 4 e).0
shutdown_all-IsClosed e = rw (shutdown_all_from e.state e refl) (
  refl,
  record {
    in_read = refl;
    in_write = refl;
    out_read = refl;
    out_write = refl;
    err_read = refl;
    err_write = refl;
  },
)
