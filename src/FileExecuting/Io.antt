-- ===== src/FileExecuting/Io.antt =====
-- FileExecuting.cpp: `intSend`, `send`, `intSinkRead` and `sinkRead` of an object that runs a child.
use processing_common.Common.{
  ℕ, zero, suc, ◌+◌, Bool, true, false, not, ◌==◌, if◌then◌else◌, u32, List, [], ◌∷◌, ◌++◌, none,
  some, length, take, drop,
}
use processing_common.FileExecuting.{
  Ssize, count, err, Received, received, read_err, Reply, bytes, again, failed, Written, wrote,
  write_failed, Node, Exec,
}

-- The loop of `intSend` over the data that are left: the bytes that write() takes, and whether it
-- fails. `os k` answers the k-th call. Each round but the last takes a byte or more.
unfoldable pub write_loop : ℕ → (ℕ → Written) → ℕ → List ℕ → List ℕ × Bool
write_loop zero os k left = ([], false)
write_loop (suc fuel) os k [] = ([], false)
write_loop (suc fuel) os k (b ∷ left) = elim (os k) [
  | write_failed ↦ ([], true)
  | wrote zero ↦ ([], false)
  | wrote (suc n) ↦
      let rest = write_loop fuel os (k + 1) (drop n left) in (b ∷ (take n left ++ rest.0), rest.1)
]

unfoldable pub int_send : Exec → List ℕ → (ℕ → Written) → Exec × Ssize
int_send e str os =
    let r = write_loop (length str) os 0 str in
    let taken = record e { piped = e.piped ++ r.0 } in
    if length str == 0
    then (e, err 1)
    else if not e.send_ready
    then (e, err 1)
    else elim e.node_in.fd_write [
      | none ↦ (e, err 1)
      | some fd ↦
          if r.1
          then (record taken { node_in = record e.node_in { fd_write = none } }, err 1)
          else (record taken { bytes_sent = u32 (e.bytes_sent + length r.0) }, count (length r.0))
    ]

unfoldable pub send : Exec → List ℕ → (ℕ → Written) → Exec × Ssize
send e str os =
    if e.node_in.auto_enabled
    then (e, err 1)
    else if not e.node_in.manual_enabled
    then (e, err 1)
    else int_send e str os

-- The branches of `intSinkRead` behind read(), by its answer.
unfoldable pub replied : Exec → Node → Reply → Exec × Node × Received
replied e node failed = (e, record node { fd_read = none }, read_err 3)
replied e node again =
    if e.result.child_terminated
    then (e, record node { fd_read = none }, read_err 4)
    else (e, node, received [])
replied e node (bytes []) = (e, record node { fd_read = none }, read_err 4)
replied e node (bytes (b ∷ str)) =
    (record e { bytes_read = u32 (e.bytes_read + length (b ∷ str)) }, node, received (b ∷ str))

unfoldable pub int_sink_read : Exec → Node → ℕ → Reply → Exec × Node × Received
int_sink_read e node len_req reply =
    if len_req == 0
    then (e, node, read_err 1)
    else if not e.read_ready
    then (e, node, received [])
    else elim node.fd_read [ none ↦ (e, node, read_err 2) | some fd ↦ replied e node reply ]

-- sinkRead of one of the two nodes, `is_out` for STDOUT_FILENO
unfoldable pub sink_read : Exec → Bool → ℕ → Reply → Exec × Received
sink_read e is_out len_req reply =
    let node = if is_out then e.node_out else e.node_err in
    let r = int_sink_read e node len_req reply in
    if node.auto_enabled
    then (e, read_err 1)
    else if not node.manual_enabled
    then (e, read_err 1)
    else if is_out
    then (record r.0 { node_out = r.1 }, r.2)
    else (record r.0 { node_err = r.1 }, r.2)
