-- ===== src/FileExecuting/Auto.antt =====
-- FileExecuting.cpp: `autoSource`, which feeds the child's standard input, and `autoSink`, which
-- spreads what the child writes.
pub mod Sources
pub mod Sinks
use processing_common.Common.{
  ℕ, zero, suc, ◌+◌, ◌-◌, Bool, true, false, not, ◌&&◌, ◌||◌, ltb, leb, ◌==◌, if◌then◌else◌, min,
  List, [], ◌∷◌, ◌++◌, map, Option, none, some, length, take, drop,
}
use processing_common.FileExecuting.{
  Ssize, count, err, Received, received, read_err, Reply, bytes, again, failed, Written, Source,
  Dest, FdSetting, Transfer, Node, Exec,
}
use processing_common.FileExecuting.Io.{int_send, int_sink_read}

unfoldable pub auto_source_done : Exec → Exec
auto_source_done e =
    if e.node_in.auto_done
    then e
    else record e { node_in = record e.node_in { fd_write = none; auto_done = true }; done = true }

-- What the operating system answers during a call of `autoSource`: to the i-th read, for a given
-- number of bytes, and to the k-th write of the i-th send.
pub record SourceOs : Type 0 where
  pub reads : ℕ → ℕ → Reply
  pub writes : ℕ → ℕ → Written

abbrev source_burst : ℕ
source_burst = 512

abbrev chunk : ℕ
chunk = 14

-- Behind the send of a part of the first buffer.
unfoldable pub buffer_sent : Source → List Source → Exec × Ssize → Exec
unfolding auto_source_done
buffer_sent buff rest (e, err code) = auto_source_done e
buffer_sent buff rest (e, count len_done) =
    let buff' = record buff { processed = buff.processed + len_done } in
    let e' = record e { node_in = record e.node_in { sources = buff' ∷ rest } } in
    if ltb buff'.processed (length buff.src) then e' else auto_source_done e'

-- The branch of the buffers, at the first of them.
unfoldable pub source_buffer : Exec → Source → List Source → SourceOs → Exec
unfolding buffer_sent
source_buffer e buff rest os = buffer_sent buff rest (
    int_send e
      (take (min source_burst (length buff.src - buff.processed)) (drop buff.processed buff.src))
      (os.writes 0))

-- Whether all of the data have been sent.
unfoldable pub is_whole : Ssize → List ℕ → Bool
is_whole (err code) str = false
is_whole (count n) str = n == length str

-- fdClose of the first descriptor, if it is to be closed.
abbrev pub close_auto : FdSetting → FdSetting
close_auto s = if s.auto_close then record s { fd = none } else s

abbrev close_first : List FdSetting → List FdSetting
close_first [] = []
close_first (s ∷ rest) = close_auto s ∷ rest

abbrev fd_done : Exec → Exec
fd_done e = record e { node_in = record e.node_in { fds = close_first e.node_in.fds } }

-- The loop of the branch of the descriptors; at most `left` bytes, which also bounds the rounds.
unfoldable pub fd_loop : ℕ → SourceOs → ℕ → ℕ → Exec → Exec
unfolding auto_source_done
fd_loop zero os i left e = e
fd_loop (suc fuel) os i left e = elim (os.reads i (min chunk left)) [
  | again ↦ if left == 0 then e else auto_source_done (fd_done e)
  | failed ↦ if left == 0 then e else auto_source_done (fd_done e)
  | bytes [] ↦ if left == 0 then e else auto_source_done (fd_done e)
  | bytes (b ∷ str) ↦
      let r = int_send e (b ∷ str) (os.writes i) in
      let next = fd_loop fuel os (i + 1) (left - length (b ∷ str)) r.0 in
      if left == 0 then e else if is_whole r.1 (b ∷ str) then next else auto_source_done r.0
]

-- The loop of the branch of the transfers: read() of the first of them answers.
unfoldable pub transfer_loop : ℕ → (ℕ → ℕ → Received) → (ℕ → ℕ → Written) → ℕ → ℕ → Exec → Exec
unfolding auto_source_done
transfer_loop zero reads writes i left e = e
transfer_loop (suc fuel) reads writes i left e = elim (reads i (min chunk left)) [
  | read_err code ↦ if left == 0 then e else auto_source_done e
  | received [] ↦ e
  | received (b ∷ str) ↦
      let r = int_send e (b ∷ str) (writes i) in
      let next = transfer_loop fuel reads writes (i + 1) (left - length (b ∷ str)) r.0 in
      if left == 0 then e else if is_whole r.1 (b ∷ str) then next else auto_source_done r.0
]

-- The choice among the three kinds of sources.
unfoldable pub source_from :
    List Source → List FdSetting → List Transfer → Exec → SourceOs → (ℕ → ℕ → Received) → Exec
source_from (buff ∷ rest) fds transfers e os reads = source_buffer e buff rest os
source_from [] (fd ∷ fds) transfers e os reads = fd_loop source_burst os 0 source_burst e
source_from [] [] (t ∷ transfers) e os reads =
    transfer_loop source_burst reads os.writes 0 source_burst e
source_from [] [] [] e os reads = e

unfoldable pub auto_source : Exec → SourceOs → (ℕ → ℕ → Received) → Exec
auto_source e os reads =
    if not e.node_in.auto_enabled
    then e
    else if e.node_in.auto_done
    then e
    else source_from e.node_in.sources e.node_in.fds e.node_in.transfers e os reads

-- The loop over the buffers: how they are filled, and whether one of them is not full yet, which
-- ends the call.
unfoldable pub fill : List Dest → List ℕ → List Dest × Bool
fill [] str = ([], false)
fill (d ∷ dests) str =
    let left = d.len - length d.filled in
    let d' = record d { filled = d.filled ++ take (min (length str) left) str } in
    let rest = fill dests str in
    if left == 0
    then (d ∷ rest.0, rest.1)
    else if ltb (length d'.filled) d.len
    then (d' ∷ dests, true)
    else (d' ∷ rest.0, rest.1)

-- The loops over the strings, descriptors and transfers.
abbrev pub append_all : List (List ℕ) → List ℕ → List (List ℕ)
append_all strs str = map (λ s. s ++ str) strs

abbrev pub write_fd : List ℕ → FdSetting → FdSetting
write_fd str s = record s { written = s.written ++ str }

abbrev pub send_to : List ℕ → Transfer → Transfer
send_to str t = record t { sent = t.sent ++ str }

-- What is handed over to write() and send(): how much of it they take is not looked at.
unfoldable pub spread : Node → List ℕ → Node
spread node str = record node {
  strings = append_all node.strings str;
  fds = map (write_fd str) node.fds;
  transfers = map (send_to str) node.transfers;
}

abbrev pub done_set : Transfer → Transfer
done_set t = record t { is_done = true }

-- The end of the file.
unfoldable pub sinks_done : Node → Node
sinks_done node = record node {
  fds = map close_auto node.fds;
  transfers = map done_set node.transfers;
  auto_done = true;
}

abbrev pub sink_burst : ℕ
sink_burst = 23

-- The body of the loop behind `intSinkRead`, with the rounds that follow.
unfoldable pub sunk : Exec × Node × Received → (Exec → Node → Exec × Node) → Exec × Node
unfolding fill
sunk (e, node, received []) next = (e, node)
sunk (e, node, read_err code) next = (e, sinks_done node)
sunk (e, node, received (b ∷ str)) next =
    let filled = fill node.dests (b ∷ str) in
    let node' = record node { dests = filled.0 } in
    if filled.1 then (e, node') else next e (spread node' (b ∷ str))

-- The burst of reads, by the rounds left; `reads i` answers the i-th read of up to 22 bytes.
unfoldable pub sink_loop : ℕ → (ℕ → Reply) → ℕ → Exec → Node → Exec × Node
unfolding sunk
sink_loop zero reads i e node = (e, node)
sink_loop (suc rounds) reads i e node =
    sunk (int_sink_read e node 22 (reads i)) (sink_loop rounds reads (i + 1))

unfoldable pub auto_sink : Exec → Node → (ℕ → Reply) → Exec × Node
auto_sink e node reads =
    if not node.auto_enabled
    then (e, node)
    else if node.auto_done
    then (e, node)
    else sink_loop sink_burst reads 0 e node
