-- ===== src/FileExecuting/Auto/Sinks.antt =====
-- What `autoSink` does with the bytes that the child has written.
use processing_common.Common.{
  ℕ, zero, suc, ◌+◌, ◌-◌, ◌<◌, u32, ◌≡◌, ◌∙◌, refl, sym, ap, arith, true, false, ltb, ◌==◌, min,
  List, [], ◌∷◌, ◌++◌, map, append_assoc, append-nil, none, some, length, length-append, take,
  take_of_length-le, Bool-cases, inl, inr,
}
use processing_common.FileExecuting.{
  Reply, bytes, again, failed, Dest, FdSetting, Transfer, Node, Exec,
}
use processing_common.FileExecuting.Io.{int_sink_read, replied}
use processing_common.FileExecuting.Auto.{
  fill, spread, sunk, sinks_done, append_all, write_fd, send_to, close_auto, done_set, sink_loop,
  sink_burst, auto_sink,
}

gather : Reply → List ℕ → List ℕ
gather (bytes []) rest = []
gather (bytes (b ∷ str)) rest = b ∷ (str ++ rest)
gather again rest = []
gather failed rest = []

-- The bytes of the replies up to the first that brings none, at most `rounds` of them.
pub until_stop : ℕ → (ℕ → Reply) → ℕ → List ℕ
unfolding gather
until_stop zero reads i = []
until_stop (suc rounds) reads i = gather (reads i) (until_stop rounds reads (i + 1))

abbrev pub texts : List FdSetting → List (List ℕ)
texts fds = map (λ (s : FdSetting). s.written) fds

abbrev pub messages : List Transfer → List (List ℕ)
messages ts = map (λ (t : Transfer). t.sent) ts

-- Each sink but the buffers has received `str` behind what it had.
pub record IsSpread (node node' : Node) (str : List ℕ) : Type 0 where
  pub to_strings : node'.strings ≡ append_all node.strings str
  pub to_fds : texts node'.fds ≡ append_all (texts node.fds) str
  pub to_transfers : messages node'.transfers ≡ append_all (messages node.transfers) str
  pub same_dests : node'.dests ≡ node.dests

append_all-nil : (strs : List (List ℕ)) → append_all strs [] ≡ strs
append_all-nil [] = refl
append_all-nil (s ∷ strs) = rw (append-nil s, append_all-nil strs)

append_all-append :
    (strs : List (List ℕ)) (s t : List ℕ)
    → append_all (append_all strs s) t ≡ append_all strs (s ++ t)
append_all-append [] s t = refl
append_all-append (u ∷ strs) s t = rw (append_assoc u s t, append_all-append strs s t)

texts-write_fd :
    (fds : List FdSetting) (str : List ℕ)
    → texts (map (write_fd str) fds) ≡ append_all (texts fds) str
texts-write_fd [] str = refl
texts-write_fd (s ∷ fds) str = rw (texts-write_fd fds str)

messages-send_to :
    (ts : List Transfer) (str : List ℕ)
    → messages (map (send_to str) ts) ≡ append_all (messages ts) str
messages-send_to [] str = refl
messages-send_to (t ∷ ts) str = rw (messages-send_to ts str)

written-close_auto : (s : FdSetting) → (close_auto s).written ≡ s.written
written-close_auto s = ground arith

texts-close_auto : (fds : List FdSetting) → texts (map close_auto fds) ≡ texts fds
texts-close_auto [] = refl
texts-close_auto (s ∷ fds) = rw (written-close_auto s, texts-close_auto fds)

messages-done_set : (ts : List Transfer) → messages (map done_set ts) ≡ messages ts
messages-done_set [] = refl
messages-done_set (t ∷ ts) = rw (messages-done_set ts)

none-IsSpread :
    (node node' : Node)
    → node'.strings ≡ node.strings
    → texts node'.fds ≡ texts node.fds
    → messages node'.transfers ≡ messages node.transfers
    → node'.dests ≡ node.dests
    → IsSpread node node' []
none-IsSpread node node' s f t d = record {
  to_strings = s ∙ sym (append_all-nil node.strings);
  to_fds = f ∙ sym (append_all-nil (texts node.fds));
  to_transfers = t ∙ sym (append_all-nil (messages node.transfers));
  same_dests = d;
}

sinks_done-IsSpread : (node : Node) → IsSpread node (sinks_done node) []
unfolding sinks_done
sinks_done-IsSpread node =
    none-IsSpread node (sinks_done node) refl (texts-close_auto node.fds)
      (messages-done_set node.transfers) refl

spread-IsSpread :
    (node node' : Node) (str rest : List ℕ)
    → IsSpread (spread node str) node' rest
    → IsSpread node node' (str ++ rest)
unfolding spread
spread-IsSpread node node' str rest s = record {
  to_strings = s.to_strings ∙ append_all-append node.strings str rest;
  to_fds =
      s.to_fds
      ∙ ap (λ l. append_all l rest) (texts-write_fd node.fds str)
      ∙ append_all-append (texts node.fds) str rest;
  to_transfers =
      s.to_transfers
      ∙ ap (λ l. append_all l rest) (messages-send_to node.transfers str)
      ∙ append_all-append (messages node.transfers) str rest;
  same_dests = s.same_dests;
}

-- A node that can be read.
pub record IsOpen (e : Exec) (node : Node) : Type 0 where
  pub fd : ℕ
  pub ready : e.read_ready ≡ true
  pub fd_open : node.fd_read ≡ some fd
  pub no_dests : node.dests ≡ []

open_read :
    (e : Exec) (node : Node) (reply : Reply) (fd : ℕ)
    → e.read_ready ≡ true
    → node.fd_read ≡ some fd
    → int_sink_read e node 22 reply ≡ replied e node reply
unfolding int_sink_read
open_read e node reply fd ready fd_open = simp (ready, fd_open)

fill_none : (dests : List Dest) (str : List ℕ) → dests ≡ [] → fill dests str ≡ ([], false)
unfolding fill
fill_none [] str h = refl
fill_none (d ∷ dests) str h = absurd cc

closed-IsSpread : (node : Node) → IsSpread node (sinks_done (record node { fd_read = none })) []
closed-IsSpread node =
    let s = sinks_done-IsSpread (record node { fd_read = none }) in
    record {
      to_strings = s.to_strings;
      to_fds = s.to_fds;
      to_transfers = s.to_transfers;
      same_dests = s.same_dests;
    }

same-IsSpread : (node : Node) → IsSpread node node []
same-IsSpread node = none-IsSpread node node refl refl refl refl

sunk-IsSpread :
    (e : Exec) (node : Node) (reply : Reply) (next : Exec → Node → Exec × Node) (rest : List ℕ)
    → IsOpen e node
    → ((e' : Exec) (node' : Node) → IsOpen e' node' → IsSpread node' (next e' node').1 rest)
    → IsSpread node (sunk (replied e node reply) next).1 (gather reply rest)
unfolding sunk replied gather
sunk-IsSpread e node failed next rest o all = closed-IsSpread node
sunk-IsSpread e node again next rest o all = elim (Bool-cases e.result.child_terminated) [
  | inl ended ↦ rw ended (closed-IsSpread node)
  | inr running ↦ rw running (same-IsSpread node)
]
sunk-IsSpread e node (bytes []) next rest o all = closed-IsSpread node
sunk-IsSpread e node (bytes (b ∷ str)) next rest o all =
    let e₁ : Exec = record e { bytes_read = u32 (e.bytes_read + suc (length str)) } in
    let node₁ : Node = record node { dests = [] } in
    let open₁ : IsOpen e₁ (spread node₁ (b ∷ str)) =
      unfold spread in
      record { fd = o.fd; ready = o.ready; fd_open = o.fd_open; no_dests = refl } in
    let s =
      spread-IsSpread node₁ (next e₁ (spread node₁ (b ∷ str))).1 (b ∷ str) rest
        (all e₁ (spread node₁ (b ∷ str)) open₁) in
    rw (fill_none node.dests (b ∷ str) o.no_dests) (record {
      to_strings = s.to_strings;
      to_fds = s.to_fds;
      to_transfers = s.to_transfers;
      same_dests = s.same_dests ∙ sym o.no_dests;
    })

sink_loop-IsSpread :
    (rounds : ℕ) (reads : ℕ → Reply) (i : ℕ) (e : Exec) (node : Node)
    → IsOpen e node
    → IsSpread node (sink_loop rounds reads i e node).1 (until_stop rounds reads i)
unfolding sink_loop until_stop
sink_loop-IsSpread zero reads i e node o = same-IsSpread node
sink_loop-IsSpread (suc rounds) reads i e node o =
    rw (open_read e node (reads i) o.fd o.ready o.fd_open) (
      sunk-IsSpread e node (reads i) (sink_loop rounds reads (i + 1))
        (until_stop rounds reads (i + 1)) o (sink_loop-IsSpread rounds reads (i + 1)))

auto_sink_on :
    (e : Exec) (node : Node) (reads : ℕ → Reply)
    → node.auto_enabled ≡ true
    → node.auto_done ≡ false
    → (auto_sink e node reads).1 ≡ (sink_loop sink_burst reads 0 e node).1
unfolding auto_sink
auto_sink_on e node reads en more = simp (en, more)

-- Where `autoSink` is enabled and not done, the pipe can be read and there are no destination
-- buffers, each string, and the calls of write() and send() for each descriptor and transfer, have
-- been handed exactly the bytes of the replies up to the first without any, in one burst.
pub auto_sink-IsSpread :
    (e : Exec) (node : Node) (reads : ℕ → Reply)
    → node.auto_enabled ≡ true
    → node.auto_done ≡ false
    → IsOpen e node
    → IsSpread node (auto_sink e node reads).1 (until_stop sink_burst reads 0)
auto_sink-IsSpread e node reads en more o =
    rw (auto_sink_on e node reads en more) (sink_loop-IsSpread sink_burst reads 0 e node o)

fill_room :
    (d : Dest) (dests : List Dest) (str : List ℕ)
    → 0 < length str
    → length d.filled + length str < d.len
    → fill (d ∷ dests) str ≡ (record d { filled = d.filled ++ str } ∷ dests, true)
unfolding fill
fill_room d dests str some_bytes room =
    let left = d.len - length d.filled in
    let all : take (min (length str) left) str ≡ str =
      take_of_length-le (min (length str) left) str (omega arith) in
    let not_full : (left == 0) ≡ false = ground arith in
    let not_filled : ltb (length (d.filled ++ str)) d.len ≡ true =
      ground (arith, length-append d.filled str) in
    simp (not_full, all, not_filled)

fill_first :
    (all dests : List Dest) (d : Dest) (str : List ℕ)
    → all ≡ d ∷ dests
    → 0 < length str
    → length d.filled + length str < d.len
    → fill all str ≡ (record d { filled = d.filled ++ str } ∷ dests, true)
fill_first all dests d str h p room = rw h (fill_room d dests str p room)

sunk_starves :
    (e : Exec) (node : Node) (next : Exec → Node → Exec × Node) (d : Dest) (dests : List Dest)
    (b : ℕ) (str : List ℕ)
    → node.dests ≡ d ∷ dests
    → length d.filled + length (b ∷ str) < d.len
    → (sunk (replied e node (bytes (b ∷ str))) next).1
      ≡ record node { dests = record d { filled = d.filled ++ (b ∷ str) } ∷ dests }
unfolding sunk replied
sunk_starves e node next d dests b str ds room =
    simp (fill_first node.dests dests d (b ∷ str) ds (omega arith) room)

-- Where the first destination buffer is not filled by the bytes that `autoSink` reads, it takes
-- them, and nothing else in the node changes: no string, descriptor or transfer gets them.
pub auto_sink_starves :
    (e : Exec) (node : Node) (reads : ℕ → Reply) (d : Dest) (dests : List Dest) (fd b : ℕ)
    (str : List ℕ)
    → node.auto_enabled ≡ true
    → node.auto_done ≡ false
    → e.read_ready ≡ true
    → node.fd_read ≡ some fd
    → node.dests ≡ d ∷ dests
    → reads 0 ≡ bytes (b ∷ str)
    → length d.filled + length (b ∷ str) < d.len
    → (auto_sink e node reads).1
      ≡ record node { dests = record d { filled = d.filled ++ (b ∷ str) } ∷ dests }
auto_sink_starves e node reads d dests fd b str en more ready fd_open ds got room =
    let start : int_sink_read e node 22 (reads 0) ≡ replied e node (bytes (b ∷ str)) =
      open_read e node (reads 0) fd ready fd_open ∙ ap (replied e node) got in
    let first : (sink_loop sink_burst reads 0 e node).1
        ≡ record node { dests = record d { filled = d.filled ++ (b ∷ str) } ∷ dests } =
      unfold sink_loop in
      rw start (sunk_starves e node (sink_loop 22 reads 1) d dests b str ds room) in
    auto_sink_on e node reads en more ∙ first
