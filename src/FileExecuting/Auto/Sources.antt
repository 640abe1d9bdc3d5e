-- ===== src/FileExecuting/Auto/Sources.antt =====
-- How `autoSource` feeds a buffer to the child.
use processing_common.Common.{
  ℕ, zero, suc, ◌+◌, ◌-◌, ◌*◌, ◌<◌, ◌≤◌, ◌≡◌, ◌∙◌, u32, refl, ap, subst, arith, true, false, ltb,
  ◌==◌, if◌then◌else◌, min, List, [], ◌∷◌, ◌++◌, append_assoc, none, some, length, length-take,
  length-drop, take, drop, take-append-drop, take-take-drop, take_of_length-le, Bool-cases, inl,
  inr,
}
use native.Mathlib.Decide.{dec_lt}
use processing_common.FileExecuting.{count, Received, Written, wrote, Exec}
use processing_common.FileExecuting.Io.{write_loop, int_send}
use processing_common.FileExecuting.Auto.{
  SourceOs, source_buffer, buffer_sent, source_from, auto_source, auto_source_done,
}

-- Each write takes a byte or more.
abbrev pub AllTaken : (ℕ → Written) → Type 0
AllTaken os = (k : ℕ) → (n : ℕ) × (os k ≡ wrote (suc n))

-- The loop writes all data, however they are cut.
pub write_loop_whole :
    (fuel : ℕ) (os : ℕ → Written) (k : ℕ) (str : List ℕ)
    → length str ≤ fuel
    → AllTaken os
    → write_loop fuel os k str ≡ (str, false)
unfolding write_loop
write_loop_whole zero os k [] h all = refl
write_loop_whole zero os k (b ∷ str) h all = absurd (omega arith)
write_loop_whole (suc fuel) os k [] h all = refl
write_loop_whole (suc fuel) os k (b ∷ str) h all =
    let (n, taken) = all k in
    let rest =
      write_loop_whole fuel os (k + 1) (drop n str) (omega (arith, length-drop n str)) all in
    rw (taken, write_loop) (rw rest (rw (take-append-drop n str) refl))

-- All data are sent where the pipe is open.
pub int_send_whole :
    (e : Exec) (str : List ℕ) (os : ℕ → Written) (fd : ℕ)
    → 0 < length str
    → e.send_ready ≡ true
    → e.node_in.fd_write ≡ some fd
    → AllTaken os
    → int_send e str os ≡ (
      record e { piped = e.piped ++ str; bytes_sent = u32 (e.bytes_sent + length str) },
      count (length str),
    )
unfolding int_send
int_send_whole e str os fd some_bytes ready fd_open all =
    let more : (length str == 0) ≡ false = ground arith in
    simp (write_loop_whole (length str) os 0 str (omega arith) all, more, ready, fd_open)

-- `n` bytes of the only buffer have been sent, and there are more.
pub record IsFeeding (start src : List ℕ) (n : ℕ) (e : Exec) : Type 0 where
  pub buffer : e.node_in.sources ≡ record { src = src; processed = n } ∷ []
  pub sent : e.piped ≡ start ++ take n src
  pub more : n < length src
  pub enabled : e.node_in.auto_enabled ≡ true
  pub going : e.node_in.auto_done ≡ false
  pub ready : e.send_ready ≡ true
  pub fd : ℕ
  pub fd_open : e.node_in.fd_write ≡ some fd

-- All bytes have been sent, and the pipe is closed.
pub record IsFed (start src : List ℕ) (e : Exec) : Type 0 where
  pub sent : e.piped ≡ start ++ src
  pub closed : e.node_in.fd_write ≡ none
  pub ended : e.node_in.auto_done ≡ true
  pub done : e.done ≡ true

auto_source_fed :
    (start src : List ℕ) (e : Exec) (os : SourceOs) (reads : ℕ → ℕ → Received)
    → IsFed start src e
    → auto_source e os reads ≡ e
unfolding auto_source
auto_source_fed start src e os reads f = elim (Bool-cases e.node_in.auto_enabled) [
  | inl on ↦ simp (on, f.ended)
  | inr off ↦ simp off
]

-- The bytes of one call, with `n` sent before.
abbrev next_bytes : List ℕ → ℕ → List ℕ
next_bytes src n = take (min 512 (length src - n)) (drop n src)

-- The state behind the send of one call.
abbrev sending : Exec → List ℕ → ℕ → Exec
sending e src n = record e {
  piped = e.piped ++ next_bytes src n;
  bytes_sent = u32 (e.bytes_sent + length (next_bytes src n));
  node_in = record e.node_in {
    sources = record { src = src; processed = n + length (next_bytes src n) } ∷ [];
  };
}

length-next_bytes : (src : List ℕ) (n : ℕ) → length (next_bytes src n) ≡ min 512 (length src - n)
length-next_bytes src n =
    ground (arith, length-take (min 512 (length src - n)) (drop n src), length-drop n src)

sent_next :
    (start src : List ℕ) (n : ℕ) (piped : List ℕ)
    → piped ≡ start ++ take n src
    → piped ++ next_bytes src n ≡ start ++ take (n + min 512 (length src - n)) src
sent_next start src n piped h = rw (
  h,
  append_assoc start (take n src) (next_bytes src n),
  take-take-drop n (min 512 (length src - n)) src,
)

auto_source_buffer :
    (start src : List ℕ) (n : ℕ) (e : Exec) (os : SourceOs) (reads : ℕ → ℕ → Received)
    → IsFeeding start src n e
    → auto_source e os reads ≡ source_buffer e (record { src = src; processed = n }) [] os
unfolding auto_source source_from
auto_source_buffer start src n e os reads f = simp (f.enabled, f.going, f.buffer)

source_buffer_sends :
    (start src : List ℕ) (n : ℕ) (e : Exec) (os : SourceOs)
    → IsFeeding start src n e
    → AllTaken (os.writes 0)
    → source_buffer e (record { src = src; processed = n }) [] os ≡ (
        if ltb (n + length (next_bytes src n)) (length src)
        then sending e src n
        else auto_source_done (sending e src n))
unfolding source_buffer buffer_sent
source_buffer_sends start src n e os f all =
    let some_bytes : 0 < length (next_bytes src n) =
      omega (arith, length-next_bytes src n, f.more) in
    ap (buffer_sent (record { src = src; processed = n }) [])
      (int_send_whole e (next_bytes src n) (os.writes 0) f.fd some_bytes f.ready f.fd_open all)

auto_source_sends :
    (start src : List ℕ) (n : ℕ) (e : Exec) (os : SourceOs) (reads : ℕ → ℕ → Received)
    → IsFeeding start src n e
    → AllTaken (os.writes 0)
    → auto_source e os reads ≡ (
        if ltb (n + min 512 (length src - n)) (length src)
        then sending e src n
        else auto_source_done (sending e src n))
auto_source_sends start src n e os reads f all =
    auto_source_buffer start src n e os reads f
    ∙ source_buffer_sends start src n e os f all
    ∙ ap
        (λ k.
          if ltb (n + k) (length src) then sending e src n else auto_source_done (sending e src n))
        (length-next_bytes src n)

-- One call feeds 512 bytes, or the rest.
auto_source_feeds :
    (start src : List ℕ) (n : ℕ) (e : Exec) (os : SourceOs) (reads : ℕ → ℕ → Received)
    → IsFeeding start src n e
    → AllTaken (os.writes 0)
    → n + 512 < length src
    → IsFeeding start src (n + 512) (auto_source e os reads)
auto_source_feeds start src n e os reads f all more =
    let whole : min 512 (length src - n) ≡ 512 = omega arith in
    let on : ltb (n + min 512 (length src - n)) (length src) ≡ true = ground arith in
    let eq : auto_source e os reads ≡ sending e src n =
      auto_source_sends start src n e os reads f all ∙ simp on in
    let len : length (next_bytes src n) ≡ 512 = length-next_bytes src n ∙ whole in
    rw eq (record {
      buffer = ap (λ k. record { src = src; processed = n + k } ∷ []) len;
      sent =
          subst (λ k. (sending e src n).piped ≡ start ++ take (n + k) src) whole
            (sent_next start src n e.piped f.sent);
      more = more;
      enabled = f.enabled;
      going = f.going;
      ready = f.ready;
      fd = f.fd;
      fd_open = f.fd_open;
    })

auto_source_done-IsFed :
    (start src : List ℕ) (e : Exec)
    → e.piped ≡ start ++ src
    → e.node_in.auto_done ≡ false
    → IsFed start src (auto_source_done e)
unfolding auto_source_done
auto_source_done-IsFed start src e sent going =
    rw going (record { sent = sent; closed = refl; ended = refl; done = refl })

auto_source_ends :
    (start src : List ℕ) (n : ℕ) (e : Exec) (os : SourceOs) (reads : ℕ → ℕ → Received)
    → IsFeeding start src n e
    → AllTaken (os.writes 0)
    → length src ≤ n + 512
    → IsFed start src (auto_source e os reads)
auto_source_ends start src n e os reads f all few =
    let h = f.more in
    let off : ltb (n + min 512 (length src - n)) (length src) ≡ false = ground arith in
    let eq : auto_source e os reads ≡ auto_source_done (sending e src n) =
      auto_source_sends start src n e os reads f all ∙ simp off in
    let whole : take (n + min 512 (length src - n)) src ≡ src =
      take_of_length-le (n + min 512 (length src - n)) src (omega arith) in
    rw eq (
      auto_source_done-IsFed start src (sending e src n)
        (sent_next start src n e.piped f.sent ∙ ap (λ l. start ++ l) whole) f.going)

-- `ticks` calls of `autoSource` from the i-th on.
unfoldable pub feed : ℕ → (ℕ → SourceOs) → (ℕ → ℕ → ℕ → Received) → ℕ → Exec → Exec
feed zero oss reads i e = e
feed (suc ticks) oss reads i e = feed ticks oss reads (i + 1) (auto_source e (oss i) (reads i))

feed_rest :
    (ticks : ℕ) (oss : ℕ → SourceOs) (reads : ℕ → ℕ → ℕ → Received) (i : ℕ) (start src : List ℕ)
    (e : Exec)
    → IsFed start src e
    → IsFed start src (feed ticks oss reads i e)
unfolding feed
feed_rest zero oss reads i start src e f = f
feed_rest (suc ticks) oss reads i start src e f =
    rw (auto_source_fed start src e (oss i) (reads i) f)
      (feed_rest ticks oss reads (i + 1) start src e f)

-- Where `autoSource` feeds a buffer, `n` of its bytes are sent and each write takes a byte or more,
-- then as many calls as the rest has started parts of 512 bytes write the whole buffer behind what
-- was written before, close the pipe and set the object done.
pub feed-IsFed :
    (ticks : ℕ) (oss : ℕ → SourceOs) (reads : ℕ → ℕ → ℕ → Received) (i : ℕ) (start src : List ℕ)
    (n : ℕ) (e : Exec)
    → IsFeeding start src n e
    → ((t : ℕ) → AllTaken ((oss t).writes 0))
    → length src ≤ n + 512 * ticks
    → IsFed start src (feed ticks oss reads i e)
unfolding feed
feed-IsFed zero oss reads i start src n e f all few = let h = f.more in absurd (omega arith)
feed-IsFed (suc ticks) oss reads i start src n e f all few = elim (dec_lt (n + 512) (length src)) [
  | yes more ↦
      feed-IsFed ticks oss reads (i + 1) start src (n + 512) (auto_source e (oss i) (reads i))
        (auto_source_feeds start src n e (oss i) (reads i) f (all i) more) all (omega arith)
  | no last ↦
      feed_rest ticks oss reads (i + 1) start src (auto_source e (oss i) (reads i))
        (auto_source_ends start src n e (oss i) (reads i) f (all i) (omega arith))
]
