-- ===== src/EventListening/Conns.antt =====
-- Where the connections are.
use processing_common.Common.{
  ℕ, ◌+◌, ◌≤◌, ◌<◌, ◌≡◌, refl, sym, ap, arith, Bool, ltb, leb, ◌==◌, if◌then◌else◌, sub32, List, [],
  ◌∷◌, ◌++◌, append-nil, append_assoc, Option, none, some, length, length-append, Bool-cases, inl,
  inr,
}
use processing_common.EventListening.{
  main, OpenEventConn, Event, EventListening, new_listening, ms_delay_data_max, connections_accept,
  timed_out, data_timeouts_check, Incoming, msg_enqueue, received, data_receive,
  dequeue_timeouts_check, Tick, process, process_all,
}

pub count : ℕ → List ℕ → ℕ
count fd [] = 0
count fd (x ∷ xs) = (if x == fd then 1 else 0) + count fd xs

abbrev pub ids : List OpenEventConn → List ℕ
ids [] = []
ids (c ∷ conns) = c.conn ∷ ids conns

count-append : (fd : ℕ) (xs ys : List ℕ) → count fd (xs ++ ys) ≡ count fd xs + count fd ys
unfolding count
count-append fd [] ys = omega arith
count-append fd (x ∷ xs) ys = let rest = count-append fd xs ys in omega arith

ids-append :
    (cs : List OpenEventConn) (c : OpenEventConn) → ids (cs ++ (c ∷ [])) ≡ ids cs ++ (c.conn ∷ [])
ids-append [] c = refl
ids-append (c' ∷ cs) c = ap (λ l. c'.conn ∷ l) (ids-append cs c)

-- A loop that gives some of the connections back.
record IsParted (cs kept : List OpenEventConn) (gone : List ℕ) : Type 0 where
  balance : (fd : ℕ) → count fd (ids kept) + count fd gone ≡ count fd (ids cs)
  fewer : length kept ≤ length cs

IsParted-keep :
    (c : OpenEventConn) (cs kept : List OpenEventConn) (gone : List ℕ)
    → IsParted cs kept gone
    → IsParted (c ∷ cs) (c ∷ kept) gone
unfolding count
IsParted-keep c cs kept gone p = record {
  balance = λ fd. let h = p.balance fd in omega arith;
  fewer = let h = p.fewer in omega arith;
}

IsParted-drop :
    (c : OpenEventConn) (cs kept : List OpenEventConn) (gone : List ℕ)
    → IsParted cs kept gone
    → IsParted (c ∷ cs) kept (c.conn ∷ gone)
unfolding count
IsParted-drop c cs kept gone p = record {
  balance = λ fd. let h = p.balance fd in omega arith;
  fewer = let h = p.fewer in omega arith;
}

timed_out-IsParted :
    (now : ℕ) (cs : List OpenEventConn) → IsParted cs (timed_out now cs).0 (timed_out now cs).1
unfolding timed_out
timed_out-IsParted now [] = unfold count in record { balance = λ fd. refl; fewer = omega arith }
timed_out-IsParted now (c ∷ cs) =
    let rest = timed_out-IsParted now cs in
    let r = timed_out now cs in
    elim (Bool-cases (ltb (sub32 now c.ms_start) ms_delay_data_max)) [
      | inl young ↦ simp young (IsParted-keep c cs r.0 r.1 rest)
      | inr old ↦ simp old (IsParted-drop c cs r.0 r.1 rest)
    ]

received-IsParted :
    {V : Type 0} (now : ℕ) (incoming : ℕ → Incoming V) (cs : List OpenEventConn)
    (es : List (Event V))
    → let r = received now incoming cs es in IsParted cs r.0 r.1
unfolding received
received-IsParted now incoming [] es =
    unfold count in record { balance = λ fd. refl; fewer = omega arith }
received-IsParted now incoming (c ∷ cs) es =
    let m = msg_enqueue now (incoming c.conn) es in
    let rest = received-IsParted now incoming cs m.1 in
    let r = received now incoming cs m.1 in
    elim (Bool-cases m.0) [
      | inl done ↦ simp done (IsParted-drop c cs r.0 r.1 rest)
      | inr more ↦ simp more (IsParted-keep c cs r.0 r.1 rest)
    ]

-- At most ten connections are open, and each that was given is open, given back or closed.
pub record IsAccounted {V : Type 0} (given : List ℕ) (l : EventListening V) : Type 0 where
  pub running : l.state ≡ main
  pub bounded : length l.conns_open ≤ 10
  pub balance :
      (fd : ℕ)
      → count fd (ids l.conns_open) + count fd l.repelled + count fd l.dropped ≡ count fd given

-- The descriptors that calls of `process` are given.
pub given_in : {V : Type 0} → Tick V → List ℕ
given_in t = elim t.peer [ none ↦ [] | some p ↦ p.0 ∷ [] ]

pub given_all : {V : Type 0} → List (Tick V) → List ℕ
given_all [] = []
given_all (t ∷ ts) = given_in t ++ given_all ts

accept-IsAccounted :
    {V : Type 0} (now : ℕ) (peer : Option (ℕ × Bool)) (given : List ℕ) (l : EventListening V)
    → IsAccounted given l
    → IsAccounted
        (given ++ (elim peer [ none ↦ [] | some p ↦ p.0 ∷ [] ]))
        (connections_accept now peer l)
unfolding connections_accept
accept-IsAccounted now none given l a = rw (append-nil given) a
accept-IsAccounted now (some (fd, created)) given l a =
    let dropped : IsAccounted (given ++ (fd ∷ [])) (record l { dropped = l.dropped ++ (fd ∷ []) }) =
      record {
        running = a.running;
        bounded = a.bounded;
        balance = λ x.
            let h = a.balance x in
            omega (arith, count-append x l.dropped (fd ∷ []), count-append x given (fd ∷ []));
      } in
    let c : OpenEventConn = record { ms_start = now; conn = fd } in
    elim (Bool-cases (leb 10 (length l.conns_open))) [
      | inl full ↦ simp full dropped
      | inr room ↦ elim (Bool-cases created) [
        | inr failed ↦ simp (room, failed) dropped
        | inl made ↦
            simp (room, made)
              (record {
                running = a.running;
                bounded =
                    let few : length l.conns_open < 10 = ground arith in
                    omega (arith, length-append l.conns_open (c ∷ []));
                balance = λ x.
                    let h = a.balance x in
                    let listed = ap (count x) (ids-append l.conns_open c) in
                    omega (
                      arith,
                      listed,
                      count-append x (ids l.conns_open) (fd ∷ []),
                      count-append x given (fd ∷ []),
                    );
              })
      ]
    ]

parted-IsAccounted :
    {V : Type 0} (given : List ℕ) (l : EventListening V) (kept : List OpenEventConn) (gone : List ℕ)
    (es : List (Event V))
    → IsAccounted given l
    → IsParted l.conns_open kept gone
    → IsAccounted given (record l { conns_open = kept; repelled = l.repelled ++ gone; events = es })
parted-IsAccounted given l kept gone es a p = record {
  running = a.running;
  bounded = let h = p.fewer in let h' = a.bounded in omega arith;
  balance = λ x.
      let h = a.balance x in let h' = p.balance x in omega (arith, count-append x l.repelled gone);
}

timeouts-IsAccounted :
    {V : Type 0} (now : ℕ) (given : List ℕ) (l : EventListening V)
    → IsAccounted given l
    → IsAccounted given (data_timeouts_check now l)
unfolding data_timeouts_check
timeouts-IsAccounted now given l a =
    let r = timed_out now l.conns_open in
    parted-IsAccounted given l r.0 r.1 l.events a (timed_out-IsParted now l.conns_open)

receive-IsAccounted :
    {V : Type 0} (now : ℕ) (incoming : ℕ → Incoming V) (given : List ℕ) (l : EventListening V)
    → IsAccounted given l
    → IsAccounted given (data_receive now incoming l)
unfolding data_receive
receive-IsAccounted now incoming given l a =
    let r = received now incoming l.conns_open l.events in
    parted-IsAccounted given l r.0 r.1 r.2 a (received-IsParted now incoming l.conns_open l.events)

process_main :
    {V : Type 0} (t : Tick V) (l : EventListening V)
    → l.state ≡ main
    → process t l
      ≡ dequeue_timeouts_check t.ms_dequeue (
          data_receive t.ms_receive t.incoming
            (data_timeouts_check t.ms_timeout (connections_accept t.ms_accept t.peer l)))
unfolding process
process_main t l state = rw state refl

process-IsAccounted :
    {V : Type 0} (t : Tick V) (given : List ℕ) (l : EventListening V)
    → IsAccounted given l
    → IsAccounted (given ++ given_in t) (process t l)
unfolding dequeue_timeouts_check given_in
process-IsAccounted t given l a =
    let l₁ = connections_accept t.ms_accept t.peer l in
    let l₂ = data_timeouts_check t.ms_timeout l₁ in
    let before = receive-IsAccounted t.ms_receive t.incoming (given ++ given_in t) l₂ (
      timeouts-IsAccounted t.ms_timeout (given ++ given_in t) l₁
        (accept-IsAccounted t.ms_accept t.peer given l a)) in
    rw (process_main t l a.running)
      (record { running = before.running; bounded = before.bounded; balance = before.balance })

process_all-from :
    {V : Type 0} (ts : List (Tick V)) (given : List ℕ) (l : EventListening V)
    → IsAccounted given l
    → IsAccounted (given ++ given_all ts) (process_all ts l)
unfolding process_all given_all
process_all-from [] given l a = rw (append-nil given) a
process_all-from (t ∷ ts) given l a =
    rw (sym (append_assoc given (given_in t) (given_all ts)))
      (process_all-from ts (given ++ given_in t) (process t l) (process-IsAccounted t given l a))

-- After the first call and any further calls of `process`, at most ten connections are open, and
-- each descriptor that the listening process gave in the further calls is open, given back or
-- closed, exactly as often as it was given.
pub process_all-IsAccounted :
    {V : Type 0} (first : Tick V) (ts : List (Tick V))
    → IsAccounted (given_all ts) (process_all (first ∷ ts) new_listening)
unfolding process_all process count
process_all-IsAccounted first ts =
    process_all-from ts [] (process first new_listening)
      (record { running = refl; bounded = omega arith; balance = λ fd. refl })
