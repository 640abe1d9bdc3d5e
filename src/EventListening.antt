-- ===== src/EventListening.antt =====
-- EventListening.cpp: event messages, which clients send over TCP and the program takes by their
-- references. A connection is a number, and a message is of a type `V` of JSON objects, without the
-- members "refMsg" and "msEnqueued"; what the connections and the parser give is an argument.
pub mod Conns
pub mod Events
pub mod Tests
use processing_common.Common.{
  ℕ, zero, suc, ◌+◌, Bool, true, false, not, ◌&&◌, ltb, leb, ◌==◌, if◌then◌else◌, same_str, sub32,
  List, [], ◌∷◌, ◌++◌, Option, none, some, length,
}

pub data ProcState : Type 0 where
  start main : ProcState

pub record OpenEventConn : Type 0 where
  pub ms_start : ℕ
  pub conn : ℕ

-- An entry of mEvents, with its member "msEnqueued".
pub record Event (V : Type 0) : Type 0 where
  pub ref : List ℕ
  pub value : V
  pub ms_enqueued : ℕ

-- `repelled` are the connections given back so far, `dropped` the descriptors closed at once.
pub record EventListening (V : Type 0) : Type 0 where
  pub state : ProcState
  pub conns_open : List OpenEventConn
  pub events : List (Event V)
  pub repelled : List ℕ
  pub dropped : List ℕ

abbrev pub new_listening : {V : Type 0} → EventListening V
new_listening = record { state = start; conns_open = []; events = []; repelled = []; dropped = [] }

abbrev pub ms_delay_data_max : ℕ
ms_delay_data_max = 300

abbrev pub num_open_conns_max : ℕ
num_open_conns_max = 10

abbrev pub ms_delay_dequeue_max : ℕ
ms_delay_dequeue_max = 600

-- A descriptor that the listening process gives, and whether a connection can be created for it,
-- which has the same number.
unfoldable pub connections_accept :
    {V : Type 0} → ℕ → Option (ℕ × Bool) → EventListening V → EventListening V
connections_accept now none l = l
connections_accept now (some (fd, created)) l =
    if leb num_open_conns_max (length l.conns_open)
    then record l { dropped = l.dropped ++ (fd ∷ []) }
    else if not created
    then record l { dropped = l.dropped ++ (fd ∷ []) }
    else record l { conns_open = l.conns_open ++ (record { ms_start = now; conn = fd } ∷ []) }

-- The connections that stay and those that are given back.
unfoldable pub timed_out : ℕ → List OpenEventConn → List OpenEventConn × List ℕ
timed_out now [] = ([], [])
timed_out now (c ∷ conns) =
    let rest = timed_out now conns in
    if ltb (sub32 now c.ms_start) ms_delay_data_max
    then (c ∷ rest.0, rest.1)
    else (rest.0, c.conn ∷ rest.1)

unfoldable pub data_timeouts_check : {V : Type 0} → ℕ → EventListening V → EventListening V
unfolding timed_out
data_timeouts_check now l =
    let r = timed_out now l.conns_open in
    record l { conns_open = r.0; repelled = l.repelled ++ r.1 }

-- What reading and parsing give for a connection, the parser's object in its parts.
pub data Incoming (V : Type 0) : Type 0 where
  no_data lost unparsed no_ref wrong_ref : Incoming V
  event : List ℕ → V → Incoming V

-- The value at a key of a map, set.
unfoldable pub event_set : {V : Type 0} → Event V → List (Event V) → List (Event V)
event_set e [] = e ∷ []
event_set e (e' ∷ es) =
    let rest = event_set e es in if same_str e'.ref e.ref then e ∷ es else e' ∷ rest

-- Whether the connection is done, and the events.
unfoldable pub msg_enqueue : {V : Type 0} → ℕ → Incoming V → List (Event V) → Bool × List (Event V)
unfolding event_set
msg_enqueue now no_data es = (false, es)
msg_enqueue now lost es = (true, es)
msg_enqueue now unparsed es = (true, es)
msg_enqueue now no_ref es = (true, es)
msg_enqueue now wrong_ref es = (true, es)
msg_enqueue now (event ref value) es =
    (true, event_set (record { ref = ref; value = value; ms_enqueued = now }) es)

-- The loop over the connections: those that stay, those given back, and the events.
unfoldable pub received :
    {V : Type 0}
    → ℕ
    → (ℕ → Incoming V)
    → List OpenEventConn
    → List (Event V)
    → List OpenEventConn × List ℕ × List (Event V)
unfolding msg_enqueue
received now incoming [] es = ([], [], es)
received now incoming (c ∷ conns) es =
    let r = msg_enqueue now (incoming c.conn) es in
    let rest = received now incoming conns r.1 in
    if r.0 then (rest.0, c.conn ∷ rest.1, rest.2) else (c ∷ rest.0, rest.1, rest.2)

unfoldable pub data_receive :
    {V : Type 0} → ℕ → (ℕ → Incoming V) → EventListening V → EventListening V
unfolding received
data_receive now incoming l =
    let r = received now incoming l.conns_open l.events in
    record l { conns_open = r.0; repelled = l.repelled ++ r.1; events = r.2 }

unfoldable pub events_kept : {V : Type 0} → ℕ → List (Event V) → List (Event V)
events_kept now [] = []
events_kept now (e ∷ es) =
    let rest = events_kept now es in
    if ltb (sub32 now e.ms_enqueued) ms_delay_dequeue_max then e ∷ rest else rest

unfoldable pub dequeue_timeouts_check : {V : Type 0} → ℕ → EventListening V → EventListening V
unfolding events_kept
dequeue_timeouts_check now l = record l { events = events_kept now l.events }

-- The entry with a reference, and the others.
unfoldable pub event_take : {V : Type 0} → List ℕ → List (Event V) → Option V × List (Event V)
event_take ref [] = (none, [])
event_take ref (e ∷ es) =
    let rest = event_take ref es in
    if same_str e.ref ref then (some e.value, es) else (rest.0, e ∷ rest.1)

-- `none` is the result 0 of `pop`.
unfoldable pub pop : {V : Type 0} → List ℕ → EventListening V → EventListening V × Option V
unfolding event_take
pop ref l = let r = event_take ref l.events in (record l { events = r.1 }, r.0)

-- What a call of `process` meets; each function reads the clock.
pub record Tick (V : Type 0) : Type 0 where
  pub ms_accept : ℕ
  pub ms_timeout : ℕ
  pub ms_receive : ℕ
  pub ms_dequeue : ℕ
  pub peer : Option (ℕ × Bool)
  pub incoming : ℕ → Incoming V

-- With a listening process that has been created.
unfoldable pub process : {V : Type 0} → Tick V → EventListening V → EventListening V
unfolding connections_accept data_timeouts_check data_receive dequeue_timeouts_check
process t l = elim l.state [
  | start ↦ record l { state = main }
  | main ↦ dequeue_timeouts_check t.ms_dequeue (
      data_receive t.ms_receive t.incoming
        (data_timeouts_check t.ms_timeout (connections_accept t.ms_accept t.peer l)))
]

unfoldable pub process_all : {V : Type 0} → List (Tick V) → EventListening V → EventListening V
unfolding process
process_all [] l = l
process_all (t ∷ ts) l = process_all ts (process t l)
