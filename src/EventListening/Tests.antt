-- ===== src/EventListening/Tests.antt =====
-- Runs of EventListening.cpp on small inputs, with numbers as messages.
use processing_common.Common.{ℕ, ◌≡◌, refl, true, List, [], ◌∷◌, some, same_str}
use processing_common.EventListening.{
  no_data, event, EventListening, new_listening, Tick, msg_enqueue, pop, process_all,
}
use processing_common.EventListening.Events.{pop-msg_enqueue}
use processing_common.EventListening.Conns.{IsAccounted, given_all, process_all-IsAccounted}

abbrev listening : EventListening ℕ
listening = new_listening

abbrev key : List ℕ
key = b'a' ∷ []

abbrev other_key : List ℕ
other_key = b'b' ∷ []

pop-msg_enqueue_example :
    let l' : EventListening ℕ = record listening {
      events = (msg_enqueue 5 (event key 7) listening.events).1;
    } in
    (pop key l' ≡ ((pop key listening).0, some 7))
    × ((pop other_key l').1 ≡ (pop other_key listening).1)
unfolding same_str
pop-msg_enqueue_example = pop-msg_enqueue 5 key other_key 7 listening refl

abbrev tick : ℕ → Tick ℕ
tick now = record {
  ms_accept = now;
  ms_timeout = now;
  ms_receive = now;
  ms_dequeue = now;
  peer = some (now, true);
  incoming = λ fd. no_data;
}

process_all-IsAccounted_example :
    IsAccounted
      (given_all (tick 1 ∷ tick 400 ∷ []))
      (process_all (tick 0 ∷ tick 1 ∷ tick 400 ∷ []) listening)
process_all-IsAccounted_example = process_all-IsAccounted (tick 0) (tick 1 ∷ tick 400 ∷ [])
