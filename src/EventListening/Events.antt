-- ===== src/EventListening/Events.antt =====
-- What is enqueued is taken once.
use processing_common.Common.{
  ℕ, ◌≡◌, ◌∙◌, refl, ap, false, same_str, same_str_self, same_str_eq, List, [], ◌∷◌, some,
  Bool-cases, inl, inr,
}
use processing_common.EventListening.{
  Event, EventListening, event, event_set, msg_enqueue, event_take, pop,
}

event_take-event_set :
    {V : Type 0} (e : Event V) (es : List (Event V))
    → event_take e.ref (event_set e es) ≡ (some e.value, (event_take e.ref es).1)
unfolding event_take event_set
event_take-event_set e [] = rw (same_str_self e.ref) refl
event_take-event_set e (e' ∷ es) = elim (Bool-cases (same_str e'.ref e.ref)) [
  | inl same ↦ simp (same, same_str_self e.ref)
  | inr other ↦ simp (other, event_take-event_set e es)
]

event_take_other :
    {V : Type 0} (e : Event V) (es : List (Event V)) (ref : List ℕ)
    → same_str e.ref ref ≡ false
    → (event_take ref (event_set e es)).0 ≡ (event_take ref es).0
unfolding event_take event_set
event_take_other e [] ref h = rw h refl
event_take_other e (e' ∷ es) ref h = elim (Bool-cases (same_str e'.ref e.ref)) [
  | inl same ↦
      let h' : same_str e'.ref ref ≡ false =
        ap (λ r. same_str r ref) (same_str_eq e'.ref e.ref same) ∙ h in
      simp (same, h, h')
  | inr other ↦ elim (Bool-cases (same_str e'.ref ref)) [
    | inl this ↦ simp (other, this)
    | inr next ↦ simp (other, next) (event_take_other e es ref h)
  ]
]

-- A message that is enqueued is what `pop` of its reference gives next, in place of any older one,
-- and the queue is then what `pop` would have left before; a reference that differs gives the same
-- as before.
pub pop-msg_enqueue :
    {V : Type 0} (now : ℕ) (ref ref' : List ℕ) (value : V) (l : EventListening V)
    → same_str ref ref' ≡ false
    → let l' : EventListening V = record l {
      events = (msg_enqueue now (event ref value) l.events).1;
    } in
      (pop ref l' ≡ ((pop ref l).0, some value)) × ((pop ref' l').1 ≡ (pop ref' l).1)
unfolding pop msg_enqueue
pop-msg_enqueue now ref ref' value l other =
    let e : Event _ = record { ref = ref; value = value; ms_enqueued = now } in
    (
      ap (λ r. (record l { events = r.1 }, r.0)) (event_take-event_set e l.events),
      event_take_other e l.events ref' other,
    )
