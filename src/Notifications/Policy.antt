-- ===== src/Notifications/Policy.antt =====
-- internal/notifications/router.go: an event is delivered at most once, and only if it may be.
use dsh_work.Prelude.{
  ◌≡◌, ◌≢◌, refl, sym, ap, inl, inr, Bool, true, false, none, some, [], Bool-cases, Option-cases,
}
use dsh_work.Notifications.Recall.{Memory, remember, max_remembered_events}
use dsh_work.Notifications.Recall.Ring.{remember_twice, remember-unchanged}
use dsh_work.Notifications.{
  Event, Router, Surroundings, context_ended, invalid_event, publish, publish_event, publish_fresh,
  decide_delivery, normalize_event,
}

publish_fresh-memory :
    (r : Router) (w : Surroundings) (e : Event) (x : Memory × Bool)
    → (x.1 ≡ false → x.0 ≡ r.memory)
    → (publish_fresh r w e x).0.memory ≡ x.0
unfolding publish_fresh
publish_fresh-memory r w e (m, true) h = refl
publish_fresh-memory r w e (m, false) h = sym (h refl)

publish_event-memory :
    (r : Router) (w : Surroundings) (e : Event)
    → (publish_event r w (some e)).0.memory ≡ (remember max_remembered_events r.memory e.id).0
unfolding publish_event
publish_event-memory r w e =
    publish_fresh-memory r w e (remember max_remembered_events r.memory e.id)
      (remember-unchanged max_remembered_events r.memory e.id)

publish_event-old :
    (r : Router) (w : Surroundings) (e : Event)
    → remember max_remembered_events r.memory e.id ≡ (r.memory, false)
    → publish_event r w (some e) ≡ (r, (none, []))
unfolding publish_event publish_fresh
publish_event-old r w e h = ap (publish_fresh r w e) h

publish_event_twice :
    (r : Router) (w w' : Surroundings) (e : Event)
    → publish_event (publish_event r w (some e)).0 w' (some e)
      ≡ ((publish_event r w (some e)).0, (none, []))
publish_event_twice r w w' e =
    publish_event-old (publish_event r w (some e)).0 w' e
      (rw (publish_event-memory r w e) (remember_twice max_remembered_events r.memory e.id))

-- An event that passed the checks is used up: publishing it again, whatever became of the first
-- delivery, makes no call, is no error and changes nothing.
pub publish_twice :
    (r : Router) (w w' : Surroundings) (e : Event)
    → (publish r w e).1.0 ≢ some context_ended
    → (publish r w e).1.0 ≢ some invalid_event
    → w'.ended ≡ false
    → publish (publish r w e).0 w' e ≡ ((publish r w e).0, (none, []))
unfolding publish decide_delivery
publish_twice r w w' e a b c = elim (Bool-cases w.ended) [
  | inl ended ↦ absurd (a (rw ended))
  | inr live ↦ elim (Option-cases (normalize_event e)) [
    | inl none_left ↦ absurd (b (rw (live, none_left, publish_event)))
    | inr (n, found) ↦ rw (c, live, found) (publish_event_twice r w w' n)
  ]
]
