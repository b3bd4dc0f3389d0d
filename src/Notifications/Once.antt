-- ===== src/Notifications/Once.antt =====
-- internal/notifications/router.go: what a sequence of publications hands to the delivery.
use mathlib.Core.Bool.{true≢false}
use dsh_work.Prelude.{
  ℕ, suc, ◌+◌, ◌≤◌, ◌<◌, String, ◌≡◌, refl, sym, ap, ◌∙◌, ◌⊎◌, inl, inr, Bool, true, false, not,
  ◌&&◌, Option, none, some, List, [], ◌∷◌, ◌++◌, length, length-append, arith, eq_iff, Bool-cases,
  subst, lt→ltb,
}
use dsh_work.Notifications.Recall.{Memory, remember, max_remembered_events}
use dsh_work.Notifications.Recall.Ring.{Inv, window, remember-refines, remember_spec}
use dsh_work.Notifications.Recall.Queue.{window-new_memory, new_memory-Inv}
use dsh_work.Notifications.Recall.Slices.{member-append, Distinct, member}
use dsh_work.Notifications.{
  Preferences, Event, Router, Surroundings, Outcome, Effect, sends, reports_failure, publish,
  publish_event, publish_fresh, decide_delivery, deliver, normalize_event, allows, new_router,
  is_active, may_interrupt,
}

-- The identifiers of the events that were handed to the delivery.
abbrev pub sent : List Effect → List String
sent [] = []
sent (sends e ∷ rest) = e.id ∷ sent rest
sent (reports_failure e ∷ rest) = sent rest

unfoldable pub publish_all : Router → List (Surroundings × Event) → List Effect
publish_all r [] = []
publish_all r ((w, e) ∷ rest) = (publish r w e).1.1 ++ publish_all (publish r w e).0 rest

sent-append : (xs ys : List Effect) → sent (xs ++ ys) ≡ sent xs ++ sent ys
sent-append [] ys = refl
sent-append (sends e ∷ xs) ys = ap (λ l. e.id ∷ l) (sent-append xs ys)
sent-append (reports_failure e ∷ xs) ys = sent-append xs ys

sent-deliver :
    (w : Surroundings) (e : Event)
    → (sent (deliver w e).1 ≡ []) ⊎ (sent (deliver w e).1 ≡ e.id ∷ [])
unfolding deliver
sent-deliver w e = ground arith

sent-decide_delivery :
    (p : Preferences) (w : Surroundings) (e : Event)
    → (sent (decide_delivery p w e).1 ≡ []) ⊎ (sent (decide_delivery p w e).1 ≡ e.id ∷ [])
unfolding decide_delivery
sent-decide_delivery p w e = elim (Bool-cases (not (allows p e.class))) [
  | inl a ↦ rw a (inl refl)
  | inr a ↦ rw a (elim (Bool-cases (is_active w.active && not (may_interrupt e))) [
    | inl b ↦ rw b (inl refl)
    | inr b ↦ rw b (sent-deliver w e)
  ])
]

-- What one publication does, as far as the memory tells: nothing is sent, or a new identifier is.
data Published (r : Router) (x : Router × Outcome) : Type 0 where
  silent : x.0.memory ≡ r.memory → sent x.1.1 ≡ [] → Published r x
  remembered :
      (id : String)
      → (remember max_remembered_events r.memory id).1 ≡ true
      → x.0.memory ≡ (remember max_remembered_events r.memory id).0
      → (sent x.1.1 ≡ []) ⊎ (sent x.1.1 ≡ id ∷ [])
      → Published r x

publish_fresh-Published :
    (r : Router) (w : Surroundings) (e : Event) (x : Memory × Bool)
    → remember max_remembered_events r.memory e.id ≡ x
    → Published r (publish_fresh r w e x)
unfolding publish_fresh
publish_fresh-Published r w e (m, false) h = silent refl refl
publish_fresh-Published r w e (m, true) h =
    remembered e.id (ap (λ y. y.1) h) (sym (ap (λ y. y.0) h))
      (sent-decide_delivery r.preferences w e)

publish_event-Published :
    (r : Router) (w : Surroundings) (o : Option Event) → Published r (publish_event r w o)
unfolding publish_event
publish_event-Published r w none = silent refl refl
publish_event-Published r w (some e) = publish_fresh-Published r w e _ refl

publish-Published : (r : Router) (w : Surroundings) (e : Event) → Published r (publish r w e)
unfolding publish decide_delivery
publish-Published r w e = elim (Bool-cases w.ended) [
  | inl ended ↦ rw ended (silent refl refl)
  | inr live ↦ rw live (publish_event-Published r w (normalize_event e))
]

-- A new identifier goes behind the others while there is room.
remember_spec-new :
    (ids : List String) (id : String)
    → length ids < max_remembered_events
    → (remember_spec max_remembered_events ids id).1 ≡ true
    → (member id ids ≡ false) × ((remember_spec max_remembered_events ids id).0 ≡ ids ++ id ∷ [])
remember_spec-new ids id room new = elim (Bool-cases (member id ids)) [
  | inl old ↦ absurd (true≢false (sym new ∙ rw old refl))
  | inr fresh ↦ (fresh, rw (fresh, lt→ltb (length ids) max_remembered_events room) refl)
]

-- The identifiers are distinct, and none of them is remembered.
abbrev IsFresh : List String → List String → Type 0
IsFresh ids remembered_ids =
    Distinct ids × ((k : String) → member k remembered_ids ≡ true → member k ids ≡ false)

IsFresh-send :
    (ids ws now : List String) (id : String)
    → IsFresh ids (ws ++ id ∷ [])
    → member id ws ≡ false
    → (now ≡ []) ⊎ (now ≡ id ∷ [])
    → IsFresh (now ++ ids) ws
IsFresh-send ids ws now id f n (inl none_sent) =
    rw none_sent (f.0, λ k h. f.1 k (ground (arith, member-append k ws (id ∷ []))))
IsFresh-send ids ws now id f n (inr one_sent) = rw one_sent (
  (f.1 id (ground (arith, member-append id ws (id ∷ []), eq_iff id id)), f.0),
  λ k h. ground (arith, h, n, f.1 k (ground (arith, member-append k ws (id ∷ []))), eq_iff id k),
)

Published-IsFresh :
    (r : Router) (x : Router × Outcome) (n : ℕ) (rest : List Effect)
    → Inv max_remembered_events r.memory
    → length (window max_remembered_events r.memory) + suc n ≤ max_remembered_events
    → Published r x
    → (Inv max_remembered_events x.0.memory
        → length (window max_remembered_events x.0.memory) + n ≤ max_remembered_events
        → IsFresh (sent rest) (window max_remembered_events x.0.memory))
    → IsFresh (sent (x.1.1 ++ rest)) (window max_remembered_events r.memory)
Published-IsFresh r x n rest i room (silent m e) next =
    rw (sent-append x.1.1 rest, e) (rw m at (next (rw m i) (rw m (omega arith))))
Published-IsFresh r x n rest i room (remembered id new m e) next =
    let q = remember-refines max_remembered_events r.memory id i in
    let w =
      remember_spec-new (window max_remembered_events r.memory) id (omega arith) (sym q.1 ∙ new) in
    let v = ap (window max_remembered_events) m ∙ q.0 ∙ w.1 in
    rw (sent-append x.1.1 rest) (
      IsFresh-send (sent rest) (window max_remembered_events r.memory) (sent x.1.1) id
        (subst (IsFresh (sent rest)) v (
          next (rw m q.2) (
            omega (
              arith,
              ap length v,
              length-append (window max_remembered_events r.memory) (id ∷ []),
            ))))
        w.0 e)

publish_all-IsFresh :
    (r : Router) (es : List (Surroundings × Event))
    → Inv max_remembered_events r.memory
    → length (window max_remembered_events r.memory) + length es ≤ max_remembered_events
    → IsFresh (sent (publish_all r es)) (window max_remembered_events r.memory)
unfolding publish_all
publish_all-IsFresh r [] i room = (tt, λ k h. refl)
publish_all-IsFresh r ((w, e) ∷ es) i room =
    Published-IsFresh r (publish r w e) (length es) (publish_all (publish r w e).0 es) i room
      (publish-Published r w e) (publish_all-IsFresh (publish r w e).0 es)

-- Of at most 1024 publications to a new router, in whatever surroundings, no two hand an event of
-- one identifier to the delivery.
pub sends_once :
    (es : List (Surroundings × Event))
    → length es ≤ max_remembered_events
    → Distinct (sent (publish_all new_router es))
sends_once es h =
    (publish_all-IsFresh new_router es
      (unfold new_router in new_memory-Inv max_remembered_events (omega arith))
      (unfold new_router in
        rw (window-new_memory max_remembered_events (omega arith)) (omega (arith, h)))).0
