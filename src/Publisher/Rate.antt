-- ===== src/Publisher/Rate.antt =====
-- internal/desktopapp/trailing_publisher.go: a value that waits has a timer, and values are spaced.
use dsh_work.Prelude.{
  ℕ, ◌+◌, ◌-◌, ◌≤◌, ◌≡◌, refl, sym, Bool, true, false, not, ◌&&◌, ◌||◌, Option, none, some, List,
  [], ◌∷◌, ◌++◌, ltb, eqb, if◌then◌else◌, arith, inl, inr, Bool-cases, subst,
}
use dsh_work.Publisher.{
  Publisher, clear_pending, enqueue_value, flush_pending, flush, publish_first, drain_round, close,
  merged, start_timer, hold_back, pass_on, enqueue, Step, enqueues, flushes, drains, closes, step,
  new_publisher, run,
}

-- The timer is the newest one, and due when the interval has passed; without a timer nothing waits.
abbrev pub TimerFits : {T : Type 0} → ℕ → Publisher T → Option (ℕ × ℕ) → Type 0
TimerFits interval p none = p.pending ≡ none
TimerFits interval p (some (due, id)) =
    (due ≡ p.last_published + interval) × (id ≡ p.timer_id) × (p.has_published ≡ true)

-- The publisher is marked as being drained while something waits in the outbox.
abbrev pub HasDrainer : {T : Type 0} → List T → Bool → Type 0
HasDrainer [] b = Unit
HasDrainer (v ∷ rest) b = b ≡ true

pub record Inv {T : Type 0} (interval now : ℕ) (p : Publisher T) : Type 0 where
  pub past : p.last_published ≤ now
  pub timed : TimerFits interval p p.timer
  pub drained : HasDrainer p.outbox p.draining
  pub shut : p.closed ≡ true → (p.timer ≡ none) × (p.pending ≡ none) × (p.outbox ≡ [])

module _ {T : Type 0} (interval : ℕ) (merge : Option (T → T → T)) where
  pub Inv-later :
      (now delay : ℕ) (p : Publisher T) → Inv interval now p → Inv interval (now + delay) p
  Inv-later now delay p i = record {
    past = omega (arith, i.past);
    timed = i.timed;
    drained = i.drained;
    shut = i.shut;
  }

  HasDrainer-push : (xs : List T) (v : T) → HasDrainer (xs ++ v ∷ []) true
  HasDrainer-push [] v = refl
  HasDrainer-push (x ∷ xs) v = refl

  close-Inv : (now : ℕ) (p : Publisher T) → Inv interval now p → Inv interval now (close p)
  unfolding close clear_pending
  close-Inv now p i = record {
    past = i.past;
    timed = refl;
    drained = tt;
    shut = λ h. (refl, refl, refl);
  }

  HasDrainer-rest : (v : T) (rest : List T) (b : Bool) → HasDrainer (v ∷ rest) b → HasDrainer rest b
  HasDrainer-rest v [] b h = tt
  HasDrainer-rest v (x ∷ rest) b h = h

  publish_first-Inv :
      (now : ℕ) (p : Publisher T) (xs : List T)
      → p.outbox ≡ xs
      → p.closed ≡ false
      → Inv interval now p
      → Inv interval now (publish_first p xs).0
  unfolding publish_first
  publish_first-Inv now p [] e c i = record {
    past = i.past;
    timed = i.timed;
    drained = tt;
    shut = λ h. absurd (ground arith);
  }
  publish_first-Inv now p (v ∷ rest) e c i = record {
    past = i.past;
    timed = i.timed;
    drained =
        HasDrainer-rest v rest p.draining (subst (λ xs. HasDrainer xs p.draining) e i.drained);
    shut = λ h. absurd (ground arith);
  }

  drain_round-Inv :
      (now : ℕ) (p : Publisher T) → Inv interval now p → Inv interval now (drain_round p).0
  unfolding drain_round
  drain_round-Inv now p i = elim (Bool-cases p.closed) [
    | inl c ↦ simp c (record {
      past = i.past;
      timed = i.timed;
      drained = tt;
      shut = λ h. ((i.shut c).0, (i.shut c).1, refl);
    })
    | inr c ↦ simp c (publish_first-Inv now p p.outbox refl c i)
  ]

  -- A value goes to the outbox, and nothing waits for a timer.
  enqueue_value-Inv :
      (now : ℕ) (p : Publisher T) (v : T)
      → p.closed ≡ false
      → p.last_published ≤ now
      → p.timer ≡ none
      → p.pending ≡ none
      → Inv interval now (enqueue_value p v).0
  unfolding enqueue_value
  enqueue_value-Inv now p v c l t n = record {
    past = l;
    timed = subst (TimerFits interval p) (sym t) n;
    drained = HasDrainer-push p.outbox v;
    shut = λ h. absurd (ground arith);
  }

  flush_pending-Inv :
      (now : ℕ) (p : Publisher T) (o : Option T)
      → p.pending ≡ o
      → p.closed ≡ false
      → Inv interval now p
      → Inv interval now (flush_pending p now o).0
  unfolding flush_pending
  flush_pending-Inv now p none e c i = record {
    past = i.past;
    timed = e;
    drained = i.drained;
    shut = λ h. absurd (ground arith);
  }
  flush_pending-Inv now p (some v) e c i =
      enqueue_value-Inv now
        (record p { timer = none; pending = none; last_published = now; has_published = true }) v c
        (omega arith) refl refl

  flush-Inv :
      (now id : ℕ) (p : Publisher T) → Inv interval now p → Inv interval now (flush p now id).0
  unfolding flush
  flush-Inv now id p i = elim (Bool-cases (p.closed || not (eqb p.timer_id id))) [
    | inl c ↦ simp c i
    | inr c ↦ simp c (flush_pending-Inv now p p.pending refl (ground arith) i)
  ]

  pass_on-Inv :
      (now : ℕ) (p : Publisher T) (v : T)
      → p.closed ≡ false
      → Inv interval now p
      → Inv interval now (pass_on interval merge p now v).0
  unfolding pass_on clear_pending
  pass_on-Inv now p v c i =
      enqueue_value-Inv now
        (record (clear_pending p) { last_published = now; has_published = true }) v c (omega arith)
        refl refl

  start_timer-Inv :
      (now : ℕ) (p : Publisher T) (t : Option (ℕ × ℕ)) (v : T)
      → p.timer ≡ t
      → p.closed ≡ false
      → p.has_published ≡ true
      → ltb (now - p.last_published) interval ≡ true
      → Inv interval now p
      → Inv interval now (start_timer interval merge (record p { pending = some v }) now t)
  unfolding start_timer
  start_timer-Inv now p none v e c h l i = record {
    past = i.past;
    timed = (ground (arith, i.past), refl, h);
    drained = i.drained;
    shut = λ s. absurd (ground arith);
  }
  start_timer-Inv now p (some (due, id)) v e c h l i = record {
    past = i.past;
    timed =
        subst (TimerFits interval (record p { pending = some v })) (sym e)
          (subst (TimerFits interval p) e i.timed);
    drained = i.drained;
    shut = λ s. absurd (ground arith);
  }

  pub enqueue-hold_back :
      (now : ℕ) (p : Publisher T) (v : T) (throttle : Bool)
      → p.closed ≡ false
      → (throttle && p.has_published && ltb (now - p.last_published) interval) ≡ true
      → (enqueue interval merge p now v throttle).0 ≡ hold_back interval merge p now v
  unfolding enqueue hold_back
  enqueue-hold_back now p v throttle c t = simp (c, t) refl

  pub enqueue-pass_on :
      (now : ℕ) (p : Publisher T) (v : T) (throttle : Bool)
      → p.closed ≡ false
      → (throttle && p.has_published && ltb (now - p.last_published) interval) ≡ false
      → enqueue interval merge p now v throttle
        ≡ pass_on interval merge p now (if throttle then merged interval merge p.pending v else v)
  unfolding enqueue
  enqueue-pass_on now p v throttle c t = simp (c, t) refl

  enqueue-Inv :
      (now : ℕ) (p : Publisher T) (v : T) (throttle : Bool)
      → Inv interval now p
      → Inv interval now (enqueue interval merge p now v throttle).0
  enqueue-Inv now p v throttle i = elim (Bool-cases p.closed) [
    | inl c ↦ unfold enqueue in simp c i
    | inr c ↦
        elim (Bool-cases (throttle && p.has_published && ltb (now - p.last_published) interval)) [
          | inl t ↦ subst (Inv interval now) (sym (enqueue-hold_back now p v throttle c t)) (
              unfold hold_back in
              start_timer-Inv now p p.timer (merged interval merge p.pending v) refl c
                (ground arith) (ground arith) i)
          | inr t ↦
              subst (λ r. Inv interval now r.0) (sym (enqueue-pass_on now p v throttle c t))
                (pass_on-Inv now p _ c i)
        ]
  ]

  pub step-Inv :
      (now : ℕ) (p : Publisher T) (s : Step T)
      → Inv interval now p
      → Inv interval now (step interval merge p now s)
  unfolding step
  step-Inv now p (enqueues v throttle) i = enqueue-Inv now p v throttle i
  step-Inv now p (flushes id) i = flush-Inv now id p i
  step-Inv now p drains i = drain_round-Inv now p i
  step-Inv now p closes i = close-Inv now p i

  unfoldable pub elapsed : ℕ → List (ℕ × Step T) → ℕ
  elapsed now [] = now
  elapsed now ((delay, s) ∷ rest) = elapsed (now + delay) rest

  run-Inv :
      (p : Publisher T) (now : ℕ) (steps : List (ℕ × Step T))
      → Inv interval now p
      → Inv interval (elapsed now steps) (run interval merge p now steps)
  unfolding run elapsed
  run-Inv p now [] i = i
  run-Inv p now ((delay, s) ∷ rest) i =
      run-Inv (step interval merge p (now + delay) s) (now + delay) rest
        (step-Inv (now + delay) p s (Inv-later now delay p i))

  pub new_publisher-Inv : (now : ℕ) → Inv interval now (new_publisher {T = T})
  unfolding new_publisher
  new_publisher-Inv now = record {
    past = omega arith;
    timed = refl;
    drained = tt;
    shut = λ h. absurd (ground arith);
  }
