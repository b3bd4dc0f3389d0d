-- ===== src/Publisher/Kept.antt =====
-- internal/desktopapp/trailing_publisher.go: with a merge that appends, no throttled value is lost.
use dsh_work.Prelude.{
  ℕ, ◌+◌, ◌-◌, ◌≡◌, refl, sym, ap, ◌∙◌, true, false, not, ◌&&◌, ◌||◌, Option, none, some, List, [],
  ◌∷◌, ◌++◌, ltb, eqb, inl, inr, append_assoc, append-nil, Bool-cases, subst,
}
use dsh_work.Publisher.Rate.{enqueue-hold_back, enqueue-pass_on}
use dsh_work.Publisher.{
  Publisher, new_publisher, clear_pending, enqueue_value, flush_pending, flush, publish_first,
  drain_round, merged, start_timer, hold_back, pass_on, enqueue, Step, enqueues, flushes, drains,
  step, run,
}

-- Throttled values, timers and draining; the publisher is not closed.
pub data Action (A : Type 0) : Type 0 where
  throttled : List A → Action A
  fires : ℕ → Action A
  drained : Action A

module _ {A : Type 0} where
  abbrev pub flat : List (List A) → List A
  flat [] = []
  flat (x ∷ xs) = x ++ flat xs

  abbrev pub waiting : Option (List A) → List A
  waiting none = []
  waiting (some v) = v

  -- All that a publisher has published or holds, in order.
  abbrev pub contents : Publisher (List A) → List A
  contents p = flat p.published ++ (flat p.outbox ++ waiting p.pending)

  abbrev pub as_step : Action A → Step (List A)
  as_step (throttled v) = enqueues v true
  as_step (fires id) = flushes id
  as_step drained = drains

  abbrev pub given : List (ℕ × Action A) → List A
  given [] = []
  given ((delay, throttled v) ∷ rest) = v ++ given rest
  given ((delay, fires id) ∷ rest) = given rest
  given ((delay, drained) ∷ rest) = given rest

  flat-append : (xs ys : List (List A)) → flat (xs ++ ys) ≡ flat xs ++ flat ys
  flat-append [] ys = refl
  flat-append (x ∷ xs) ys =
      ap (λ l. x ++ l) (flat-append xs ys) ∙ sym (append_assoc x (flat xs) (flat ys))

  abbrev pub append_lists : Option (List A → List A → List A)
  append_lists = some (λ v w. v ++ w)

  merged-waiting :
      (interval : ℕ) (o : Option (List A)) (v : List A)
      → merged interval append_lists o v ≡ waiting o ++ v
  unfolding merged
  merged-waiting interval none v = refl
  merged-waiting interval (some w) v = refl

  flat-push : (xs : List (List A)) (v : List A) → flat (xs ++ v ∷ []) ≡ flat xs ++ v
  flat-push xs v = flat-append xs (v ∷ []) ∙ ap (λ l. flat xs ++ l) (append-nil v)

  regroup : (a b c d : List A) → a ++ (b ++ (c ++ d)) ≡ (a ++ (b ++ c)) ++ d
  regroup a b c d = ap (λ l. a ++ l) (sym (append_assoc b c d)) ∙ sym (append_assoc a (b ++ c) d)

  abbrev own : Action A → List A
  own (throttled v) = v
  own (fires id) = []
  own drained = []

  -- A step keeps the publisher open and adds what is its own behind the contents.
  abbrev Keeps : Publisher (List A) → Publisher (List A) → List A → Type 0
  Keeps p q v = (q.closed ≡ false) × (contents q ≡ contents p ++ v)

  start_timer-Keeps :
      (interval now : ℕ) (p : Publisher (List A)) (t : Option (ℕ × ℕ)) (v : List A)
      → p.closed ≡ false
      → Keeps p
          (start_timer interval append_lists
            (record p { pending = some (waiting p.pending ++ v) })
            now
            t)
          v
  unfolding start_timer
  start_timer-Keeps interval now p none v c =
      (c, regroup (flat p.published) (flat p.outbox) (waiting p.pending) v)
  start_timer-Keeps interval now p (some t) v c =
      (c, regroup (flat p.published) (flat p.outbox) (waiting p.pending) v)

  enqueue_value-Keeps :
      (p q : Publisher (List A)) (v w : List A)
      → p.closed ≡ false
      → q.closed ≡ p.closed
      → q.published ≡ p.published
      → q.outbox ≡ p.outbox
      → q.pending ≡ none
      → w ≡ waiting p.pending ++ v
      → Keeps p (enqueue_value q w).0 v
  unfolding enqueue_value
  enqueue_value-Keeps p q v w c k m o n e = (
    k ∙ c,
    rw
        (
          m,
          o,
          n,
          e,
          flat-push p.outbox (waiting p.pending ++ v),
          append-nil (flat p.outbox ++ (waiting p.pending ++ v)),
        )
        (regroup (flat p.published) (flat p.outbox) (waiting p.pending) v),
  )

  enqueue-Keeps :
      (interval now : ℕ) (p : Publisher (List A)) (v : List A)
      → p.closed ≡ false
      → Keeps p (enqueue interval append_lists p now v true).0 v
  enqueue-Keeps interval now p v c =
      elim (Bool-cases (p.has_published && ltb (now - p.last_published) interval)) [
        | inl t ↦ rw (enqueue-hold_back interval append_lists now p v true c t) (
            unfold hold_back in
            rw (merged-waiting interval p.pending v) (start_timer-Keeps interval now p p.timer v c))
        | inr t ↦ rw (enqueue-pass_on interval append_lists now p v true c t) (
            unfold pass_on clear_pending in
            enqueue_value-Keeps p
              (record (clear_pending p) { last_published = now; has_published = true }) v _ c refl
              refl refl refl (merged-waiting interval p.pending v))
      ]

  flush_pending-Keeps :
      (now : ℕ) (p : Publisher (List A)) (o : Option (List A))
      → p.closed ≡ false
      → p.pending ≡ o
      → Keeps p (flush_pending p now o).0 []
  unfolding flush_pending
  flush_pending-Keeps now p none c e = (c, sym (append-nil (contents p)))
  flush_pending-Keeps now p (some v) c e =
      enqueue_value-Keeps p
        (record p { timer = none; pending = none; last_published = now; has_published = true }) [] v
        c refl refl refl refl (rw e (sym (append-nil v)))

  flush-Keeps :
      (now id : ℕ) (p : Publisher (List A)) → p.closed ≡ false → Keeps p (flush p now id).0 []
  unfolding flush
  flush-Keeps now id p c = elim (Bool-cases (p.closed || not (eqb p.timer_id id))) [
    | inl s ↦ simp s ((c, sym (append-nil (contents p))))
    | inr s ↦ simp s (flush_pending-Keeps now p p.pending c refl)
  ]

  publish_first-Keeps :
      (p : Publisher (List A)) (xs : List (List A))
      → p.closed ≡ false
      → p.outbox ≡ xs
      → Keeps p (publish_first p xs).0 []
  unfolding publish_first
  publish_first-Keeps p [] c e =
      (c, rw e (sym (append-nil (flat p.published ++ waiting p.pending))))
  publish_first-Keeps p (v ∷ rest) c e = (
    c,
    rw (e, flat-push p.published v)
        (append_assoc (flat p.published) v (flat rest ++ waiting p.pending)
          ∙ ap (λ l. flat p.published ++ l) (sym (append_assoc v (flat rest) (waiting p.pending)))
          ∙ sym (append-nil (flat p.published ++ ((v ++ flat rest) ++ waiting p.pending)))),
  )

  drain_round-open :
      (p : Publisher (List A)) → p.closed ≡ false → drain_round p ≡ publish_first p p.outbox
  unfolding drain_round
  drain_round-open p c = simp c refl

  step-Keeps :
      (interval now : ℕ) (p : Publisher (List A)) (a : Action A)
      → p.closed ≡ false
      → Keeps p (step interval append_lists p now (as_step a)) (own a)
  unfolding step
  step-Keeps interval now p (throttled v) c = enqueue-Keeps interval now p v c
  step-Keeps interval now p (fires id) c = flush-Keeps now id p c
  step-Keeps interval now p drained c =
      subst (λ r. Keeps p r.0 []) (sym (drain_round-open p c))
        (publish_first-Keeps p p.outbox c refl)

  abbrev pub steps_of : List (ℕ × Action A) → List (ℕ × Step (List A))
  steps_of [] = []
  steps_of ((delay, a) ∷ rest) = (delay, as_step a) ∷ steps_of rest

  given-own :
      (delay : ℕ) (a : Action A) (rest : List (ℕ × Action A))
      → given ((delay, a) ∷ rest) ≡ own a ++ given rest
  given-own delay (throttled v) rest = refl
  given-own delay (fires id) rest = refl
  given-own delay drained rest = refl

  run-contents :
      (interval now : ℕ) (p : Publisher (List A)) (actions : List (ℕ × Action A))
      → p.closed ≡ false
      → contents (run interval append_lists p now (steps_of actions)) ≡ contents p ++ given actions
  unfolding run
  run-contents interval now p [] c = sym (append-nil (contents p))
  run-contents interval now p ((delay, a) ∷ rest) c =
      let k : Keeps p (step interval append_lists p (now + delay) (as_step a)) (own a) =
        step-Keeps interval (now + delay) p a c in
      let q = step interval append_lists p (now + delay) (as_step a) in
      run-contents interval (now + delay) q rest (k.0)
      ∙ ap (λ l. l ++ given rest) (k.1)
      ∙ append_assoc (contents p) (own a) (given rest)
      ∙ ap (λ l. contents p ++ l) (sym (given-own delay a rest))

  -- If the values are lists and the merge appends them: after any throttled values, callbacks of
  -- timers and rounds of draining on a new publisher, with any time between them, what was published,
  -- then the outbox and then the waiting value, are all that was given, in order.
  pub throttled-contents :
      (interval now : ℕ) (actions : List (ℕ × Action A))
      → contents (run interval append_lists new_publisher now (steps_of actions)) ≡ given actions
  unfolding new_publisher
  throttled-contents interval now actions = run-contents interval now new_publisher actions refl
