-- ===== src/Publisher/Callers/Owned.antt =====
-- internal/desktopapp/trailing_publisher.go: a value in the outbox has one caller that drains it.
use dsh_work.Prelude.{
  ℕ, zero, suc, ◌+◌, ◌-◌, ◌≤◌, ◌≡◌, refl, ap, ◌∙◌, Bool, true, false, not, ◌&&◌, ◌||◌, Option, none,
  some, List, [], ◌∷◌, ltb, eqb, if◌then◌else◌, arith, inl, inr, Bool-cases,
}
use dsh_work.Publisher.{
  Publisher, clear_pending, enqueue_value, flush_pending, flush, publish_first, drain_round, close,
  start_timer, hold_back, pass_on, enqueue, Step, enqueues, flushes, drains, closes, step,
  new_publisher,
}
use dsh_work.Publisher.Rate.{
  TimerFits, HasDrainer, Inv, step-Inv, Inv-later, new_publisher-Inv, elapsed,
}
use dsh_work.Publisher.Callers.{
  Served, new_served, drains_if_told, goes_on, drain_by, serve, serve_all,
}

abbrev pub count : Bool → ℕ
count true = 1
count false = 0

-- There is a caller exactly if the publisher is being drained.
abbrev pub Fits : {T : Type 0} → Served T → Type 0
Fits s = s.drainers ≡ count s.publisher.draining

-- The result tells whether a draining has begun.
abbrev Tells : {T : Type 0} → Publisher T → Publisher T × Bool → Type 0
Tells p (q, told) = count q.draining ≡ count p.draining + count told

-- What is enqueued is drained from then on, by its caller unless there was one.
count-begun : (b : Bool) → count true ≡ count b + count (not b)
count-begun true = omega arith
count-begun false = omega arith

module _ {T : Type 0} where
  Fits-told :
      (p : Publisher T) (r : Publisher T × Bool) (n : ℕ)
      → Tells p r
      → n ≡ count p.draining
      → Fits (drains_if_told r n)
  unfolding drains_if_told
  Fits-told p (q, true) n t e = omega (arith, t, e)
  Fits-told p (q, false) n t e = omega (arith, t, e)

  Tells-if :
      (p : Publisher T) (t : Bool) (x y : Publisher T × Bool)
      → Tells p x
      → Tells p y
      → Tells p (if t then x else y)
  Tells-if p true x y h k = h
  Tells-if p false x y h k = k

  Tells-flush_pending : (p : Publisher T) (now : ℕ) (o : Option T) → Tells p (flush_pending p now o)
  unfolding flush_pending enqueue_value
  Tells-flush_pending p now none = omega arith
  Tells-flush_pending p now (some v) = count-begun p.draining

  Tells-flush : (p : Publisher T) (now id : ℕ) → Tells p (flush p now id)
  unfolding flush
  Tells-flush p now id =
      Tells-if p (p.closed || not (eqb p.timer_id id)) _ _ (omega arith)
        (Tells-flush_pending p now p.pending)

  -- After a round: the caller that made it goes on exactly if the draining does.
  Fits-publish_first :
      (p : Publisher T) (xs : List T) (n : ℕ)
      → suc n ≡ count p.draining
      → Fits (goes_on (publish_first p xs) n)
  unfolding goes_on publish_first
  Fits-publish_first p [] n e = ground arith
  Fits-publish_first p (v ∷ rest) n e = e

  Fits-drain_by : (p : Publisher T) (n : ℕ) → n ≡ count p.draining → Fits (drain_by p n)
  unfolding drain_by drain_round
  Fits-drain_by p zero e = e
  Fits-drain_by p (suc n) e = elim (Bool-cases p.closed) [
    | inl c ↦ simp c (unfold goes_on in ground arith)
    | inr c ↦ simp c (Fits-publish_first p p.outbox n e)
  ]

  module _ (interval : ℕ) (merge : Option (T → T → T)) where
    held-draining :
        (p : Publisher T) (now : ℕ) (t : Option (ℕ × ℕ))
        → (start_timer interval merge p now t).draining ≡ p.draining
    unfolding start_timer
    held-draining p now none = refl
    held-draining p now (some t) = refl

    Tells-enqueue :
        (p : Publisher T) (now : ℕ) (v : T) (throttle : Bool)
        → Tells p (enqueue interval merge p now v throttle)
    unfolding enqueue hold_back pass_on clear_pending enqueue_value
    Tells-enqueue p now v throttle = Tells-if p p.closed _ _ (omega arith) (
        Tells-if p (throttle && p.has_published && ltb (now - p.last_published) interval) _ _
          (omega (arith, ap count (held-draining _ now p.timer))) (count-begun p.draining))

    Fits-serve :
        (s : Served T) (now : ℕ) (e : Step T) → Fits s → Fits (serve interval merge s now e)
    unfolding serve close clear_pending
    Fits-serve s now (enqueues v throttle) f =
        Fits-told s.publisher _ s.drainers (Tells-enqueue s.publisher now v throttle) f
    Fits-serve s now (flushes id) f =
        Fits-told s.publisher _ s.drainers (Tells-flush s.publisher now id) f
    Fits-serve s now drains f = Fits-drain_by s.publisher s.drainers f
    Fits-serve s now closes f = f

    Inv-told :
        (now : ℕ) (r : Publisher T × Bool) (n : ℕ)
        → Inv interval now r.0
        → Inv interval now (drains_if_told r n).publisher
    unfolding drains_if_told
    Inv-told now (q, true) n i = i
    Inv-told now (q, false) n i = i

    Inv-goes_on :
        (now : ℕ) (r : Publisher T × Bool) (n : ℕ)
        → Inv interval now r.0
        → Inv interval now (goes_on r n).publisher
    unfolding goes_on
    Inv-goes_on now (q, true) n i = i
    Inv-goes_on now (q, false) n i = i

    Inv-drain_by :
        (now : ℕ) (p : Publisher T) (n : ℕ)
        → Inv interval now p
        → Inv interval now (drain_by p n).publisher
    unfolding drain_by
    Inv-drain_by now p zero i = i
    Inv-drain_by now p (suc n) i =
        Inv-goes_on now (drain_round p) n (unfold step in step-Inv interval merge now p drains i)

    Inv-serve :
        (now : ℕ) (s : Served T) (e : Step T)
        → Inv interval now s.publisher
        → Inv interval now (serve interval merge s now e).publisher
    unfolding serve step
    Inv-serve now s (enqueues v throttle) i =
        Inv-told now (enqueue interval merge s.publisher now v throttle) s.drainers
          (step-Inv interval merge now s.publisher (enqueues v throttle) i)
    Inv-serve now s (flushes id) i =
        Inv-told now (flush s.publisher now id) s.drainers
          (step-Inv interval merge now s.publisher (flushes id) i)
    Inv-serve now s drains i = Inv-drain_by now s.publisher s.drainers i
    Inv-serve now s closes i = step-Inv interval merge now s.publisher closes i

    serve_all-Inv :
        (s : Served T) (now : ℕ) (steps : List (ℕ × Step T))
        → Inv interval now s.publisher
        → Fits s
        → Inv interval
            (elapsed interval merge now steps)
            (serve_all interval merge s now steps).publisher
          × Fits (serve_all interval merge s now steps)
    unfolding serve_all elapsed
    serve_all-Inv s now [] i f = (i, f)
    serve_all-Inv s now ((delay, e) ∷ rest) i f =
        serve_all-Inv (serve interval merge s (now + delay) e) (now + delay) rest
          (Inv-serve (now + delay) s e (Inv-later interval merge now delay s.publisher i))
          (Fits-serve s (now + delay) e f)

    pub new_served-Inv :
        (now : ℕ) (steps : List (ℕ × Step T))
        → Inv interval
            (elapsed interval merge now steps)
            (serve_all interval merge new_served now steps).publisher
          × Fits (serve_all interval merge new_served now steps)
    unfolding new_served new_publisher
    new_served-Inv now steps =
        serve_all-Inv new_served now steps (new_publisher-Inv interval merge now) refl

-- What waits in the outbox has one caller that drains it.
abbrev pub IsDrained : {T : Type 0} → List T → ℕ → Type 0
IsDrained [] n = Unit
IsDrained (v ∷ rest) n = n ≡ 1

pub record IsServed {T : Type 0} (interval now : ℕ) (s : Served T) : Type 0 where
  pub past : s.publisher.last_published ≤ now
  pub timed : TimerFits interval s.publisher s.publisher.timer
  pub one : s.drainers ≤ 1
  pub drained : IsDrained s.publisher.outbox s.drainers
  pub shut :
      s.publisher.closed ≡ true
      → (s.publisher.timer ≡ none) × (s.publisher.pending ≡ none) × (s.publisher.outbox ≡ [])

count-one : (b : Bool) → count b ≤ 1
count-one true = omega arith
count-one false = omega arith

module _ {T : Type 0} where
  IsDrained-count :
      (xs : List T) (b : Bool) (n : ℕ) → HasDrainer xs b → n ≡ count b → IsDrained xs n
  IsDrained-count [] b n h e = tt
  IsDrained-count (v ∷ rest) b n h e = e ∙ ap count h

  -- After any steps of a new publisher and of the callers that it tells to drain, with any time
  -- between them: a timer that runs is the newest and due one interval after the last publication,
  -- nothing waits without a timer, at most one caller drains, a value in the outbox has a caller that
  -- drains it, and a closed publisher holds no timer and no value.
  pub serve_all-IsServed :
      (interval : ℕ) (merge : Option (T → T → T)) (now : ℕ) (steps : List (ℕ × Step T))
      → IsServed interval
          (elapsed interval merge now steps)
          (serve_all interval merge new_served now steps)
  serve_all-IsServed interval merge now steps =
      let s = serve_all interval merge new_served now steps in
      let (i, f) = new_served-Inv interval merge now steps in
      record {
        past = i.past;
        timed = i.timed;
        one = omega (arith, f, count-one s.publisher.draining);
        drained = IsDrained-count s.publisher.outbox s.publisher.draining s.drainers i.drained f;
        shut = i.shut;
      }
