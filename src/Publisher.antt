-- ===== src/Publisher.antt =====
-- internal/desktopapp/trailing_publisher.go: a stream of values at a limited rate. A method is its
-- section under the lock; a timer that runs off and a round of the draining loop are steps of their
-- own. Times are nanoseconds of the monotonic clock, given by the caller; `publish` is set.
pub mod Rate
pub mod Kept
pub mod Callers
mod Examples
use dsh_work.Prelude.{
  ℕ, zero, suc, ◌+◌, ◌-◌, Bool, true, false, not, ◌&&◌, ◌||◌, Option, none, some, List, [], ◌∷◌,
  ◌++◌, ltb, eqb, if◌then◌else◌,
}

-- `timer` holds when the running timer is due and the identifier that its callback was made with;
-- `published` holds the values that `publish` was called with, in order.
pub record Publisher (T : Type 0) : Type 0 where
  pub last_published : ℕ
  pub has_published : Bool
  pub pending : Option T
  pub timer : Option (ℕ × ℕ)
  pub timer_id : ℕ
  pub outbox : List T
  pub draining : Bool
  pub closed : Bool
  pub published : List T

next_id : Option (ℕ × ℕ) → ℕ → ℕ
next_id none id = id
next_id (some timer) id = id + 1

module _ {T : Type 0} where
  pub new_publisher : Publisher T
  new_publisher = record {
    last_published = 0;
    has_published = false;
    pending = none;
    timer = none;
    timer_id = 0;
    outbox = [];
    draining = false;
    closed = false;
    published = [];
  }

  -- `clearPendingLocked`
  clear_pending : Publisher T → Publisher T
  unfolding next_id
  clear_pending p = record p { timer = none; timer_id = next_id p.timer p.timer_id; pending = none }

  -- `enqueueLocked`; the result tells whether the caller owns the draining.
  enqueue_value : Publisher T → T → Publisher T × Bool
  enqueue_value p v = (record p { outbox = p.outbox ++ v ∷ []; draining = true }, not p.draining)

  -- `flush`, for the callback of the timer that was made with the identifier.
  flush_pending : Publisher T → ℕ → Option T → Publisher T × Bool
  unfolding enqueue_value
  flush_pending p now none = (record p { timer = none }, false)
  flush_pending p now (some v) =
      enqueue_value
        (record p { timer = none; pending = none; last_published = now; has_published = true }) v

  pub flush : Publisher T → ℕ → ℕ → Publisher T × Bool
  unfolding flush_pending
  flush p now id =
      if p.closed || not (eqb p.timer_id id) then (p, false) else flush_pending p now p.pending

  publish_first : Publisher T → List T → Publisher T × Bool
  publish_first p [] = (record p { outbox = []; draining = false }, false)
  publish_first p (v ∷ rest) = (record p { outbox = rest; published = p.published ++ v ∷ [] }, true)

  -- One round of the loop of `drain`, with its publication; the result tells whether it goes on.
  pub drain_round : Publisher T → Publisher T × Bool
  unfolding publish_first
  drain_round p =
      if p.closed
      then (record p { outbox = []; draining = false }, false)
      else publish_first p p.outbox

  pub close : Publisher T → Publisher T
  unfolding clear_pending
  close p = record (clear_pending (record p { closed = true })) { outbox = [] }

  -- Of the publisher: its interval, and how two values are merged, if they are.
  module _ (interval : ℕ) (merge : Option (T → T → T)) where
    pub merged : Option T → T → T
    merged none v = v
    merged (some w) v = elim merge [ none ↦ v | some f ↦ f w v ]

    start_timer : Publisher T → ℕ → Option (ℕ × ℕ) → Publisher T
    start_timer p now (some timer) = p
    start_timer p now none = record p {
      timer_id = p.timer_id + 1;
      timer = some (now + (interval - (now - p.last_published)), p.timer_id + 1);
    }

    -- The value waits for the end of the interval.
    pub hold_back : Publisher T → ℕ → T → Publisher T
    unfolding merged start_timer
    hold_back p now v = start_timer (record p { pending = some (merged p.pending v) }) now p.timer

    pub pass_on : Publisher T → ℕ → T → Publisher T × Bool
    unfolding clear_pending enqueue_value
    pass_on p now v =
        enqueue_value (record (clear_pending p) { last_published = now; has_published = true }) v

    pub enqueue : Publisher T → ℕ → T → Bool → Publisher T × Bool
    unfolding hold_back pass_on
    enqueue p now v throttle =
        if p.closed
        then (p, false)
        else if throttle && p.has_published && ltb (now - p.last_published) interval
        then (hold_back p now v, false)
        else pass_on p now (if throttle then merged p.pending v else v)

-- The sections under the lock, in any order. A flush is of the timer with the identifier.
pub data Step (T : Type 0) : Type 0 where
  enqueues : T → Bool → Step T
  flushes : ℕ → Step T
  drains closes : Step T

module _ {T : Type 0} (interval : ℕ) (merge : Option (T → T → T)) where
  pub step : Publisher T → ℕ → Step T → Publisher T
  step p now (enqueues v throttle) = (enqueue interval merge p now v throttle).0
  step p now (flushes id) = (flush p now id).0
  step p now drains = (drain_round p).0
  step p now closes = close p

  -- Each step comes some time after the one before it.
  pub run : Publisher T → ℕ → List (ℕ × Step T) → Publisher T
  run p now [] = p
  run p now ((delay, s) ∷ rest) = run (step p (now + delay) s) (now + delay) rest
