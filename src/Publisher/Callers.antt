-- ===== src/Publisher/Callers.antt =====
-- internal/desktopapp/trailing_publisher.go: the callers that drain. `enqueue` tells its caller
-- whether it is to call `drain`, and a timer's callback that is told so calls it at once; a caller
-- drains round by round until a round tells it to stop.
pub mod Owned
pub mod Delivery
mod Examples
use dsh_work.Prelude.{ℕ, zero, suc, ◌+◌, Bool, true, false, Option, List, [], ◌∷◌}
use dsh_work.Publisher.{
  Publisher, new_publisher, flush, drain_round, close, enqueue, Step, enqueues, flushes, drains,
  closes,
}

-- The publisher, and how many callers are draining it.
pub record Served (T : Type 0) : Type 0 where
  pub publisher : Publisher T
  pub drainers : ℕ

module _ {T : Type 0} where
  pub new_served : Served T
  new_served = record { publisher = new_publisher; drainers = 0 }

  -- The caller drains if it is told to.
  pub drains_if_told : Publisher T × Bool → ℕ → Served T
  drains_if_told (p, true) n = record { publisher = p; drainers = suc n }
  drains_if_told (p, false) n = record { publisher = p; drainers = n }

  -- A caller goes on, or returns from `drain`.
  goes_on : Publisher T × Bool → ℕ → Served T
  goes_on (p, true) n = record { publisher = p; drainers = suc n }
  goes_on (p, false) n = record { publisher = p; drainers = n }

  -- One round of one of the callers, if there is one.
  drain_by : Publisher T → ℕ → Served T
  unfolding goes_on
  drain_by p zero = record { publisher = p; drainers = 0 }
  drain_by p (suc n) = goes_on (drain_round p) n

  module _ (interval : ℕ) (merge : Option (T → T → T)) where
    pub serve : Served T → ℕ → Step T → Served T
    unfolding drains_if_told drain_by
    serve s now (enqueues v throttle) =
        drains_if_told (enqueue interval merge s.publisher now v throttle) s.drainers
    serve s now (flushes id) = drains_if_told (flush s.publisher now id) s.drainers
    serve s now drains = drain_by s.publisher s.drainers
    serve s now closes = record s { publisher = close s.publisher }

    pub serve_all : Served T → ℕ → List (ℕ × Step T) → Served T
    unfolding serve
    serve_all s now [] = s
    serve_all s now ((delay, e) ∷ rest) = serve_all (serve s (now + delay) e) (now + delay) rest
