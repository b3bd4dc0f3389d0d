-- ===== src/Lifecycle/QuitFlow/Ordered.antt =====
-- internal/lifecycle/quit_flow.go: the calls of a managed quit, and their order.
use dsh_work.Prelude.{ℕ, zero, suc, ◌≡◌, ◌⊎◌, Bool, true, false, List, [], ◌∷◌, ◌++◌}
use dsh_work.Lifecycle.QuitFlow.{
  Action, state_changed, hide, cleanup, on_failure, quit, Task, no_task, in_cleanup, failed_cleanup,
  finished, Flow, Step, request, releases, returns,
}

-- The calls of an attempt whose cleanup fails.
abbrev failed_attempt : List Action
failed_attempt = state_changed ∷ hide ∷ cleanup ∷ on_failure ∷ state_changed ∷ []

-- So many failed attempts, one after another, and what comes behind them.
abbrev pub attempts : ℕ → List Action → List Action
attempts zero last = last
attempts (suc n) last = failed_attempt ++ attempts n last

-- The calls of the last attempt, by what has become of it.
abbrev pub last_attempt : Task → List Action
last_attempt no_task = []
last_attempt in_cleanup = state_changed ∷ hide ∷ cleanup ∷ []
last_attempt failed_cleanup = state_changed ∷ hide ∷ cleanup ∷ on_failure ∷ []
last_attempt finished = state_changed ∷ hide ∷ cleanup ∷ quit ∷ []

abbrev pub busy : Task → Bool
busy no_task = false
busy _ = true

-- A flow that has made these calls, and is taken while there is a last attempt.
abbrev pub after : ℕ → Task → Flow
after n t = record { in_progress = busy t; task = t; actions = attempts n (last_attempt t) }

-- Failed attempts and the last one are all that the flow has called, in order.
abbrev pub IsOrdered : Flow → Type 0
IsOrdered f = (n : ℕ) × (t : Task) × (f ≡ after n t)

-- The calls of the last attempt go on.
abbrev with_calls : Task → List Action → Flow
with_calls t calls = record { in_progress = busy t; task = t; actions = calls }

-- The cleanup of an attempt that is running, or is begun now, succeeds.
abbrev pub cleanup_succeeds : List Step → List Step
cleanup_succeeds later = releases ∷ request ∷ returns false ∷ later

-- The cleanup of an attempt that is running, or is begun now, fails.
abbrev pub cleanup_fails : List Step
cleanup_fails = releases ∷ request ∷ returns true ∷ releases ∷ []

-- Without a last attempt, or with one that has quit.
abbrev pub Rests : Flow → Type 0
Rests f = (n : ℕ) × ((f ≡ after n no_task) ⊎ (f ≡ after n finished))
