-- ===== src/Lifecycle/QuitFlow.antt =====
-- internal/lifecycle/quit_flow.go: duplicate suppression of the managed quit, with the callbacks
-- that it makes. `Begin` starts one background task; the task's end is a step of its own.
pub mod Ordered
use dsh_work.Prelude.{Bool, true, false, List, [], ◌∷◌, ◌++◌, if◌then◌else◌}

-- The calls that the flow makes, in order.
pub data Action : Type 0 where
  state_changed hide cleanup on_failure quit : Action

-- Where the background task stands: not running, in the cleanup, or past it with its result.
pub data Task : Type 0 where
  no_task in_cleanup : Task
  failed_cleanup : Task
  finished : Task

pub record Flow : Type 0 where
  pub in_progress : Bool
  pub task : Task
  pub actions : List Action

unfoldable pub new_flow : Flow
new_flow = record { in_progress = false; task = no_task; actions = [] }

record_actions : Flow → List Action → Flow
record_actions f done = record f { actions = f.actions ++ done }

-- `Begin`: the result tells whether the request was accepted.
unfoldable pub begin : Flow → Flow × Bool
unfolding record_actions
begin f = if f.in_progress then (f, false) else (
  record_actions (record f { in_progress = true; task = in_cleanup })
      (state_changed ∷ hide ∷ cleanup ∷ []),
  true,
)

-- The cleanup returns, with an error if the second argument is true.
unfoldable pub cleanup_returns : Flow → Bool → Flow
unfolding record_actions
cleanup_returns f failed = elim f.task [
  | in_cleanup ↦
      if failed
      then record_actions (record f { task = failed_cleanup }) (on_failure ∷ [])
      else record_actions (record f { task = finished }) (quit ∷ [])
  | _ ↦ f
]

-- After a failed cleanup the task releases the flow, in a section of its own.
unfoldable pub release : Flow → Flow
unfolding record_actions
release f = elim f.task [
  | failed_cleanup ↦
      record_actions (record f { in_progress = false; task = no_task }) (state_changed ∷ [])
  | _ ↦ f
]

-- The steps of the callers and of the background task, interleaved in any order.
pub data Step : Type 0 where
  request releases : Step
  returns : Bool → Step

unfoldable pub step : Flow → Step → Flow
unfolding begin cleanup_returns release
step f request = (begin f).0
step f releases = release f
step f (returns failed) = cleanup_returns f failed

unfoldable pub run : Flow → List Step → Flow
run f [] = f
run f (e ∷ es) = run (step f e) es
