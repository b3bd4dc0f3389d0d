-- ===== src/Lifecycle/Machine.antt =====
-- `Machine` of internal/lifecycle/types.go: each method returns the status after it and an error.
-- A status is a value here, so the copy that `cloneStatus` hands out is the status itself.
pub mod Steps
pub mod Invariant
pub mod Generations
pub mod Shutdown
use dsh_work.Prelude.{
  ℕ, String, Bool, true, false, not, ◌&&◌, ◌||◌, Option, none, some, ◌==◌, eqb, if◌then◌else◌,
}
use dsh_work.Workspace.{FileSystem, Context, validate_for_generation}
use dsh_work.Workspace as Workspace
use dsh_work.Lifecycle.Types.{
  State, Phase, Failure, RuntimePreparation, LaunchSelection, Status, zero_status,
}
use dsh_work.Lifecycle.Types.State.{starting, ready, stopped}

-- The reasons of `TransitionError.Why`.
pub data Why : Type 0 where
  start_active phase_after_terminal : Why
  phase_cannot_move : Phase → Phase → Why
  ready_only_in_startup url_required preparation_only_in_startup : Why
  workspace_only_in_startup no_stop_boundary stop_not_requested : Why
  failure_terminal only_failure_replaced stale_generation : Why

pub data Error : Type 0 where
  transition : State → State → Why → Error
  workspace : Workspace.Error → Error

abbrev pub Outcome : Type 0
Outcome = Status × Option Error

abbrev pub state_code : State → ℕ
state_code starting = 0
state_code ready = 1
state_code State.stopping = 2
state_code stopped = 3
state_code State.failed = 4

abbrev pub same_state : State → State → Bool
same_state a b = eqb (state_code a) (state_code b)

abbrev pub phase_code : Phase → ℕ
phase_code Phase.idle = 0
phase_code Phase.configuration = 1
phase_code Phase.runtime = 2
phase_code Phase.node = 3
phase_code Phase.profile = 4
phase_code Phase.worker = 5
phase_code Phase.readiness = 6
phase_code Phase.checkpoint = 7
phase_code Phase.workspace = 8
phase_code Phase.stopping = 9
phase_code Phase.failed = 10

abbrev pub same_phase : Phase → Phase → Bool
same_phase a b = eqb (phase_code a) (phase_code b)

unfoldable pub new_machine : Status
new_machine = zero_status stopped Phase.idle

refuse : Status → State → Why → Outcome
refuse s to why = (s, some (transition s.state to why))

-- `BeginStart`; the argument is the identifier that `newGenerationID` draws.
unfoldable pub begin_start : Status → String → Outcome
unfolding refuse
begin_start s fresh =
    if not (same_state s.state stopped) && not (same_state s.state State.failed)
    then refuse s starting start_active
    else (
      record (zero_status starting Phase.configuration) {
        generation_id = fresh;
        correlation_id = fresh;
        can_cancel = true;
      },
      none,
    )

-- `checkGeneration`: whether the identifier is missing or stale.
is_stale : Status → String → Bool
is_stale s generation = generation == "" || not (generation == s.generation_id)

startup_move : Phase → Phase → Bool
startup_move Phase.configuration to = same_phase to Phase.runtime || same_phase to Phase.node
startup_move Phase.node to = same_phase to Phase.runtime || same_phase to Phase.worker
startup_move Phase.profile to = same_phase to Phase.worker
startup_move Phase.runtime to =
    same_phase to Phase.worker || same_phase to Phase.node || same_phase to Phase.profile
startup_move Phase.worker to = same_phase to Phase.readiness
startup_move Phase.readiness to = same_phase to Phase.checkpoint
startup_move _ to = false

valid_phase_transition : State → Phase → Phase → Bool
unfolding startup_move
valid_phase_transition state from to =
    if same_phase from to
    then true
    else if same_state state State.stopping
    then same_phase from Phase.stopping && same_phase to Phase.stopping
    else if not (same_state state starting)
    then false
    else startup_move from to

unfoldable pub set_phase : Status → String → Phase → Outcome
unfolding is_stale valid_phase_transition refuse
set_phase s generation phase =
    if is_stale s generation
    then refuse s s.state stale_generation
    else if not (same_state s.state starting) && not (same_state s.state State.stopping)
    then refuse s s.state phase_after_terminal
    else if not (valid_phase_transition s.state s.phase phase)
    then refuse s s.state (phase_cannot_move s.phase phase)
    else (record s { phase = phase }, none)

unfoldable pub mark_ready : Status → String → String → Outcome
unfolding is_stale refuse
mark_ready s generation url =
    if is_stale s generation
    then refuse s s.state stale_generation
    else if not (same_state s.state starting)
    then refuse s ready ready_only_in_startup
    else if url == ""
    then (s, some (transition starting ready url_required))
    else (
      record s {
        state = ready;
        phase = Phase.workspace;
        workspace_url = url;
        runtime_preparation = none;
        can_cancel = true;
      },
      none,
    )

unfoldable pub set_runtime_preparation : Status → String → RuntimePreparation → Outcome
unfolding is_stale refuse
set_runtime_preparation s generation preparation =
    if is_stale s generation
    then refuse s s.state stale_generation
    else if not (same_state s.state starting)
    then refuse s s.state preparation_only_in_startup
    else (record s { runtime_preparation = some preparation }, none)

store_workspace : Status → Context → Workspace.Result (Unit {0}) → Outcome
store_workspace s c (Workspace.Result.ok _) = (record s { workspace = some c }, none)
store_workspace s c (Workspace.Result.err e) = (s, some (workspace e))

unfoldable pub set_workspace_context : FileSystem → Status → String → Context → Outcome
unfolding is_stale refuse store_workspace
set_workspace_context fs s generation c =
    if is_stale s generation
    then refuse s s.state stale_generation
    else if not (same_state s.state starting)
    then refuse s s.state workspace_only_in_startup
    else store_workspace s c (validate_for_generation fs c generation)

unfoldable pub begin_stop : Status → String → Outcome
unfolding is_stale refuse
begin_stop s generation =
    if generation == "" && same_state s.state stopped
    then (s, none)
    else if is_stale s generation
    then refuse s s.state stale_generation
    else if same_state s.state State.stopping
    then (s, none)
    else if not (same_state s.state starting)
        && not (same_state s.state ready)
        && not (same_state s.state State.failed)
    then refuse s State.stopping no_stop_boundary
    else (
      record s {
        state = State.stopping;
        phase = Phase.stopping;
        can_cancel = false;
        can_retry = false;
      },
      none,
    )

finish_stop : Status → Option Failure → Status
finish_stop s (some f) = record s {
  state = State.failed;
  phase = Phase.failed;
  error = some f;
  can_retry = f.retryable;
  can_cancel = false;
}
finish_stop s none = record s {
  state = stopped;
  phase = Phase.idle;
  workspace_url = "";
  workspace = none;
  runtime_preparation = none;
  error = none;
  can_retry = false;
  can_cancel = false;
}

unfoldable pub complete_stop : Status → String → Option Failure → Outcome
unfolding is_stale refuse finish_stop
complete_stop s generation failure =
    if is_stale s generation
    then refuse s s.state stale_generation
    else if not (same_state s.state State.stopping)
    then refuse s stopped stop_not_requested
    else (finish_stop s failure, none)

-- A failure without a correlation identifier takes that of the generation.
correlated : Status → Failure → Failure
correlated s f =
    if f.correlation_id == "" then record f { correlation_id = s.correlation_id } else f

failing : Status → Failure → Status
unfolding correlated
failing s f = record s {
  state = State.failed;
  phase = Phase.failed;
  workspace = none;
  error = some (correlated s f);
  can_retry = f.retryable;
  can_cancel = false;
}

unfoldable pub fail : Status → String → Failure → Outcome
unfolding is_stale refuse failing
fail s generation f =
    if is_stale s generation
    then refuse s s.state stale_generation
    else if not (same_state s.state starting) && not (same_state s.state ready)
    then refuse s State.failed failure_terminal
    else (failing s f, none)

replacing : Status → Failure → Status
unfolding correlated
replacing s f = record s {
  error = some (correlated s f);
  can_retry = f.retryable;
  can_cancel = false;
}

unfoldable pub replace_failure : Status → String → Failure → Outcome
unfolding is_stale refuse replacing
replace_failure s generation f =
    if is_stale s generation
    then refuse s s.state stale_generation
    else if not (same_state s.state State.failed)
    then refuse s State.failed only_failure_replaced
    else (replacing s f, none)

unfoldable pub set_launch_selection : Status → String → LaunchSelection → Outcome
unfolding is_stale refuse
set_launch_selection s generation selection =
    if is_stale s generation
    then refuse s s.state stale_generation
    else (record s { launch_selection = some selection }, none)
