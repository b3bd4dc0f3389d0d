-- ===== src/Lifecycle/Machine/Invariant.antt =====
-- What every reachable status of internal/lifecycle/types.go looks like, state by state.
use dsh_work.Prelude.{
  not, ◌&&◌, [], ◌∷◌, refl, Bool, if◌then◌else◌, String, ◌≡◌, ◌≢◌, ◌⊎◌, true, false, Option, none,
  some, arith, List, eq_iff, All, Bool, ◌∷◌,
}
use dsh_work.Workspace.{Context}
use dsh_work.Lifecycle.Types.{State, Phase, Failure, Status}
use dsh_work.Lifecycle.Types.State.{starting, ready, stopped}
use dsh_work.Lifecycle.Machine.{
  is_stale, same_state, finish_stop, failing, replacing, Outcome, Error, new_machine, begin_start,
  set_phase, FileSystem, begin_stop, complete_stop, fail, mark_ready, replace_failure,
  set_launch_selection, set_runtime_preparation, set_workspace_context, LaunchSelection,
  RuntimePreparation,
}
use dsh_work.Lifecycle.Machine.Steps.{
  Call, call, run, begins, phases, readies, prepares, selects_workspace, stops, completes, fails,
  replaces, selects_launch,
}
use dsh_work.Workspace.Validation.{valid_generation}

abbrev pub InStartup : Phase → Type 0
InStartup Phase.configuration = Unit
InStartup Phase.runtime = Unit
InStartup Phase.node = Unit
InStartup Phase.profile = Unit
InStartup Phase.worker = Unit
InStartup Phase.readiness = Unit
InStartup Phase.checkpoint = Unit
InStartup _ = ⊥

abbrev pub Quiet : Status → Type 0
Quiet s = (s.error ≡ none) × (s.can_retry ≡ false)

-- A failure is shown, and a retry is offered exactly if it is retryable.
abbrev pub Failing : Option Failure → Bool → Type 0
Failing none r = ⊥
Failing (some f) r = r ≡ f.retryable

-- What the state says of the other fields.
abbrev pub Shape : State → Status → Type 0
Shape starting s = InStartup s.phase × (s.can_cancel ≡ true) × (s.workspace_url ≡ "") × Quiet s
Shape ready s =
    (s.phase ≡ Phase.workspace)
    × (s.can_cancel ≡ true)
    × (s.workspace_url ≢ "")
    × (s.runtime_preparation ≡ none)
    × Quiet s
Shape State.stopping s = (s.phase ≡ Phase.stopping) × (s.can_cancel ≡ false) × (s.can_retry ≡ false)
Shape stopped s =
    (s.phase ≡ Phase.idle)
    × (s.can_cancel ≡ false)
    × (s.workspace_url ≡ "")
    × (s.workspace ≡ none)
    × (s.runtime_preparation ≡ none)
    × Quiet s
Shape State.failed s =
    (s.phase ≡ Phase.failed)
    × (s.can_cancel ≡ false)
    × (f : Failure) × (s.error ≡ some f)
    × (s.can_retry ≡ f.retryable)

-- A workspace belongs to the generation.
abbrev pub OwnWorkspace : Option Context → String → Type 0
OwnWorkspace none g = Unit
OwnWorkspace (some c) g = c.generation_id ≡ g

pub record Inv (s : Status) : Type 0 where
  pub shape : Shape s.state s
  pub correlated : s.correlation_id ≡ s.generation_id
  pub identified : (s.state ≡ stopped) ⊎ (s.generation_id ≢ "")
  pub own_workspace : OwnWorkspace s.workspace s.generation_id

pub new_machine-Inv : Inv new_machine
unfolding new_machine
new_machine-Inv = ground arith

begin_start-Inv : (s : Status) (g : String) → g ≢ "" → Inv s → Inv (begin_start s g).0
unfolding begin_start
begin_start-Inv s g h v = ground arith

set_phase-Inv : (s : Status) (g : String) (p : Phase) → Inv s → Inv (set_phase s g p).0
unfolding set_phase
set_phase-Inv s g p v = ground arith

mark_ready-Inv : (s : Status) (g u : String) → Inv s → Inv (mark_ready s g u).0
unfolding mark_ready
mark_ready-Inv s g u v = ground (arith, eq_iff u "")

set_runtime_preparation-Inv :
    (s : Status) (g : String) (p : RuntimePreparation)
    → Inv s
    → Inv (set_runtime_preparation s g p).0
unfolding set_runtime_preparation
set_runtime_preparation-Inv s g p v = ground arith

set_workspace_context-Inv :
    (fs : FileSystem) (s : Status) (g : String) (c : Context)
    → Inv s
    → Inv (set_workspace_context fs s g c).0
unfolding set_workspace_context
set_workspace_context-Inv fs s g c v =
    ground (arith, eq_iff g s.generation_id, valid_generation fs c g)

begin_stop-Inv : (s : Status) (g : String) → Inv s → Inv (begin_stop s g).0
unfolding begin_stop
begin_stop-Inv s g v = ground (arith)

-- A method that refuses by two guards keeps what its new status satisfies past both of them.
guarded {ℓ} :
    (P : Status → Type ℓ) (b c : Bool) (s t : Status) (x y z : Option Error)
    → P s
    → (b ≡ false → c ≡ false → P t)
    → P (if◌then◌else◌ {A = Outcome} b (s, x) (if c then (s, y) else (t, z))).0
guarded P true c s t x y z old new = old
guarded P false true s t x y z old new = old
guarded P false false s t x y z old new = new refl refl

complete_stop-Inv :
    (s : Status) (g : String) (f : Option Failure) → Inv s → Inv (complete_stop s g f).0
unfolding complete_stop
complete_stop-Inv s g none v = ground arith
complete_stop-Inv s g (some f) v =
    guarded Inv (is_stale s g) (not (same_state s.state State.stopping)) s (finish_stop s (some f))
      _ _ _ v (λ fresh busy. ground arith)

fail-Inv : (s : Status) (g : String) (f : Failure) → Inv s → Inv (fail s g f).0
unfolding fail
fail-Inv s g f v =
    guarded Inv (is_stale s g) (not (same_state s.state starting) && not (same_state s.state ready))
      s (failing s f) _ _ _ v (λ fresh busy. ground arith)

replace_failure-Inv :
    (s : Status) (g : String) (f : Failure) → Inv s → Inv (replace_failure s g f).0
unfolding replace_failure
replace_failure-Inv s g f v =
    guarded Inv (is_stale s g) (not (same_state s.state State.failed)) s (replacing s f) _ _ _ v
      (λ fresh busy. ground arith)

set_launch_selection-Inv :
    (s : Status) (g : String) (l : LaunchSelection) → Inv s → Inv (set_launch_selection s g l).0
unfolding set_launch_selection
set_launch_selection-Inv s g l v = ground arith

-- `newGenerationID` never draws the empty text.
abbrev pub Draws : Call → Type 0
Draws (begins g) = g ≢ ""
Draws _ = Unit

-- From a status that satisfies the invariant, a call of any method leads to one that does,
-- whether the call is accepted or refused, if a drawn generation identifier is not empty.
pub call-Inv : (fs : FileSystem) (s : Status) (c : Call) → Draws c → Inv s → Inv (call fs s c).0
unfolding call
call-Inv fs s (begins g) d v = begin_start-Inv s g d v
call-Inv fs s (phases g p) d v = set_phase-Inv s g p v
call-Inv fs s (readies g u) d v = mark_ready-Inv s g u v
call-Inv fs s (prepares g p) d v = set_runtime_preparation-Inv s g p v
call-Inv fs s (selects_workspace g c) d v = set_workspace_context-Inv fs s g c v
call-Inv fs s (stops g) d v = begin_stop-Inv s g v
call-Inv fs s (completes g f) d v = complete_stop-Inv s g f v
call-Inv fs s (fails g f) d v = fail-Inv s g f v
call-Inv fs s (replaces g f) d v = replace_failure-Inv s g f v
call-Inv fs s (selects_launch g l) d v = set_launch_selection-Inv s g l v

run-Inv : (fs : FileSystem) (s : Status) (cs : List Call) → All Draws cs → Inv s → Inv (run fs s cs)
unfolding run
run-Inv fs s [] d v = v
run-Inv fs s (c ∷ cs) d v = run-Inv fs (call fs s c).0 cs d.1 (call-Inv fs s c d.0 v)

-- After any calls on a new machine, in any order and with any arguments, the status satisfies the
-- invariant, if each drawn generation identifier is not empty.
pub run-new_machine-Inv :
    (fs : FileSystem) (cs : List Call) → All Draws cs → Inv (run fs new_machine cs)
run-new_machine-Inv fs cs d = run-Inv fs new_machine cs d new_machine-Inv
