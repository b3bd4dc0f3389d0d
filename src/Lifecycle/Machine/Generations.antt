-- ===== src/Lifecycle/Machine/Generations.antt =====
-- internal/lifecycle/types.go: which calls can change a generation, and in which order it moves.
use dsh_work.Prelude.{
  ℕ, ◌≡◌, ◌≢◌, false, some, arith, eq_iff, String, none, ◌≤◌, ◌⊎◌, List, All, ◌∷◌, [], refl,
}
use dsh_work.Workspace.{FileSystem}
use dsh_work.Lifecycle.Types.{State, Phase, Status}
use dsh_work.Lifecycle.Types.State.{starting, ready}
use dsh_work.Lifecycle.Machine.{
  Error, begin_start, set_phase, mark_ready, set_runtime_preparation, set_workspace_context,
  begin_stop, complete_stop, fail, replace_failure, set_launch_selection,
}
use dsh_work.Lifecycle.Machine.Steps.{
  Call, begins, phases, readies, prepares, selects_workspace, stops, completes, fails, replaces,
  selects_launch, is_begin, generation_of, call, run,
}

-- A call that returns an error leaves the status as it was.
pub call_error_unchanged :
    (fs : FileSystem) (s : Status) (c : Call) (e : Error)
    → (call fs s c).1 ≡ some e
    → (call fs s c).0 ≡ s
unfolding call begin_start set_phase mark_ready set_runtime_preparation set_workspace_context
    begin_stop complete_stop fail replace_failure set_launch_selection
call_error_unchanged fs s (begins g) e h = ground arith
call_error_unchanged fs s _ e h = ground arith

-- A call for a generation other than the current one, by any method but `BeginStart`, leaves the
-- status as it was.
pub stale_unchanged :
    (fs : FileSystem) (s : Status) (c : Call)
    → is_begin c ≡ false
    → generation_of c ≢ s.generation_id
    → (call fs s c).0 ≡ s
unfolding call set_phase mark_ready set_runtime_preparation set_workspace_context begin_stop
    complete_stop fail replace_failure set_launch_selection
stale_unchanged fs s (begins g) b h = cc
stale_unchanged fs s (phases g x) b h = ground (arith, eq_iff g s.generation_id)
stale_unchanged fs s (readies g x) b h = ground (arith, eq_iff g s.generation_id)
stale_unchanged fs s (prepares g x) b h = ground (arith, eq_iff g s.generation_id)
stale_unchanged fs s (selects_workspace g x) b h = ground (arith, eq_iff g s.generation_id)
stale_unchanged fs s (stops g) b h = ground (arith, eq_iff g s.generation_id)
stale_unchanged fs s (completes g x) b h = ground (arith, eq_iff g s.generation_id)
stale_unchanged fs s (fails g x) b h = ground (arith, eq_iff g s.generation_id)
stale_unchanged fs s (replaces g x) b h = ground (arith, eq_iff g s.generation_id)
stale_unchanged fs s (selects_launch g x) b h = ground (arith, eq_iff g s.generation_id)

-- How far a startup has come.
abbrev pub progress : Phase → ℕ
progress Phase.runtime = 1
progress Phase.node = 1
progress Phase.profile = 2
progress Phase.worker = 3
progress Phase.readiness = 4
progress Phase.checkpoint = 5
progress Phase.workspace = 6
progress _ = 0

-- A phase call that is accepted during startup never takes the startup back, and enters the
-- checkpoint only from the readiness phase or the checkpoint itself.
pub set_phase-progress :
    (s : Status) (g : String) (p : Phase)
    → s.state ≡ starting
    → (set_phase s g p).1 ≡ none
    → (progress s.phase ≤ progress (set_phase s g p).0.phase)
      × ((set_phase s g p).0.phase ≡ Phase.checkpoint
          → (s.phase ≡ Phase.checkpoint) ⊎ (s.phase ≡ Phase.readiness))
unfolding set_phase
set_phase-progress s g p st h = ground arith

-- Calls of any methods but `BeginStart`, all for generations other than the current one, leave
-- the status as it was.
pub stale_run_unchanged :
    (fs : FileSystem) (s : Status) (cs : List Call)
    → All (λ c. (is_begin c ≡ false) × (generation_of c ≢ s.generation_id)) cs
    → run fs s cs ≡ s
unfolding run
stale_run_unchanged fs s [] h = refl
stale_run_unchanged fs s (c ∷ cs) h =
    rw (stale_unchanged fs s c h.0.0 h.0.1) (stale_run_unchanged fs s cs h.1)

-- Neither starting nor ready.
abbrev pub HasEnded : State → Type 0
HasEnded starting = ⊥
HasEnded ready = ⊥
HasEnded _ = Unit

call-HasEnded :
    (fs : FileSystem) (s : Status) (c : Call)
    → is_begin c ≡ false
    → HasEnded s.state
    → HasEnded (call fs s c).0.state
unfolding call set_phase mark_ready set_runtime_preparation set_workspace_context begin_stop
    complete_stop fail replace_failure set_launch_selection
call-HasEnded fs s (begins g) b h = cc
call-HasEnded fs s (completes g none) b h = ground arith
call-HasEnded fs s (completes g (some f)) b h = ground arith
call-HasEnded fs s _ b h = ground arith

-- A generation that has failed, is stopping or has stopped is never starting or ready again,
-- whatever calls follow, as long as no call of `BeginStart` is among them.
pub run-HasEnded :
    (fs : FileSystem) (s : Status) (cs : List Call)
    → All (λ c. is_begin c ≡ false) cs
    → HasEnded s.state
    → HasEnded (run fs s cs).state
unfolding run
run-HasEnded fs s [] b h = h
run-HasEnded fs s (c ∷ cs) b h = run-HasEnded fs (call fs s c).0 cs b.1 (call-HasEnded fs s c b.0 h)
