-- ===== src/Lifecycle/Machine/Shutdown.antt =====
-- internal/lifecycle/types.go: every generation can be stopped, and started again.
use dsh_work.Prelude.{
  String, ◌≡◌, ◌≢◌, none, arith, eq_iff, eq_refl, Bool, true, false, if◌then◌else◌, some,
}
use dsh_work.Lifecycle.Types.{State, Status}
use dsh_work.Lifecycle.Types.State.{stopped}
use dsh_work.Lifecycle.Machine.{
  new_machine, begin_start, begin_stop, complete_stop, transition, starting, start_active,
}
use dsh_work.Lifecycle.Machine.Invariant.{Inv}

-- From a status that satisfies the invariant and is not stopped, `BeginStop` and then
-- `CompleteStop` without a failure are accepted and lead to a stopped status that shows neither a
-- workspace nor an error.
pub stop_converges :
    (s : Status)
    → Inv s
    → s.state ≢ stopped
    → let b = begin_stop s s.generation_id in
      let c = complete_stop b.0 s.generation_id none in
      (b.1 ≡ none)
      × (c.1 ≡ none)
      × (c.0.state ≡ stopped)
      × (c.0.workspace_url ≡ "")
      × (c.0.workspace ≡ none)
      × (c.0.error ≡ none)
unfolding begin_stop complete_stop
stop_converges s v h = ground (arith, eq_refl s.generation_id, eq_iff s.generation_id "")

-- Once a stop of a generation is accepted, a second one changes nothing and is no error.
pub begin_stop_twice :
    (s : Status) (g : String)
    → (begin_stop s g).1 ≡ none
    → begin_stop (begin_stop s g).0 g ≡ ((begin_stop s g).0, none)
unfolding begin_stop
begin_stop_twice s g h = ground arith

-- The states in which a new generation may start.
abbrev pub between_generations : State → Bool
between_generations stopped = true
between_generations State.failed = true
between_generations _ = false

-- After a stop or a failure `BeginStart` gives what it gives on a new machine, so nothing of the
-- generation before remains; in any other state it is refused, and the status stays as it was.
pub begin_start_fresh :
    (s : Status) (g : String)
    → begin_start s g ≡ (
        if between_generations s.state
        then begin_start new_machine g
        else (s, some (transition s.state starting start_active)))
unfolding begin_start new_machine
begin_start_fresh s g = ground arith
