-- ===== src/Lifecycle/Machine/Steps.antt =====
-- A call of the machine as data, and runs of calls.
use dsh_work.Prelude.{String, Bool, true, false, Option, List, [], ◌∷◌}
use dsh_work.Workspace.{FileSystem, Context}
use dsh_work.Lifecycle.Types.{Phase, Failure, RuntimePreparation, LaunchSelection, Status}
use dsh_work.Lifecycle.Machine.{
  Outcome, begin_start, set_phase, mark_ready, set_runtime_preparation, set_workspace_context,
  begin_stop, complete_stop, fail, replace_failure, set_launch_selection,
}

pub data Call : Type 0 where
  begins : String → Call
  phases : String → Phase → Call
  readies : String → String → Call
  prepares : String → RuntimePreparation → Call
  selects_workspace : String → Context → Call
  stops : String → Call
  completes : String → Option Failure → Call
  fails replaces : String → Failure → Call
  selects_launch : String → LaunchSelection → Call

-- Whether the generation that a call names is the one that it starts.
abbrev pub is_begin : Call → Bool
is_begin (begins g) = true
is_begin _ = false

abbrev pub generation_of : Call → String
generation_of (begins g) = g
generation_of (phases g p) = g
generation_of (readies g u) = g
generation_of (prepares g p) = g
generation_of (selects_workspace g c) = g
generation_of (stops g) = g
generation_of (completes g f) = g
generation_of (fails g f) = g
generation_of (replaces g f) = g
generation_of (selects_launch g l) = g

module _ (fs : FileSystem) where
  unfoldable pub call : Status → Call → Outcome
  call s (begins g) = begin_start s g
  call s (phases g p) = set_phase s g p
  call s (readies g u) = mark_ready s g u
  call s (prepares g p) = set_runtime_preparation s g p
  call s (selects_workspace g c) = set_workspace_context fs s g c
  call s (stops g) = begin_stop s g
  call s (completes g f) = complete_stop s g f
  call s (fails g f) = fail s g f
  call s (replaces g f) = replace_failure s g f
  call s (selects_launch g l) = set_launch_selection s g l

  unfoldable pub run : Status → List Call → Status
  run s [] = s
  run s (c ∷ cs) = run (call s c).0 cs
