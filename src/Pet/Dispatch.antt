-- ===== src/Pet/Dispatch.antt =====
-- internal/pet/runtime.go: what an event that is taken does. The number drawn for a click is an argument.
pub mod Acted
pub mod Invariant
use dsh_work.Prelude.{
  ℕ, String, ◌==◌, Bool, true, false, not, ◌&&◌, ◌||◌, Option, none, some, List, [], ◌∷◌,
  if◌then◌else◌,
}
use dsh_work.Prelude.Space.{trim_space}
use dsh_work.Pet.Runtime.{
  BaseState, starting, idle, working, thinking, result, waiting, reviewing, completed, failed,
  offline, unsupported_event, PetDefinition, Runtime, PetInputEvent, add_diagnostic, start, stop,
  set_reduced_motion,
}
use dsh_work.Pet.Actions.{set_base, set_hidden, trigger_action, play_action}
use dsh_work.Pet.Transient.{finish_transient}
use dsh_work.Pet.Gate.{Admission, turned_away, let_in, admit, set_generation}

-- The kinds of events that the switch of `Dispatch` tells apart.
pub data Kind : Type 0 where
  enters : BaseState → Kind
  calls_attention : BaseState → Kind
  completes fails goes_offline cancels changes_motion changes_visibility clicks passes unknown :
      Kind

-- `strings.ToLower` is a parameter.
kind_of : String → Kind
kind_of t =
    if t == "host.starting"
    then enters starting
    else if t == "host.ready"
    then enters idle
    else if t == "host.offline"
    then goes_offline
    else if t == "task.thinking"
    then enters thinking
    else if t == "task.result"
    then enters result
    else if t == "task.started" || t == "task.working"
    then enters working
    else if t == "task.waiting" || t == "task.blocked" || t == "task.limited"
    then calls_attention waiting
    else if t == "task.reviewing"
    then calls_attention reviewing
    else if t == "task.completed"
    then completes
    else if t == "task.failed"
    then fails
    else if t == "task.cancelled" || t == "task.interrupted"
    then cancels
    else if t == "accessibility.reduced-motion.changed"
    then changes_motion
    else if t == "window.visibility.changed"
    then changes_visibility
    else if t == "click"
    then clicks
    else if t == "task.progress"
        || t == "pointer.enter"
        || t == "pointer.move"
        || t == "pointer.leave"
        || t == "display.changed"
        || t == "pointer.down"
        || t == "pointer.up"
        || t == "drag.start"
        || t == "drag.move"
        || t == "drag.end"
    then passes
    else unknown

-- A step where the base state has become another one.
if_new : Runtime × Bool → (Runtime → Runtime) → Runtime
if_new (r, true) next = next r
if_new (r, false) next = r

pub quiet : Runtime → Runtime
quiet r = record r { action = "" }

celebrate : PetDefinition → ℕ → Runtime → Runtime
celebrate d now r =
    let (s, done) = trigger_action r d "celebrate" now in
    if done then s else (trigger_action s d "wave" now).0

alarm : PetDefinition → ℕ → Runtime → Runtime
unfolding quiet
alarm d now r = let (s, done) = trigger_action r d "attention" now in if done then s else quiet s

show_window : Option Bool → ℕ → Runtime → Runtime
show_window none now r = r
show_window (some visible) now r = set_hidden r (not visible) now

click : PetDefinition → ℕ → ℕ → Runtime → Runtime
click d drawn now r = if not r.hidden && not r.reduced then play_action r d drawn now else r

-- The switch of `Dispatch`.
pub act : Kind → PetInputEvent → PetDefinition → ℕ → ℕ → Runtime → Runtime
unfolding if_new quiet celebrate alarm show_window click
act (enters b) e d drawn now r = (set_base r b now).0
act (calls_attention b) e d drawn now r =
    if_new (set_base r b now) λ s. (trigger_action s d "attention" now).0
act completes e d drawn now r = if_new (set_base r completed now) (celebrate d now)
act fails e d drawn now r = if_new (set_base r failed now) (alarm d now)
act goes_offline e d drawn now r = quiet (set_base r offline now).0
act cancels e d drawn now r = quiet (set_base r idle now).0
act changes_motion e d drawn now r = record r { reduced = e.enabled }
act changes_visibility e d drawn now r = show_window e.visible now r
act clicks e d drawn now r = click d drawn now r
act passes e d drawn now r = r
act unknown e d drawn now r = add_diagnostic r unsupported_event

module _ (to_lower : String → String) where
  dispatch_admitted : Admission → PetInputEvent → PetDefinition → ℕ → Runtime
  unfolding act kind_of
  dispatch_admitted (turned_away r) e d drawn = r
  dispatch_admitted (let_in r now) e d drawn =
      act (kind_of (to_lower (trim_space e.event_type))) e d drawn now r

  pub dispatch_to : Option PetDefinition → Runtime → PetInputEvent → ℕ → ℕ → Runtime
  unfolding dispatch_admitted
  dispatch_to none r e drawn clock = r
  dispatch_to (some d) r e drawn clock =
      if r.stopped then r else dispatch_admitted (admit e clock r) e d drawn

  -- `Dispatch`
  unfoldable pub dispatch : Runtime → PetInputEvent → ℕ → ℕ → Runtime
  unfolding dispatch_to
  dispatch r e drawn clock = dispatch_to r.definition r e drawn clock

-- The calls of the runtime; `finishes` is what `Snapshot` does to a runtime that is shown.
pub data Call : Type 0 where
  starts : PetDefinition → ℕ → Call
  dispatches : PetInputEvent → ℕ → ℕ → Call
  hides : Bool → ℕ → Call
  enters_generation : String → Call
  reduces : Bool → Call
  stops : Call
  finishes : ℕ → Call

-- `finishTransientLocked` as `Snapshot` calls it.
finish_shown : Option PetDefinition → Runtime → ℕ → Runtime
finish_shown none r at = r
finish_shown (some d) r at = if r.stopped || r.hidden then r else finish_transient r d at

unfoldable pub call : (String → String) → Runtime → Call → Runtime
unfolding dispatch finish_shown
call to_lower r (starts d now) = (start r d now).0
call to_lower r (dispatches e drawn clock) = dispatch to_lower r e drawn clock
call to_lower r (hides hidden now) = set_hidden r hidden now
call to_lower r (enters_generation g) = set_generation r g
call to_lower r (reduces t) = set_reduced_motion r t
call to_lower r stops = stop r
call to_lower r (finishes at) = finish_shown r.definition r at

unfoldable pub run : (String → String) → Runtime → List Call → Runtime
unfolding call
run to_lower r [] = r
run to_lower r (c ∷ cs) = run to_lower (call to_lower r c) cs
