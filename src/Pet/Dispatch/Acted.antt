-- ===== src/Pet/Dispatch/Acted.antt =====
-- internal/pet/runtime.go: what the steps of an event's act keep, the event keeps.
use dsh_work.Prelude.{ℕ, String, Bool, true, false, not, ◌&&◌, Option, none, some, if◌then◌else◌}
use dsh_work.Pet.Runtime.{BaseState, Issue, PetDefinition, Runtime, PetInputEvent, add_diagnostic}
use dsh_work.Pet.Actions.{set_base, set_hidden, trigger_action, play_action}
use dsh_work.Pet.Actions.Shown.{}
use dsh_work.Pet.Actions.Memory.{}
use dsh_work.Pet.Gate.{Admission, turned_away, let_in, admit}
use dsh_work.Pet.Dispatch.{
  Kind, enters, calls_attention, completes, fails, goes_offline, cancels, changes_motion,
  changes_visibility, clicks, passes, unknown, kind_of, if_new, quiet, celebrate, alarm,
  show_window, click, act, dispatch_admitted, dispatch_to, trim_space,
}
use dsh_work.Pet.Gate.Admitted.{IsKept, LeavesAdmitted, Leaves-admit}

-- What holds of a runtime and is kept by every step of an event's act.
pub record IsActed (d : PetDefinition) (P : Runtime → Type 0) : Type 0 where
  pub based : (r : Runtime) (b : BaseState) (now : ℕ) → P r → P (set_base r b now).0
  pub triggered : (r : Runtime) (name : String) (now : ℕ) → P r → P (trigger_action r d name now).0
  pub quieted : (r : Runtime) → P r → P (quiet r)
  pub hid : (r : Runtime) (hidden : Bool) (now : ℕ) → P r → P (set_hidden r hidden now)
  pub clicked : (r : Runtime) (drawn now : ℕ) → P r → P (play_action r d drawn now)
  pub diagnosed : (r : Runtime) (i : Issue) → P r → P (add_diagnostic r i)
  pub reduced : (r : Runtime) (t : Bool) → P r → P (record r { reduced = t })

module _ (d : PetDefinition) (P : Runtime → Type 0) (k : IsActed d P) where
  acted_if : (t : Bool) (x y : Runtime) → P x → P y → P (if t then x else y)
  acted_if true x y i j = i
  acted_if false x y i j = j

  acted_new :
      (x : Runtime × Bool) (next : Runtime → Runtime)
      → P x.0
      → ((r : Runtime) → P r → P (next r))
      → P (if_new x next)
  unfolding if_new
  acted_new (r, true) next i f = f r i
  acted_new (r, false) next i f = i

  acted_celebrate : (now : ℕ) (r : Runtime) → P r → P (celebrate d now r)
  unfolding celebrate
  acted_celebrate now r i =
      let j = k.triggered r "celebrate" now i in
      acted_if (trigger_action r d "celebrate" now).1 _ _ j
        (k.triggered (trigger_action r d "celebrate" now).0 "wave" now j)

  acted_alarm : (now : ℕ) (r : Runtime) → P r → P (alarm d now r)
  unfolding alarm
  acted_alarm now r i =
      let j = k.triggered r "attention" now i in
      acted_if (trigger_action r d "attention" now).1 _ _ j
        (k.quieted (trigger_action r d "attention" now).0 j)

  acted_window : (o : Option Bool) (now : ℕ) (r : Runtime) → P r → P (show_window o now r)
  unfolding show_window
  acted_window none now r i = i
  acted_window (some t) now r i = k.hid r (not t) now i

  acted_click : (drawn now : ℕ) (r : Runtime) → P r → P (click d drawn now r)
  unfolding click
  acted_click drawn now r i =
      acted_if (not r.hidden && not r.reduced) _ r (k.clicked r drawn now i) i

  acted :
      (c : Kind) (e : PetInputEvent) (drawn now : ℕ) (r : Runtime) → P r → P (act c e d drawn now r)
  unfolding act
  acted (enters b) e drawn now r i = k.based r b now i
  acted (calls_attention b) e drawn now r i =
      acted_new (set_base r b now) _ (k.based r b now i) (λ s j. k.triggered s "attention" now j)
  acted completes e drawn now r i =
      acted_new (set_base r BaseState.completed now) _ (k.based r _ now i) (acted_celebrate now)
  acted fails e drawn now r i =
      acted_new (set_base r BaseState.failed now) _ (k.based r _ now i) (acted_alarm now)
  acted goes_offline e drawn now r i = k.quieted _ (k.based r _ now i)
  acted cancels e drawn now r i = k.quieted _ (k.based r _ now i)
  acted changes_motion e drawn now r i = k.reduced r e.enabled i
  acted changes_visibility e drawn now r i = acted_window e.visible now r i
  acted clicks e drawn now r i = acted_click drawn now r i
  acted passes e drawn now r i = i
  acted unknown e drawn now r i = k.diagnosed r _ i

  acted_admitted :
      (to_lower : String → String) (a : Admission) (e : PetInputEvent) (drawn : ℕ)
      → LeavesAdmitted P a
      → P (dispatch_admitted to_lower a e d drawn)
  unfolding dispatch_admitted
  acted_admitted to_lower (turned_away r) e drawn i = i
  acted_admitted to_lower (let_in r now) e drawn i =
      acted (kind_of (to_lower (trim_space e.event_type))) e drawn now r i

  pub acted_dispatch :
      IsKept P
      → (to_lower : String → String) (r : Runtime) (e : PetInputEvent) (drawn clock : ℕ) → P r
      → P (dispatch_to to_lower (some d) r e drawn clock)
  unfolding dispatch_to
  acted_dispatch kept to_lower r e drawn clock i =
      acted_if r.stopped r _ i
        (acted_admitted to_lower (admit e clock r) e drawn (Leaves-admit P kept e clock r i))
