-- ===== src/Pet/Actions.antt =====
-- internal/pet/runtime.go: the base state, the action over it, and how they end.
pub mod Shown
pub mod Memory
use dsh_work.Prelude.{
  ℕ, zero, suc, ◌+◌, ◌*◌, ◌^◌, ◌-◌, String, ◌==◌, Bool, true, false, not, ◌&&◌, ◌||◌, Option, none,
  some, List, [], ◌∷◌, ltb, leb, eqb, length, get_elem?, if◌then◌else◌,
}
use dsh_work.Prelude.Assoc.{Assoc, lookup}
use dsh_work.Prelude.Int.{ℤ, less}
use dsh_work.Pet.Runtime.{
  BaseState, starting, idle, working, thinking, result, waiting, reviewing, completed, failed,
  offline, Issue, unknown_action, missing_track, TrackSpec, StateSpec, ActionSpec, PetDefinition,
  Runtime, add_diagnostic, has,
}

pub state_name : BaseState → String
state_name starting = "starting"
state_name idle = "idle"
state_name working = "working"
state_name thinking = "thinking"
state_name result = "result"
state_name waiting = "waiting"
state_name reviewing = "reviewing"
state_name completed = "completed"
state_name failed = "failed"
state_name offline = "offline"

same_state : BaseState → BaseState → Bool
unfolding state_name
same_state a b = state_name a == state_name b

pub has_ended : BaseState → Bool
unfolding same_state
has_ended b = same_state b completed || same_state b failed

-- `setBaseLocked` of a known state; the result tells whether the state is another one.
unfoldable pub set_base : Runtime → BaseState → ℕ → Runtime × Bool
unfolding same_state has_ended
set_base r b now = if same_state r.base b then (r, false) else (
  record r {
    base = b;
    playful = false;
    base_override = "";
    base_since = now;
    action = if has_ended b then r.action else "";
  },
  true,
)

unfoldable pub set_hidden : Runtime → Bool → ℕ → Runtime
set_hidden r hidden now =
    if hidden && r.hidden || not hidden && not r.hidden
    then r
    else if hidden
    then record r { hidden = true }
    else record r { hidden = false; action = ""; action_since = now; base_since = now }

-- Whether the present action does not give way to one of this priority.
holds : Option ActionSpec → ℤ → Bool
holds none p = false
holds (some current) p = not current.interruptible && not (less current.priority p)

begin_action : Runtime → PetDefinition → String → ActionSpec → ℕ → Runtime × Bool
unfolding holds has
begin_action r d name spec now =
    if not (has spec.track d.tracks)
    then (add_diagnostic r missing_track, false)
    else if not (r.action == "") && holds (lookup r.action d.actions) spec.priority
    then (r, false)
    else (record r { action = name; action_since = now }, true)

begin_found : Runtime → PetDefinition → String → Option ActionSpec → ℕ → Runtime × Bool
unfolding begin_action
begin_found r d name none now = ((if name == "" then r else add_diagnostic r unknown_action), false)
begin_found r d name (some spec) now = begin_action r d name spec now

-- `triggerActionLocked`
unfoldable pub trigger_action : Runtime → PetDefinition → String → ℕ → Runtime × Bool
unfolding begin_found
trigger_action r d name now = begin_found r d name (lookup name d.actions) now

set_playful : Runtime × Bool → Runtime
set_playful (r, false) = r
set_playful (r, true) = record r { playful = true }

quiet_playful : Runtime → Runtime
quiet_playful r = if r.playful then record r { action = "" } else r

-- The first of the names that is declared and can be triggered.
play_first : PetDefinition → ℕ → List String → Runtime → Runtime
unfolding set_playful trigger_action has
play_first d now [] r = r
play_first d now (name ∷ rest) r =
    let (after, done) = if has name d.actions then trigger_action r d name now else (r, false) in
    let onward = play_first d now rest after in
    if done then record after { playful = true } else onward

chosen : List String → ℕ → String
chosen names i = elim (get_elem? names i) [ none ↦ "" | some name ↦ name ]

at_most : ℕ → ℕ → ℕ
at_most limit i = if ltb limit i then limit else i

play_click : Runtime → PetDefinition → String → ℕ → Runtime
unfolding set_playful trigger_action
play_click r d name now = set_playful (trigger_action r d name now)

-- `playActionLocked`, given the number that is drawn for the clicks of the behavior.
unfoldable pub play_action : Runtime → PetDefinition → ℕ → ℕ → Runtime
unfolding quiet_playful play_first play_click chosen at_most
play_action r d drawn now =
    if eqb (length d.clicks) 0
    then play_first d now ("click" ∷ "wave" ∷ "bounce" ∷ []) (quiet_playful r)
    else play_click (quiet_playful r) d (chosen d.clicks (at_most (length d.clicks - 1) drawn)) now

-- The state whose track is shown: a newer state falls back to an older one.
shown_state : PetDefinition → BaseState → String
unfolding state_name has
shown_state d thinking = if has "thinking" d.states then "thinking" else "waiting"
shown_state d result = if has "result" d.states then "result" else "reviewing"
shown_state d b = state_name b

state_track : PetDefinition → Option StateSpec → String
state_track d none = d.fallback_idle
state_track d (some s) =
    if has s.track d.tracks
    then s.track
    else if not (s.fallback == "") && has s.fallback d.tracks
    then s.fallback
    else d.fallback_idle

-- `baseTrackLocked`
pub base_track : Runtime → PetDefinition → String
unfolding state_track shown_state
base_track r d =
    if not (r.base_override == "") && has r.base_override d.tracks
    then r.base_override
    else state_track d (lookup (shown_state d r.base) d.states)

no_track : TrackSpec
no_track = record { frames = []; loop = false; fallback = ""; timeout_ms = 0; repeat_count = 0 }

track_of : PetDefinition → String → TrackSpec
unfolding no_track
track_of d id = elim (lookup id d.tracks) [ none ↦ no_track | some t ↦ t ]

with_state : TrackSpec → String → Option StateSpec → TrackSpec
with_state t id none = t
with_state t id (some s) =
    if not (s.track == id)
    then t
    else record t { loop = s.loop; fallback = if s.fallback == "" then t.fallback else s.fallback }

-- `trackSpecLocked`
pub track_spec : Runtime → PetDefinition → String → TrackSpec
unfolding track_of with_state shown_state
track_spec r d id =
    let t = track_of d id in
    let u = if r.playful && not (r.action == "") then record t { loop = false } else t in
    if r.action == "" then with_state u id (lookup (shown_state d r.base) d.states) else u
