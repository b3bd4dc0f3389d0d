-- ===== src/Pet/Transient.antt =====
-- internal/pet/runtime.go: an action, a track and a final state end after their time.
pub mod Kept
use dsh_work.Prelude.{
  ℕ, ◌+◌, ◌*◌, ◌^◌, String, ◌==◌, Bool, true, false, not, ◌&&◌, ◌||◌, Option, none, some, List, [],
  ◌∷◌, ltb, leb, if◌then◌else◌,
}
use dsh_work.Prelude.Assoc.{lookup}
use dsh_work.Pet.Runtime.{
  BaseState, idle, failed, TrackSpec, ActionSpec, PetDefinition, Runtime, has,
}
use dsh_work.Pet.Actions.{base_track, track_spec, has_ended}

abbrev pub millisecond : ℕ
millisecond = 10 ^ 6

-- `trackDuration`
pub track_duration : List ℕ → ℕ
track_duration [] = 0
track_duration (n ∷ ns) = n * millisecond + track_duration ns

at_least_one : ℕ → ℕ
at_least_one n = if ltb n 1 then 1 else n

played : TrackSpec → ℕ
unfolding track_duration at_least_one
played t = track_duration t.frames * at_least_one t.repeat_count

-- The time that an action's track is given; 0 where it goes on.
action_time : Runtime → TrackSpec → ℕ
unfolding played
action_time r t =
    if ltb 0 t.timeout_ms
    then t.timeout_ms * millisecond
    else if not t.loop || r.playful
    then played t
    else 0

is_over : ℕ → ℕ → ℕ → Bool
is_over since time at = ltb 0 time && leb (since + time) at

-- The track that is shown once the action is over.
override_after : Runtime → PetDefinition → ActionSpec → TrackSpec → String
override_after r d spec t =
    let fallback = if spec.fallback == "" then t.fallback else spec.fallback in
    if r.playful
    then ""
    else if not (fallback == "") && has fallback d.tracks
    then fallback
    else r.base_override

finish_spec : Runtime → PetDefinition → ActionSpec → Option TrackSpec → ℕ → Runtime
unfolding action_time is_over override_after
finish_spec r d spec none at = r
finish_spec r d spec (some t) at =
    if not (is_over r.action_since (action_time r t) at) then r else record r {
      action = "";
      base_override = override_after r d spec t;
      playful = false;
      base_since = at;
    }

finish_found : Runtime → PetDefinition → Option ActionSpec → ℕ → Runtime
unfolding finish_spec
finish_found r d none at = r
finish_found r d (some spec) at = finish_spec r d spec (lookup spec.track d.tracks) at

-- The part of `finishTransientLocked` on the action.
finish_action : Runtime → PetDefinition → ℕ → Runtime
unfolding finish_found
finish_action r d at = if r.action == "" then r else finish_found r d (lookup r.action d.actions) at

base_time : TrackSpec → ℕ
unfolding played
base_time t = if ltb 0 t.timeout_ms then t.timeout_ms * millisecond else played t

to_idle : Runtime → ℕ → Runtime
to_idle r at = record r { base = idle; base_override = ""; base_since = at }

next_track : Runtime → PetDefinition → TrackSpec → ℕ → Runtime
next_track r d t at =
    let fallback = if t.fallback == "" then d.fallback_idle else t.fallback in
    if has fallback d.tracks then record r { base_override = fallback; base_since = at } else r

-- The part on the track of the base state; the result tells whether it returns.
finish_track : Runtime → PetDefinition → TrackSpec → ℕ → Runtime × Bool
unfolding base_time is_over to_idle next_track
finish_track r d t at =
    if not (r.action == "") || t.loop || not (is_over r.base_since (base_time t) at)
    then (r, false)
    else if d.webm && has_ended r.base
    then (to_idle r at, true)
    else (next_track r d t at, false)

hold_of : BaseState → ℕ
hold_of failed = 2500 * millisecond
hold_of b = 1500 * millisecond

-- The part on the final states.
finish_state : PetDefinition → ℕ → Runtime × Bool → Runtime
unfolding to_idle hold_of
finish_state d at (r, true) = r
finish_state d at (r, false) =
    if not d.webm && has_ended r.base && r.action == "" && leb (r.base_since + hold_of r.base) at
    then to_idle r at
    else r

-- `finishTransientLocked`
unfoldable pub finish_transient : Runtime → PetDefinition → ℕ → Runtime
unfolding finish_action finish_track finish_state
finish_transient r d at =
    let after = finish_action r d at in
    finish_state d at (finish_track after d (track_spec after d (base_track after d)) at)
