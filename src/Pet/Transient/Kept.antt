-- ===== src/Pet/Transient/Kept.antt =====
-- internal/pet/runtime.go: what ends after its time leaves the rest as it is.
use dsh_work.Prelude.{
  ℕ, String, ◌==◌, refl, Bool, true, false, not, ◌&&◌, ◌||◌, Option, none, some, leb, if◌then◌else◌,
  ◌+◌,
}
use dsh_work.Prelude.Assoc.{lookup}
use dsh_work.Pet.Runtime.{TrackSpec, ActionSpec, PetDefinition, Runtime, has}
use dsh_work.Pet.Actions.{base_track, track_spec, has_ended}
use dsh_work.Pet.Actions.Shown.{IsShowable, IsShowable-kept, IsShowable-quiet}
use dsh_work.Pet.Actions.Memory.{Alike, Alike-refl}
use dsh_work.Pet.Transient.{
  finish_spec, finish_found, finish_action, next_track, finish_track, finish_state,
  finish_transient, to_idle, is_over, action_time, base_time, hold_of,
}

-- What holds of a runtime and is kept where a track, a base state or an action ends.
record IsEnding (P : Runtime → Type 0) : Type 0 where
  shown :
      (r : Runtime) (base_override : String) (since : ℕ)
      → P r
      → P (record r { base_override = base_override; base_since = since })
  idled : (r : Runtime) (at : ℕ) → P r → P (to_idle r at)
  ended :
      (r : Runtime) (base_override : String) (since : ℕ)
      → P r
      → P (record r {
        action = "";
        base_override = base_override;
        playful = false;
        base_since = since;
      })

module _ (P : Runtime → Type 0) (k : IsEnding P) (d : PetDefinition) (at : ℕ) where
  ending_if : (t : Bool) (x y : Runtime) → P x → P y → P (if t then x else y)
  ending_if true x y i j = i
  ending_if false x y i j = j

  ending_pair : (t : Bool) (x y : Runtime × Bool) → P x.0 → P y.0 → P (if t then x else y).0
  ending_pair true x y i j = i
  ending_pair false x y i j = j

  ending_spec :
      (r : Runtime) (spec : ActionSpec) (o : Option TrackSpec) → P r → P (finish_spec r d spec o at)
  unfolding finish_spec
  ending_spec r spec none i = i
  ending_spec r spec (some t) i =
      ending_if (not (is_over r.action_since (action_time r t) at)) _ _ i (k.ended r _ at i)

  ending_found : (r : Runtime) (o : Option ActionSpec) → P r → P (finish_found r d o at)
  unfolding finish_found
  ending_found r none i = i
  ending_found r (some spec) i = ending_spec r spec (lookup spec.track d.tracks) i

  ending_action : (r : Runtime) → P r → P (finish_action r d at)
  unfolding finish_action
  ending_action r i =
      ending_if (r.action == "") r _ i (ending_found r (lookup r.action d.actions) i)

  ending_next : (r : Runtime) (t : TrackSpec) → P r → P (next_track r d t at)
  unfolding next_track
  ending_next r t i =
      ending_if (has (if t.fallback == "" then d.fallback_idle else t.fallback) d.tracks) _ r
        (k.shown r _ at i) i

  ending_track : (r : Runtime) (t : TrackSpec) → P r → P (finish_track r d t at).0
  unfolding finish_track
  ending_track r t i =
      ending_pair (not (r.action == "") || t.loop || not (is_over r.base_since (base_time t) at)) _
        _ i (ending_pair (d.webm && has_ended r.base) _ _ (k.idled r at i) (ending_next r t i))

  ending_state : (x : Runtime × Bool) → P x.0 → P (finish_state d at x)
  unfolding finish_state
  ending_state (r, true) i = i
  ending_state (r, false) i =
      ending_if
        (not d.webm && has_ended r.base && r.action == "" && leb (r.base_since + hold_of r.base) at)
        _ r (k.idled r at i) i

  finish_transient_lem : (r : Runtime) → P r → P (finish_transient r d at)
  unfolding finish_transient
  finish_transient_lem r i =
      let after = finish_action r d at in
      let t = track_spec after d (base_track after d) in
      ending_state (finish_track after d t at) (ending_track after t (ending_action r i))

pub IsShowable-finish_transient :
    (d : PetDefinition) (r : Runtime) (at : ℕ)
    → IsShowable d r
    → IsShowable d (finish_transient r d at)
unfolding to_idle
IsShowable-finish_transient d r at =
    finish_transient_lem (IsShowable d)
      (record {
        shown = λ s o n i. IsShowable-kept d s _ refl refl i;
        idled = λ s n i. IsShowable-kept d s _ refl refl i;
        ended = λ s o n i. IsShowable-quiet d s _ refl refl i;
      })
      d at r

pub Alike-finish_transient :
    (d : PetDefinition) (r : Runtime) (at : ℕ) → Alike r (finish_transient r d at)
unfolding to_idle
Alike-finish_transient d r at =
    finish_transient_lem (Alike r)
      (record {
        shown = λ s o n i. record { seen = i.seen; order = i.order };
        idled = λ s n i. record { seen = i.seen; order = i.order };
        ended = λ s o n i. record { seen = i.seen; order = i.order };
      })
      d at r (Alike-refl r)
