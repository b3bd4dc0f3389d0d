-- ===== src/Pet/Runtime.antt =====
-- internal/pet/runtime.go: the state of the companion's runtime, less the direction of its look, its
-- progress and its idle variations, which are computed with floating-point numbers. A time is a number
-- of nanoseconds; the zero time of the source is `none`.
use dsh_work.Prelude.{
  ℕ, String, ◌==◌, Bool, true, false, not, ◌||◌, Option, none, some, List, [], ◌∷◌, ◌++◌, ltb, leb,
  eqb, length, if◌then◌else◌,
}
use dsh_work.Prelude.Assoc.{Assoc, lookup}
use dsh_work.Prelude.Int.{ℤ}
use dsh_work.Prelude.Space.{trim_space}
use dsh_work.Prelude.Words.{rune_count}
use Prim.Native.Char.{code}

pub data BaseState : Type 0 where
  starting idle working thinking result waiting reviewing completed failed offline : BaseState

pub data Issue : Type 0 where
  unsupported_event stale_generation duplicate_event missing_generation unsafe_event : Issue
  unknown_action missing_track out_of_order_event : Issue

-- `Frames` are the durations of the frames, in milliseconds.
pub record TrackSpec : Type 0 where
  pub frames : List ℕ
  pub loop : Bool
  pub fallback : String
  pub timeout_ms : ℕ
  pub repeat_count : ℕ

pub record StateSpec : Type 0 where
  pub track : String
  pub loop : Bool
  pub fallback : String

pub record ActionSpec : Type 0 where
  pub track : String
  pub priority : ℤ
  pub interruptible : Bool
  pub fallback : String

-- `clicks` are those of the behavior, empty where there is none; `webm` tells the source's profile.
pub record PetDefinition : Type 0 where
  pub clicks : List String
  pub webm : Bool
  pub tracks : Assoc TrackSpec
  pub states : Assoc StateSpec
  pub actions : Assoc ActionSpec
  pub fallback_idle : String

pub record Runtime : Type 0 where
  pub playful : Bool
  pub generation : String
  pub definition : Option PetDefinition
  pub base : BaseState
  pub base_override : String
  pub action : String
  pub action_since : ℕ
  pub base_since : ℕ
  pub hidden : Bool
  pub reduced : Bool
  pub stopped : Bool
  pub seen : List String
  pub last_sequence : ℕ
  pub last_event_at : ℕ
  pub last_event_clock : Option ℕ
  pub seen_order : List String
  pub diagnostics : List Issue

-- An event as the port gives it: `enabled` and `visible` are values of its payload.
pub record PetInputEvent : Type 0 where
  pub event_id : String
  pub generation : String
  pub sequence : ℕ
  pub monotonic_time : ℕ
  pub event_type : String
  pub enabled : Bool
  pub visible : Option Bool

has_control : String → Bool
has_control String.[] = false
has_control (String.◌∷◌ c s) = ltb (code c) 0x20 || eqb (code c) 0x7f || has_control s

-- `safeString` of a text that is valid UTF-8.
unfoldable pub is_safe : String → ℕ → Bool
unfolding has_control
is_safe s n = not (s == "" || ltb n (rune_count s) || has_control s)

is_issue : Issue → Issue → Bool
is_issue unsupported_event unsupported_event = true
is_issue stale_generation stale_generation = true
is_issue duplicate_event duplicate_event = true
is_issue missing_generation missing_generation = true
is_issue unsafe_event unsafe_event = true
is_issue unknown_action unknown_action = true
is_issue missing_track missing_track = true
is_issue out_of_order_event out_of_order_event = true
is_issue _ _ = false

abbrev pub max_issue_count : ℕ
max_issue_count = 64

pub has_issue : Issue → List Issue → Bool
unfolding is_issue
has_issue i [] = false
has_issue i (j ∷ js) = is_issue j i || has_issue i js

pub append_issue : List Issue → Issue → List Issue
append_issue js i = if leb max_issue_count (length js) then js else js ++ i ∷ []

-- `addDiagnosticLocked`
unfoldable pub add_diagnostic : Runtime → Issue → Runtime
unfolding has_issue append_issue
add_diagnostic r i =
    if has_issue i r.diagnostics then r else record r { diagnostics = append_issue r.diagnostics i }

unfoldable pub new_runtime : String → Runtime
unfolding is_safe
new_runtime generation = record {
  playful = false;
  generation = if is_safe (trim_space generation) 128 then trim_space generation else "";
  definition = none;
  base = idle;
  base_override = "";
  action = "";
  action_since = 0;
  base_since = 0;
  hidden = false;
  reduced = false;
  stopped = false;
  seen = [];
  last_sequence = 0;
  last_event_at = 0;
  last_event_clock = none;
  seen_order = [];
  diagnostics = [];
}

-- `_, ok := m[key]`
unfoldable pub has {ℓ} : {V : Type ℓ} → String → Assoc V → Bool
has key m = elim (lookup key m) [ none ↦ false | some v ↦ true ]

unfoldable pub with_fallback : PetDefinition → PetDefinition
with_fallback d = record d {
  fallback_idle = if d.fallback_idle == "" then "idle" else d.fallback_idle;
}

unfoldable pub started : Runtime → PetDefinition → ℕ → Runtime
started r d now = record r {
  definition = some d;
  base = idle;
  base_override = "";
  action = "";
  action_since = now;
  base_since = now;
  stopped = false;
  seen = [];
  seen_order = [];
  last_sequence = 0;
  last_event_at = 0;
  last_event_clock = none;
  diagnostics = [];
}

-- `Start`; without a track for the idle state it is refused.
unfoldable pub start : Runtime → PetDefinition → ℕ → Runtime × Bool
unfolding has with_fallback started
start r d now =
    let d' = with_fallback d in
    if has d'.fallback_idle d'.tracks then (started r d' now, true) else (r, false)

unfoldable pub stop : Runtime → Runtime
stop r = record r { stopped = true; definition = none; action = "" }

unfoldable pub set_reduced_motion : Runtime → Bool → Runtime
set_reduced_motion r reduced = record r { reduced = reduced }
