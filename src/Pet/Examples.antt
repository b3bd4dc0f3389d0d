-- ===== src/Pet/Examples.antt =====
-- Instances of the theorems of internal/pet/runtime.go at concrete inputs.
use dsh_work.Pet.Dispatch.{run}
use dsh_work.Prelude.Assoc.{lookup}
use dsh_work.Prelude.Words.{rune_count}
use dsh_work.Prelude.Space.{trim_space}
use dsh_work.Pet.Gate.{admit}
use dsh_work.Pet.Actions.{set_base, play_action}
use dsh_work.Pet.Runtime.{start, add_diagnostic}
use dsh_work.Prelude.{ℕ, String, ◌≡◌, refl, true, false, none, some, List, [], ◌∷◌}
use dsh_work.Prelude.Int.{ℤ}
use dsh_work.Pet.Runtime.{TrackSpec, ActionSpec, PetDefinition, PetInputEvent, new_runtime, has}
use dsh_work.Pet.Actions.{base_track}
use dsh_work.Pet.Actions.Shown.{IsDeclared}
use dsh_work.Pet.Gate.Once.{Remembers}
use dsh_work.Pet.Dispatch.{Call, starts, dispatches, run}
use dsh_work.Pet.Dispatch.Invariant.{run-IsDeclared, run-Remembers}

abbrev still : TrackSpec
still = record { frames = 100 ∷ []; loop = true; fallback = ""; timeout_ms = 0; repeat_count = 1 }

abbrev wave : ActionSpec
wave = record { track = "idle"; priority = ℤ.pos 1; interruptible = true; fallback = "" }

abbrev companion : PetDefinition
companion = record {
  clicks = "wave" ∷ [];
  webm = false;
  tracks = ("idle", still) ∷ [];
  states = [];
  actions = ("wave", wave) ∷ [];
  fallback_idle = "idle";
}

abbrev event : String → ℕ → String → PetInputEvent
event id sequence kind = record {
  event_id = id;
  generation = "g";
  sequence = sequence;
  monotonic_time = 0;
  event_type = kind;
  enabled = false;
  visible = none;
}

abbrev lower : String → String
lower s = s

abbrev calls : List Call
calls =
    starts companion 0
    ∷ dispatches (event "e1" 1 "task.working") 0 5
    ∷ dispatches (event "e2" 2 "click") 0 6
    ∷ dispatches (event "e2" 3 "click") 0 7
    ∷ []

run-Remembers_example : Remembers (run lower (new_runtime "g") calls)
run-Remembers_example = run-Remembers lower "g" calls

defines : (run lower (new_runtime "g") calls).definition ≡ some companion
unfolding run new_runtime start lookup admit rune_count trim_space set_base play_action
    add_diagnostic
defines = refl

run-IsDeclared_example :
    (has (base_track (run lower (new_runtime "g") calls) companion) companion.tracks ≡ true)
    × IsDeclared companion (run lower (new_runtime "g") calls).action
run-IsDeclared_example = run-IsDeclared lower "g" calls companion defines
