-- ===== src/Presence/Examples.antt =====
-- Instances of the theorems of internal/presence at concrete inputs.
use dsh_work.Prelude.{◌≡◌, refl, true, false, List, [], ◌∷◌}
use dsh_work.Prelude.Assoc.{ne}
use dsh_work.Presence.{
  Call, sets, clears, clears_all, run, new_tracker, is_focused, focus_after, is_focused-run,
}

abbrev calls : List Call
calls = sets "shell" true ∷ clears_all ∷ sets "pet" true ∷ sets "shell" true ∷ clears "pet" ∷ []

is_focused-run_example : is_focused (run new_tracker calls) "pet" ≡ focus_after "pet" false calls
is_focused-run_example = is_focused-run calls "pet" (ne "pet" "" refl)
