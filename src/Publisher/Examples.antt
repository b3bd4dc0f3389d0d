-- ===== src/Publisher/Examples.antt =====
-- Instances of the theorems on internal/desktopapp/trailing_publisher.go at concrete inputs.
use dsh_work.Prelude.{ℕ, ◌≡◌, List, [], ◌∷◌}
use dsh_work.Publisher.{run, new_publisher, new_publisher}
use dsh_work.Publisher.Kept.{
  Action, throttled, fires, drained, contents, given, steps_of, append_lists, throttled-contents,
}

abbrev actions : List (ℕ × Action ℕ)
actions =
    (1, throttled (1 ∷ []))
    ∷ (1, throttled (2 ∷ []))
    ∷ (1, throttled (3 ∷ 4 ∷ []))
    ∷ (2, drained)
    ∷ (100, fires 1)
    ∷ []

throttled-contents_example :
    contents (run 100 append_lists new_publisher 5 (steps_of actions)) ≡ given actions
throttled-contents_example = throttled-contents 100 5 actions
