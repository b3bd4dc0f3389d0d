-- ===== src/Notifications/Examples.antt =====
-- Instances of the theorems of internal/notifications at concrete inputs.
use dsh_work.Prelude.Space.{trim_space}
use dsh_work.Prelude.Words.{fields, join_spaced, rune_count}
use dsh_work.Prelude.Assoc.{lookup, insert}
use dsh_work.Prelude.{◌≡◌, String, some, [], ◌∷◌, true, false, arith, refl}
use dsh_work.Notifications.{
  Event, Surroundings, completed, new_router, publish, publish_fresh, publish_event,
  decide_delivery, deliver, normalize_event, clean_text, valid_class, valid_data, allows,
  default_preferences, class_rule, send_failed, trim_space, fields, join_spaced, rune_count,
}
use dsh_work.Notifications.Recall.{remember, new_memory}
use dsh_work.Notifications.Recall.Ring.{remember_spec, window}
use dsh_work.Notifications.Recall.Queue.{remember_all_spec, remember_all, ring-refines_queue}
use dsh_work.Notifications.Recall.Slices.{Distinct}
use dsh_work.Notifications.Once.{sends_once, sent, publish_all}

-- A ring of two that has met three identifiers meets the first of them again.
ring-refines_queue_example :
    let m = remember_all 2 (new_memory 2) ("a" ∷ "b" ∷ "c" ∷ []) in
    let ws = remember_all_spec 2 [] ("a" ∷ "b" ∷ "c" ∷ []) in
    ((remember 2 m "a").1 ≡ (remember_spec 2 ws "a").1)
    × (window 2 (remember 2 m "a").0 ≡ (remember_spec 2 ws "a").0)
ring-refines_queue_example = ring-refines_queue 2 ("a" ∷ "b" ∷ "c" ∷ []) "a" (omega arith)

abbrev finished : String → Event
finished id = record {
  id = id;
  class = completed;
  title = "Done";
  body = "";
  target = "";
  category_id = "";
  values = [];
  allow_when_workspace_focused = false;
}

abbrev quiet : Surroundings
quiet = record { ended = false; active = some false; send_fails = some true; has_handler = true }

abbrev busy : Surroundings
busy = record { ended = false; active = some true; send_fails = some false; has_handler = true }

sends_once_example : Distinct (
    sent (
      publish_all new_router
        ((quiet, finished "a") ∷ (quiet, finished "a") ∷ (quiet, finished "b") ∷ [])))
sends_once_example =
    sends_once ((quiet, finished "a") ∷ (quiet, finished "a") ∷ (quiet, finished "b") ∷ [])
      (omega arith)

-- The delivery fails, and the event is used up.
delivery_fails : (publish new_router quiet (finished "a")).1.0 ≡ some send_failed
unfolding publish normalize_event clean_text valid_class valid_data publish_event publish_fresh
    decide_delivery deliver new_router allows new_memory remember trim_space fields join_spaced
    rune_count lookup insert default_preferences class_rule
delivery_fails = refl
