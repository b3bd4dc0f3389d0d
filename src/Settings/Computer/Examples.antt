-- ===== src/Settings/Computer/Examples.antt =====
-- internal/settings/computer_policy.go: a policy of two applications.
use dsh_work.Prelude.{◌≡◌, refl, true, false, none, [], ◌∷◌}
use dsh_work.Prelude.Assoc.{lookup, insert}
use dsh_work.Prelude.Sort.{sort_by}
use dsh_work.Settings.Computer.{
  sort_apps, keep_apps, takes_app, has_id, is_level, id_before, all_confirmations, is_confirmation,
  confirm_from, overrides, confirmed, ask_all, ComputerAppRule, ComputerPolicy,
  normalize_computer_policy, set_computer_policy, is_valid,
}
use dsh_work.Settings.Computer.Kept.{Sets, set_computer_policy-Sets}
use dsh_work.Settings.Computer.Safe.{IsSafe, normalize_computer_policy-IsSafe}

abbrev editor : ComputerAppRule
editor = record { id = "editor"; name = "Editor"; level = "full" }

abbrev browser : ComputerAppRule
browser = record { id = "browser"; name = "Browser"; level = "view" }

abbrev policy : ComputerPolicy
policy = record {
  new_apps = "allow";
  grant_lasts = "turn";
  apps = editor ∷ browser ∷ [];
  confirm = ("send", "allow") ∷ ("payment", "block") ∷ [];
}

abbrev generous : ComputerPolicy
generous = record policy { confirm = ("payment", "allow") ∷ [] }

sorts_rules : (normalize_computer_policy policy).apps ≡ browser ∷ editor ∷ []
unfolding normalize_computer_policy sort_apps sort_by keep_apps takes_app has_id is_level id_before
sorts_rules = refl

takes_policy : is_valid policy ≡ true
unfolding is_valid normalize_computer_policy sort_apps sort_by keep_apps takes_app has_id is_level
    id_before all_confirmations is_confirmation lookup confirm_from overrides confirmed insert
    ask_all
takes_policy = refl

refuses_generous : is_valid generous ≡ false
unfolding is_valid normalize_computer_policy sort_apps sort_by keep_apps takes_app has_id is_level
    id_before all_confirmations is_confirmation lookup confirm_from overrides confirmed insert
    ask_all
refuses_generous = refl

set_computer_policy-Sets_example :
    Sets false true policy none (set_computer_policy false true policy none)
set_computer_policy-Sets_example = set_computer_policy-Sets false true policy none

normalize_computer_policy-IsSafe_example : IsSafe (normalize_computer_policy generous)
normalize_computer_policy-IsSafe_example = normalize_computer_policy-IsSafe generous
