-- ===== src/Settings/Computer.antt =====
-- internal/settings/computer_policy.go: what the automation may do with the applications of a computer.
-- A level, a rule and a risk category are the source's strings. The settings of the manager are here
-- the policy that they hold; whether the context has ended and whether the store saves are arguments.
pub mod Kept
pub mod Safe
mod Examples
use Prim.Native.String.{compare}
use text.Mathlib.Text.{is_lt}
use dsh_work.Prelude.{
  ℕ, String, ◌==◌, Bool, true, false, not, ◌&&◌, ◌||◌, Option, none, some, List, [], ◌∷◌, ltb, eqb,
  length, if◌then◌else◌,
}
use dsh_work.Prelude.Assoc.{Assoc, lookup, insert}
use dsh_work.Prelude.Sort.{sort_by}

pub record ComputerAppRule : Type 0 where
  pub id : String
  pub name : String
  pub level : String

pub record ComputerPolicy : Type 0 where
  pub new_apps : String
  pub grant_lasts : String
  pub apps : List ComputerAppRule
  pub confirm : Assoc String

abbrev pub computer_risk_categories : List String
computer_risk_categories =
    "payment" ∷ "send" ∷ "publish" ∷ "delete" ∷ "install" ∷ "settings" ∷ "command" ∷ "close"
    ∷ "submit" ∷ "save" ∷ "unknown" ∷ []

-- The loop of `DefaultComputerPolicy`.
ask_all : List String → Assoc String → Assoc String
ask_all [] confirm = confirm
ask_all (c ∷ rest) confirm = ask_all rest (insert c "ask" confirm)

default_computer_policy : ComputerPolicy
default_computer_policy = record {
  new_apps = "ask";
  grant_lasts = "conversation";
  apps = [];
  confirm = ask_all computer_risk_categories [];
}

or_empty : Option String → String
or_empty none = ""
or_empty (some v) = v

-- `in.Confirm[c]`
pub confirmed : Assoc String → String → String
unfolding or_empty
confirmed given c = or_empty (lookup c given)

-- The answer differs from asking, and the category takes it.
pub overrides : String → String → Bool
overrides c v = v == "block" || v == "allow" && not (c == "payment")

-- The loop over the categories.
confirm_from : Assoc String → List String → Assoc String → Assoc String
confirm_from given [] confirm = confirm
confirm_from given (c ∷ rest) confirm =
    let v = confirmed given c in
    confirm_from given rest (if overrides c v then insert c v confirm else confirm)

pub is_level : String → Bool
is_level l = l == "view" || l == "click" || l == "full" || l == "blocked"

pub has_id : String → List String → Bool
has_id id [] = false
has_id id (x ∷ xs) = x == id || has_id id xs

takes_app : List String → ComputerAppRule → Bool
takes_app seen a = not (a.id == "") && not (has_id a.id seen) && is_level a.level

-- The loop over the applications, with the identifiers met so far.
keep_apps : List String → List ComputerAppRule → List ComputerAppRule
keep_apps seen [] = []
keep_apps seen (a ∷ rest) =
    let taken = a ∷ keep_apps (a.id ∷ seen) rest in
    let passed = keep_apps seen rest in if takes_app seen a then taken else passed

pub id_before : ComputerAppRule → ComputerAppRule → Bool
id_before a b = is_lt (compare a.id b.id)

-- The identifiers differ, so that `sort.Slice` has one result.
sort_apps : List ComputerAppRule → List ComputerAppRule
sort_apps = sort_by id_before

pub normalize_computer_policy : ComputerPolicy → ComputerPolicy
unfolding default_computer_policy
normalize_computer_policy p = record {
  new_apps = if p.new_apps == "allow" then "allow" else default_computer_policy.new_apps;
  grant_lasts = if p.grant_lasts == "turn" then "turn" else default_computer_policy.grant_lasts;
  apps = sort_apps (keep_apps [] p.apps);
  confirm = confirm_from p.confirm computer_risk_categories default_computer_policy.confirm;
}

has_entry : Option String → Bool
has_entry none = false
has_entry (some v) = true

-- What a confirmation must be, given those of the normal form.
is_confirmation : Assoc String → String → String → Bool
unfolding has_entry
is_confirmation normal c v =
    has_entry (lookup c normal)
    && (v == "allow" || v == "ask" || v == "block")
    && not (c == "payment" && v == "allow")

all_confirmations : Assoc String → Assoc String → Bool
all_confirmations normal [] = true
all_confirmations normal ((c, v) ∷ rest) =
    is_confirmation normal c v && all_confirmations normal rest

-- The checks of `SetComputerPolicy`.
pub is_valid : ComputerPolicy → Bool
is_valid p =
    let normal = normalize_computer_policy p in
    (p.new_apps == "allow" || p.new_apps == "ask")
    && (p.grant_lasts == "turn" || p.grant_lasts == "conversation")
    && not (ltb 256 (length p.apps))
    && eqb (length normal.apps) (length p.apps)
    && all_confirmations normal.confirm p.confirm

pub data Outcome : Type 0 where
  context_ended policy_invalid not_saved : Outcome
  stored : ComputerPolicy → Outcome

-- The settings after `SetComputerPolicy`, and what it returns.
pub set_computer_policy :
    (ended saves : Bool) → ComputerPolicy → Option ComputerPolicy → Option ComputerPolicy × Outcome
set_computer_policy ended saves p held =
    if ended
    then (held, context_ended)
    else if not (is_valid p)
    then (held, policy_invalid)
    else if not saves
    then (held, not_saved)
    else (some (normalize_computer_policy p), stored (normalize_computer_policy p))
