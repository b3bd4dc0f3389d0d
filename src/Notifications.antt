-- ===== src/Notifications.antt =====
-- internal/notifications/router.go: preferences, the memory of events, and the delivery policy.
pub mod Recall
pub mod Policy
pub mod Once
mod Examples
use dsh_work.Prelude.{
  ℕ, String, ◌==◌, Bool, true, false, not, ◌&&◌, ◌||◌, Option, none, some, List, [], ◌∷◌, ◌++◌, ltb,
  leb, length, if◌then◌else◌,
}
use dsh_work.Prelude.Assoc.{Assoc}
use dsh_work.Prelude.Space.{trim_space}
use dsh_work.Prelude.Words.{fields, join_spaced, rune_count, take_runes}
use dsh_work.Notifications.Recall.{Memory, max_remembered_events, new_memory, remember}

pub data Class : Type 0 where
  action_required completed dsh_interaction error lifecycle : Class
  other : String → Class

pub data PreferenceKey : Type 0 where
  enabled_key completed_key interaction_required_key errors_key lifecycle_key : PreferenceKey
  other_key : String → PreferenceKey

pub record Preferences : Type 0 where
  pub enabled : Bool
  pub completed : Bool
  pub interaction_required : Bool
  pub errors : Bool
  pub lifecycle : Bool

pub default_preferences : Preferences
default_preferences = record {
  enabled = true;
  completed = true;
  interaction_required = true;
  errors = true;
  lifecycle = false;
}

-- `classPreferenceRules`: the rule of a class, if it has one.
pub class_rule : Class → Option (Preferences → Bool)
class_rule action_required = some (λ p. p.interaction_required)
class_rule completed = some (λ p. p.completed)
class_rule dsh_interaction = some (λ p. p.interaction_required)
class_rule error = some (λ p. p.errors)
class_rule lifecycle = some (λ p. p.lifecycle)
class_rule (other name) = none

follows_rule : Option (Preferences → Bool) → Preferences → Bool
follows_rule none p = false
follows_rule (some rule) p = rule p

pub allows : Preferences → Class → Bool
unfolding class_rule follows_rule
allows p c = if not p.enabled then false else follows_rule (class_rule c) p

-- `Preferences.Set`; the result tells whether the key is known.
pub set_preference : Preferences → PreferenceKey → Bool → Preferences × Bool
set_preference p enabled_key b = (record p { enabled = b }, true)
set_preference p completed_key b = (record p { completed = b }, true)
set_preference p interaction_required_key b = (record p { interaction_required = b }, true)
set_preference p errors_key b = (record p { errors = b }, true)
set_preference p lifecycle_key b = (record p { lifecycle = b }, true)
set_preference p (other_key name) b = (p, false)

pub record Event : Type 0 where
  pub id : String
  pub class : Class
  pub title : String
  pub body : String
  pub target : String
  pub category_id : String
  pub values : Assoc String
  pub allow_when_workspace_focused : Bool

pub clean_text : String → ℕ → String
clean_text text limit =
    let value = join_spaced (fields text) in
    if leb (rune_count value) limit then value else take_runes limit value

pub valid_class : Class → Bool
unfolding class_rule
valid_class c = elim (class_rule c) [ none ↦ false | some rule ↦ true ]

values_fit : Assoc String → Bool
values_fit [] = true
values_fit ((k, v) ∷ m) = let rest = values_fit m in if ltb 256 (rune_count v) then false else rest

pub valid_data : Assoc String → Bool
unfolding values_fit
valid_data m = if ltb 8 (length m) then false else values_fit m

cleaned : Event → Event
cleaned e = record e {
  id = trim_space e.id;
  title = clean_text e.title 120;
  body = clean_text e.body 400;
  target = clean_text e.target 80;
}

is_unnamed : Class → Bool
is_unnamed (other name) = name == ""
is_unnamed _ = false

rejects : Event → Bool
unfolding is_unnamed
rejects e =
    e.id == ""
    || ltb 160 (rune_count e.id)
    || is_unnamed e.class
    || e.title == ""
    || not (valid_class e.class)
    || not (valid_data e.values)

pub normalize_event : Event → Option Event
unfolding cleaned rejects
normalize_event e = if rejects (cleaned e) then none else some (cleaned e)

pub record Router : Type 0 where
  pub preferences : Preferences
  pub memory : Memory

pub new_router : Router
new_router = record { preferences = default_preferences; memory = new_memory max_remembered_events }

pub set_preferences : Router → Preferences → Router
set_preferences r p = record r { preferences = p }

-- What one call of `Publish` meets: whether its context has ended, what `isActive` answers (`none`
-- if it is nil), whether `Send` fails (`none` if there is no delivery), and whether a failure
-- handler is set.
pub record Surroundings : Type 0 where
  pub ended : Bool
  pub active : Option Bool
  pub send_fails : Option Bool
  pub has_handler : Bool

pub data Error : Type 0 where
  context_ended invalid_event no_delivery send_failed : Error

pub data Effect : Type 0 where
  sends reports_failure : Event → Effect

abbrev pub Outcome : Type 0
Outcome = Option Error × List Effect

interrupts : Class → Bool
interrupts action_required = true
interrupts dsh_interaction = true
interrupts error = true
interrupts _ = false

may_interrupt : Event → Bool
unfolding interrupts
may_interrupt e = e.allow_when_workspace_focused && interrupts e.class

is_active : Option Bool → Bool
is_active none = false
is_active (some b) = b

failure_effects : Bool → Event → List Effect
failure_effects true e = reports_failure e ∷ []
failure_effects false e = []

deliver : Surroundings → Event → Outcome
unfolding failure_effects
deliver w e = elim w.send_fails [
  | none ↦ (some no_delivery, failure_effects w.has_handler e)
  | some true ↦ (some send_failed, sends e ∷ failure_effects w.has_handler e)
  | some false ↦ (none, sends e ∷ [])
]

-- `Publish` past the memory: the preferences and the foreground.
pub decide_delivery : Preferences → Surroundings → Event → Outcome
unfolding may_interrupt is_active deliver
decide_delivery p w e =
    if not (allows p e.class)
    then (none, [])
    else if is_active w.active && not (may_interrupt e)
    then (none, [])
    else deliver w e

publish_fresh : Router → Surroundings → Event → Memory × Bool → Router × Outcome
publish_fresh r w e (m, false) = (r, (none, []))
publish_fresh r w e (m, true) = (record r { memory = m }, decide_delivery r.preferences w e)

publish_event : Router → Surroundings → Option Event → Router × Outcome
unfolding publish_fresh
publish_event r w none = (r, (some invalid_event, []))
publish_event r w (some e) = publish_fresh r w e (remember max_remembered_events r.memory e.id)

pub publish : Router → Surroundings → Event → Router × Outcome
unfolding publish_event
publish r w e =
    if w.ended then (r, (some context_ended, [])) else publish_event r w (normalize_event e)
