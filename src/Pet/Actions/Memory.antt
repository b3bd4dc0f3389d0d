-- ===== src/Pet/Actions/Memory.antt =====
-- internal/pet/runtime.go: what is shown changes nothing of what the runtime remembers.
use dsh_work.Prelude.{
  ℕ, ◌-◌, String, ◌==◌, ◌≡◌, refl, ◌∙◌, Bool, true, false, not, ◌&&◌, ◌||◌, Option, none, some,
  List, [], ◌∷◌, Bool-cases, if◌then◌else◌, eqb, length, inr, inl,
}
use dsh_work.Prelude.Assoc.{lookup}
use dsh_work.Pet.Runtime.{
  BaseState, Issue, ActionSpec, PetDefinition, Runtime, add_diagnostic, has, has_issue,
}
use dsh_work.Pet.Actions.{
  set_base, set_hidden, begin_action, begin_found, trigger_action, set_playful, play_first,
  play_click, quiet_playful, chosen, at_most, play_action, holds, same_state,
}

-- The two runtimes remember the same.
pub record Alike (r s : Runtime) : Type 0 where
  pub seen : s.seen ≡ r.seen
  pub order : s.seen_order ≡ r.seen_order

pub Alike-refl : (r : Runtime) → Alike r r
Alike-refl r = record { seen = refl; order = refl }

pub Alike-trans : (r s t : Runtime) → Alike r s → Alike s t → Alike r t
Alike-trans r s t a b = record { seen = b.seen ∙ a.seen; order = b.order ∙ a.order }

pub Alike-if :
    (r : Runtime) (t : Bool) (x y : Runtime) → Alike r x → Alike r y → Alike r (if t then x else y)
Alike-if r true x y a b = a
Alike-if r false x y a b = b

abbrev pub AlikeFirst : Runtime → Runtime × Bool → Type 0
AlikeFirst r x = Alike r x.0

AlikeFirst-if :
    (r : Runtime) (t : Bool) (x y : Runtime × Bool)
    → AlikeFirst r x
    → AlikeFirst r y
    → AlikeFirst r (if t then x else y)
AlikeFirst-if r true x y a b = a
AlikeFirst-if r false x y a b = b

pub Alike-add_diagnostic : (r : Runtime) (i : Issue) → Alike r (add_diagnostic r i)
unfolding add_diagnostic
Alike-add_diagnostic r i =
    Alike-if r (has_issue i r.diagnostics) _ _ (Alike-refl r) (record { seen = refl; order = refl })

pub AlikeFirst-set_base : (r : Runtime) (b : BaseState) (now : ℕ) → AlikeFirst r (set_base r b now)
unfolding set_base
AlikeFirst-set_base r b now =
    AlikeFirst-if r (same_state r.base b) _ _ (Alike-refl r) (record { seen = refl; order = refl })

pub Alike-set_hidden : (r : Runtime) (hidden : Bool) (now : ℕ) → Alike r (set_hidden r hidden now)
unfolding set_hidden
Alike-set_hidden r hidden now =
    Alike-if r (hidden && r.hidden || not hidden && not r.hidden) _ _ (Alike-refl r) (
      Alike-if r hidden _ _ (record { seen = refl; order = refl })
        (record { seen = refl; order = refl }))

AlikeFirst-begin_action :
    (r : Runtime) (d : PetDefinition) (name : String) (spec : ActionSpec) (now : ℕ)
    → AlikeFirst r (begin_action r d name spec now)
unfolding begin_action
AlikeFirst-begin_action r d name spec now =
    AlikeFirst-if r (not (has spec.track d.tracks)) _ _ (Alike-add_diagnostic r _) (
      AlikeFirst-if r (not (r.action == "") && holds (lookup r.action d.actions) spec.priority) _ _
        (Alike-refl r) (record { seen = refl; order = refl }))

AlikeFirst-begin_found :
    (r : Runtime) (d : PetDefinition) (name : String) (o : Option ActionSpec) (now : ℕ)
    → AlikeFirst r (begin_found r d name o now)
unfolding begin_found
AlikeFirst-begin_found r d name none now =
    Alike-if r (name == "") _ _ (Alike-refl r) (Alike-add_diagnostic r _)
AlikeFirst-begin_found r d name (some spec) now = AlikeFirst-begin_action r d name spec now

pub AlikeFirst-trigger_action :
    (r : Runtime) (d : PetDefinition) (name : String) (now : ℕ)
    → AlikeFirst r (trigger_action r d name now)
unfolding trigger_action
AlikeFirst-trigger_action r d name now = AlikeFirst-begin_found r d name (lookup name d.actions) now

Alike-set_playful : (x : Runtime × Bool) → Alike x.0 (set_playful x)
unfolding set_playful
Alike-set_playful (r, false) = Alike-refl r
Alike-set_playful (r, true) = record { seen = refl; order = refl }

Alike-play_first :
    (d : PetDefinition) (now : ℕ) (names : List String) (r : Runtime)
    → Alike r (play_first d now names r)
unfolding play_first
Alike-play_first d now [] r = Alike-refl r
Alike-play_first d now (name ∷ rest) r = elim (Bool-cases (has name d.actions)) [
  | inr e ↦ rw e (Alike-play_first d now rest r)
  | inl e ↦ rw e (
      let done = AlikeFirst-trigger_action r d name now in
      let after = (trigger_action r d name now).0 in
      Alike-if r (trigger_action r d name now).1 _ _
        (record { seen = done.seen; order = done.order })
        (Alike-trans r after (play_first d now rest after) done
          (Alike-play_first d now rest after)))
]

Alike-play_click :
    (r : Runtime) (d : PetDefinition) (name : String) (now : ℕ) → Alike r (play_click r d name now)
unfolding play_click
Alike-play_click r d name now =
    let x = trigger_action r d name now in
    Alike-trans r x.0 (set_playful x) (AlikeFirst-trigger_action r d name now) (Alike-set_playful x)

Alike-quiet_playful : (r : Runtime) → Alike r (quiet_playful r)
unfolding quiet_playful
Alike-quiet_playful r =
    Alike-if r r.playful _ r (record { seen = refl; order = refl }) (Alike-refl r)

pub Alike-play_action :
    (r : Runtime) (d : PetDefinition) (drawn now : ℕ) → Alike r (play_action r d drawn now)
unfolding play_action
Alike-play_action r d drawn now =
    let q = quiet_playful r in
    let names = "click" ∷ "wave" ∷ "bounce" ∷ [] in
    let name = chosen d.clicks (at_most (length d.clicks - 1) drawn) in
    Alike-if r (eqb (length d.clicks) 0) (play_first d now names q) (play_click q d name now)
      (Alike-trans r q (play_first d now names q) (Alike-quiet_playful r)
        (Alike-play_first d now names q))
      (Alike-trans r q (play_click q d name now) (Alike-quiet_playful r)
        (Alike-play_click q d name now))
