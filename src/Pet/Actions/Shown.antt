-- ===== src/Pet/Actions/Shown.antt =====
-- internal/pet/runtime.go: whatever is done, the action and the track that are shown are declared.
use dsh_work.Prelude.{
  ℕ, String, ◌==◌, ◌-◌, ◌≡◌, refl, sym, ◌∙◌, ◌⊎◌, inl, inr, Bool, true, false, not, ◌&&◌, ◌||◌,
  Option, none, some, List, [], ◌∷◌, arith, Bool-cases, if◌then◌else◌, eqb, length, subst,
}
use dsh_work.Prelude.Assoc.{lookup}
use dsh_work.Pet.Runtime.{
  BaseState, Issue, StateSpec, ActionSpec, PetDefinition, Runtime, add_diagnostic, has, has_issue,
}
use dsh_work.Pet.Actions.{
  set_base, set_hidden, begin_action, begin_found, trigger_action, set_playful, play_first,
  play_action, base_track, state_track, shown_state, holds, has_ended, same_state, chosen,
  play_click, quiet_playful, at_most,
}

-- There is no action, or it is declared with a track that is.
abbrev pub IsDeclared : PetDefinition → String → Type 0
IsDeclared d action =
    ((action == "") ≡ true)
    ⊎ ((spec : ActionSpec) × (lookup action d.actions ≡ some spec)
        × (has spec.track d.tracks ≡ true))

pub record IsShowable (d : PetDefinition) (r : Runtime) : Type 0 where
  pub defined : r.definition ≡ some d
  pub declared : IsDeclared d r.action

pub IsDeclared-nil : (d : PetDefinition) → IsDeclared d ""
IsDeclared-nil d = inl refl

pub IsShowable-if :
    (d : PetDefinition) (t : Bool) (x y : Runtime)
    → IsShowable d x
    → (t ≡ false → IsShowable d y)
    → IsShowable d (if t then x else y)
IsShowable-if d true x y i k = i
IsShowable-if d false x y i k = k refl

-- A step that leaves the definition and the action.
pub IsShowable-kept :
    (d : PetDefinition) (r s : Runtime)
    → s.definition ≡ r.definition
    → s.action ≡ r.action
    → IsShowable d r
    → IsShowable d s
IsShowable-kept d r s e f i = record {
  defined = e ∙ i.defined;
  declared = subst (IsDeclared d) (sym f) i.declared;
}

-- A step that leaves the definition and ends the action.
pub IsShowable-quiet :
    (d : PetDefinition) (r s : Runtime)
    → s.definition ≡ r.definition
    → s.action ≡ ""
    → IsShowable d r
    → IsShowable d s
IsShowable-quiet d r s e f i = record {
  defined = e ∙ i.defined;
  declared = subst (IsDeclared d) (sym f) (IsDeclared-nil d);
}

pub IsShowable-add_diagnostic :
    (d : PetDefinition) (r : Runtime) (i : Issue)
    → IsShowable d r
    → IsShowable d (add_diagnostic r i)
unfolding add_diagnostic
IsShowable-add_diagnostic d r i k =
    IsShowable-if d (has_issue i r.diagnostics) _ _ k (λ e. IsShowable-kept d r _ refl refl k)

abbrev pub Both : PetDefinition → Runtime × Bool → Type 0
Both d x = IsShowable d x.0

Both-if :
    (d : PetDefinition) (t : Bool) (x y : Runtime × Bool)
    → Both d x
    → (t ≡ false → Both d y)
    → Both d (if t then x else y)
Both-if d true x y i k = i
Both-if d false x y i k = k refl

IsDeclared-if :
    (d : PetDefinition) (t : Bool) (a : String)
    → IsDeclared d a
    → IsDeclared d (if t then a else "")
IsDeclared-if d true a i = i
IsDeclared-if d false a i = IsDeclared-nil d

pub Both-set_base :
    (d : PetDefinition) (r : Runtime) (b : BaseState) (now : ℕ)
    → IsShowable d r
    → Both d (set_base r b now)
unfolding set_base
Both-set_base d r b now i = Both-if d (same_state r.base b) _ _ i (λ e. record {
  defined = i.defined;
  declared = IsDeclared-if d (has_ended b) r.action i.declared;
})

pub IsShowable-set_hidden :
    (d : PetDefinition) (r : Runtime) (hidden : Bool) (now : ℕ)
    → IsShowable d r
    → IsShowable d (set_hidden r hidden now)
unfolding set_hidden
IsShowable-set_hidden d r hidden now i =
    IsShowable-if d (hidden && r.hidden || not hidden && not r.hidden) _ _ i (λ e.
      IsShowable-if d hidden _ _ (IsShowable-kept d r _ refl refl i)
        (λ f. IsShowable-quiet d r _ refl refl i))

Both-begin_action :
    (d : PetDefinition) (r : Runtime) (name : String) (spec : ActionSpec) (now : ℕ)
    → lookup name d.actions ≡ some spec
    → IsShowable d r
    → Both d (begin_action r d name spec now)
unfolding begin_action
Both-begin_action d r name spec now e i =
    Both-if d (not (has spec.track d.tracks)) _ _ (IsShowable-add_diagnostic d r _ i) (λ f.
      Both-if d (not (r.action == "") && holds (lookup r.action d.actions) spec.priority) _ _ i
        (λ g. record { defined = i.defined; declared = inr (spec, e, ground arith) }))

Both-begin_found :
    (d : PetDefinition) (r : Runtime) (name : String) (o : Option ActionSpec) (now : ℕ)
    → lookup name d.actions ≡ o
    → IsShowable d r
    → Both d (begin_found r d name o now)
unfolding begin_found
Both-begin_found d r name none now e i =
    IsShowable-if d (name == "") _ _ i (λ f. IsShowable-add_diagnostic d r _ i)
Both-begin_found d r name (some spec) now e i = Both-begin_action d r name spec now e i

pub Both-trigger_action :
    (d : PetDefinition) (r : Runtime) (name : String) (now : ℕ)
    → IsShowable d r
    → Both d (trigger_action r d name now)
unfolding trigger_action
Both-trigger_action d r name now = Both-begin_found d r name (lookup name d.actions) now refl

IsShowable-set_playful :
    (d : PetDefinition) (x : Runtime × Bool) → Both d x → IsShowable d (set_playful x)
unfolding set_playful
IsShowable-set_playful d (r, false) i = i
IsShowable-set_playful d (r, true) i = IsShowable-kept d r _ refl refl i

IsShowable-play_first :
    (d : PetDefinition) (now : ℕ) (names : List String) (r : Runtime)
    → IsShowable d r
    → IsShowable d (play_first d now names r)
unfolding play_first
IsShowable-play_first d now [] r i = i
IsShowable-play_first d now (name ∷ rest) r i = elim (Bool-cases (has name d.actions)) [
  | inr e ↦ rw e (IsShowable-play_first d now rest r i)
  | inl e ↦ rw e (
      IsShowable-if d (trigger_action r d name now).1 _ _
        (IsShowable-kept d (trigger_action r d name now).0 _ refl refl
          (Both-trigger_action d r name now i))
        (λ f.
          IsShowable-play_first d now rest (trigger_action r d name now).0
            (Both-trigger_action d r name now i)))
]

IsShowable-quiet_playful :
    (d : PetDefinition) (r : Runtime) → IsShowable d r → IsShowable d (quiet_playful r)
unfolding quiet_playful
IsShowable-quiet_playful d r i =
    IsShowable-if d r.playful _ r (IsShowable-quiet d r _ refl refl i) (λ e. i)

IsShowable-play_click :
    (d : PetDefinition) (r : Runtime) (name : String) (now : ℕ)
    → IsShowable d r
    → IsShowable d (play_click r d name now)
unfolding play_click
IsShowable-play_click d r name now i =
    IsShowable-set_playful d (trigger_action r d name now) (Both-trigger_action d r name now i)

pub IsShowable-play_action :
    (d : PetDefinition) (r : Runtime) (drawn now : ℕ)
    → IsShowable d r
    → IsShowable d (play_action r d drawn now)
unfolding play_action
IsShowable-play_action d r drawn now i =
    let q = IsShowable-quiet_playful d r i in
    let name = chosen d.clicks (at_most (length d.clicks - 1) drawn) in
    IsShowable-if d (eqb (length d.clicks) 0)
      (play_first d now ("click" ∷ "wave" ∷ "bounce" ∷ []) (quiet_playful r))
      (play_click (quiet_playful r) d name now)
      (IsShowable-play_first d now ("click" ∷ "wave" ∷ "bounce" ∷ []) (quiet_playful r) q)
      (λ e. IsShowable-play_click d (quiet_playful r) name now q)

has-state_track :
    (d : PetDefinition) (o : Option StateSpec)
    → has d.fallback_idle d.tracks ≡ true
    → has (state_track d o) d.tracks ≡ true
unfolding state_track
has-state_track d none h = h
has-state_track d (some s) h = ground arith

-- The track of the base state is declared, if that of the idle state is.
pub has-base_track :
    (d : PetDefinition) (r : Runtime)
    → has d.fallback_idle d.tracks ≡ true
    → has (base_track r d) d.tracks ≡ true
unfolding base_track
has-base_track d r h = ground (arith, has-state_track d (lookup (shown_state d r.base) d.states) h)
