-- ===== src/Pet/Dispatch/Invariant.antt =====
-- internal/pet/runtime.go: whatever the runtime is called, what it shows is declared, and what it
-- remembers is bounded.
use dsh_work.Prelude.{
  ℕ, String, ◌≡◌, refl, sym, ◌∙◌, Bool, true, ◌||◌, Option, none, some, List, [], ◌∷◌, arith,
  Bool-cases, Option-cases, inl, subst, inr,
}
use dsh_work.Pet.Runtime.{
  PetDefinition, Runtime, PetInputEvent, new_runtime, start, started, with_fallback, stop,
  set_reduced_motion, has,
}
use dsh_work.Pet.Actions.{set_hidden, base_track}
use dsh_work.Pet.Actions.Shown.{
  IsDeclared, IsDeclared-nil, IsShowable, IsShowable-if, IsShowable-kept, IsShowable-quiet,
  IsShowable-add_diagnostic, Both-set_base, IsShowable-set_hidden, Both-trigger_action,
  IsShowable-play_action, has-base_track,
}
use dsh_work.Pet.Actions.Memory.{
  Alike, Alike-add_diagnostic, AlikeFirst-set_base, Alike-set_hidden, AlikeFirst-trigger_action,
  Alike-play_action,
}
use dsh_work.Pet.Transient.Kept.{IsShowable-finish_transient, Alike-finish_transient}
use dsh_work.Pet.Gate.{set_generation, enter_generation}
use dsh_work.Pet.Gate.Once.{
  Remembers, Remembers-kept, Remembers-nil, Remembers-IsKept, Remembers-set_generation,
  Remembers-if,
}
use dsh_work.Pet.Dispatch.{
  quiet, dispatch_to, dispatch, Call, starts, dispatches, hides, enters_generation, reduces, stops,
  finishes, finish_shown, call, run, call, Call,
}
use dsh_work.Pet.Gate.Declared.{IsShowable-IsKept, IsShowable-set_generation}
use dsh_work.Pet.Dispatch.Acted.{IsActed, acted_dispatch}

-- What is kept for every definition, and while there is none.
abbrev pub DefinedShowable : Option PetDefinition → Runtime → Type 0
DefinedShowable none r = r.definition ≡ none
DefinedShowable (some d) r = IsShowable d r × (has d.fallback_idle d.tracks ≡ true)

pub record Inv (r : Runtime) : Type 0 where
  pub shown : DefinedShowable r.definition r
  pub remembers : Remembers r

Remembers-Alike : (r s : Runtime) → Alike r s → Remembers r → Remembers s
Remembers-Alike r s a i = Remembers-kept r s a.seen a.order i

Showable-IsActed : (d : PetDefinition) → IsActed d (IsShowable d)
unfolding quiet
Showable-IsActed d = record {
  based = Both-set_base d;
  triggered = λ r name now i. Both-trigger_action d r name now i;
  quieted = λ r i. IsShowable-quiet d r _ refl refl i;
  hid = IsShowable-set_hidden d;
  clicked = IsShowable-play_action d;
  diagnosed = IsShowable-add_diagnostic d;
  reduced = λ r t i. IsShowable-kept d r _ refl refl i;
}

Remembers-IsActed : (d : PetDefinition) → IsActed d Remembers
unfolding quiet
Remembers-IsActed d = record {
  based = λ r b now i. Remembers-Alike r _ (AlikeFirst-set_base r b now) i;
  triggered = λ r name now i. Remembers-Alike r _ (AlikeFirst-trigger_action r d name now) i;
  quieted = λ r i. Remembers-kept r _ refl refl i;
  hid = λ r hidden now i. Remembers-Alike r _ (Alike-set_hidden r hidden now) i;
  clicked = λ r drawn now i. Remembers-Alike r _ (Alike-play_action r d drawn now) i;
  diagnosed = λ r c i. Remembers-Alike r _ (Alike-add_diagnostic r c) i;
  reduced = λ r t i. Remembers-kept r _ refl refl i;
}

Defined-IsShowable :
    (d : PetDefinition) (s : Runtime)
    → has d.fallback_idle d.tracks ≡ true
    → IsShowable d s
    → DefinedShowable s.definition s
Defined-IsShowable d s h i = subst (λ o. DefinedShowable o s) (sym i.defined) (i, h)

Defined-none : (s : Runtime) → s.definition ≡ none → DefinedShowable s.definition s
Defined-none s e = subst (λ o. DefinedShowable o s) (sym e) e

-- A step that leaves what is shown of any definition, and leaves the definition.
Defined-step :
    (r s : Runtime)
    → ((d : PetDefinition) → IsShowable d r → IsShowable d s)
    → s.definition ≡ r.definition
    → DefinedShowable r.definition r
    → DefinedShowable s.definition s
Defined-step r s f e i = elim (Option-cases r.definition) [
  | inl n ↦ Defined-none s (e ∙ n)
  | inr (d, n) ↦
      let j = subst (λ o. DefinedShowable o r) n i in Defined-IsShowable d s j.1 (f d j.0)
]

definition-set_hidden :
    (r : Runtime) (t : Bool) (now : ℕ) → (set_hidden r t now).definition ≡ r.definition
unfolding set_hidden
definition-set_hidden r t now = ground arith

Defined-start :
    (r : Runtime) (d : PetDefinition) (now : ℕ)
    → DefinedShowable r.definition r
    → DefinedShowable (start r d now).0.definition (start r d now).0
unfolding start started
Defined-start r d now i =
    let d' = with_fallback d in
    elim (Bool-cases (has d'.fallback_idle d'.tracks)) [
      | inl h ↦ rw h (record { defined = refl; declared = IsDeclared-nil d' }, h)
      | inr h ↦ rw h i
    ]

Defined-dispatch :
    (to_lower : String → String) (o : Option PetDefinition) (r : Runtime) (e : PetInputEvent)
    (drawn clock : ℕ)
    → r.definition ≡ o
    → DefinedShowable o r
    → DefinedShowable
        (dispatch_to to_lower o r e drawn clock).definition
        (dispatch_to to_lower o r e drawn clock)
unfolding dispatch_to
Defined-dispatch to_lower none r e drawn clock n i = Defined-none r n
Defined-dispatch to_lower (some d) r e drawn clock n (i, h) = Defined-IsShowable d _ h (
    acted_dispatch d (IsShowable d) (Showable-IsActed d) (IsShowable-IsKept d) to_lower r e drawn
      clock i)

Defined-finish :
    (o : Option PetDefinition) (r : Runtime) (at : ℕ)
    → r.definition ≡ o
    → DefinedShowable o r
    → DefinedShowable (finish_shown o r at).definition (finish_shown o r at)
unfolding finish_shown
Defined-finish none r at n i = Defined-none r n
Defined-finish (some d) r at n (i, h) =
    Defined-IsShowable d _ h
      (IsShowable-if d (r.stopped || r.hidden) r _ i (λ e. IsShowable-finish_transient d r at i))

definition-set_generation :
    (r : Runtime) (g : String) → (set_generation r g).definition ≡ r.definition
unfolding set_generation enter_generation
definition-set_generation r g = ground arith

Defined-call :
    (to_lower : String → String) (r : Runtime) (c : Call)
    → DefinedShowable r.definition r
    → DefinedShowable (call to_lower r c).definition (call to_lower r c)
unfolding call dispatch stop set_reduced_motion
Defined-call to_lower r (starts d now) i = Defined-start r d now i
Defined-call to_lower r (dispatches e drawn clock) i =
    Defined-dispatch to_lower r.definition r e drawn clock refl i
Defined-call to_lower r (hides t now) i =
    Defined-step r _ (λ d. IsShowable-set_hidden d r t now) (definition-set_hidden r t now) i
Defined-call to_lower r (enters_generation g) i =
    Defined-step r _ (λ d. IsShowable-set_generation d r g) (definition-set_generation r g) i
Defined-call to_lower r (reduces t) i =
    Defined-step r _ (λ d j. IsShowable-kept d r _ refl refl j) refl i
Defined-call to_lower r stops i = refl
Defined-call to_lower r (finishes at) i = Defined-finish r.definition r at refl i

Remembers-start :
    (r : Runtime) (d : PetDefinition) (now : ℕ) → Remembers r → Remembers (start r d now).0
unfolding start started
Remembers-start r d now i =
    let d' = with_fallback d in
    elim (Bool-cases (has d'.fallback_idle d'.tracks)) [
      | inl h ↦ rw h (Remembers-nil _ refl refl)
      | inr h ↦ rw h i
    ]

Remembers-dispatch :
    (to_lower : String → String) (o : Option PetDefinition) (r : Runtime) (e : PetInputEvent)
    (drawn clock : ℕ)
    → Remembers r
    → Remembers (dispatch_to to_lower o r e drawn clock)
unfolding dispatch_to
Remembers-dispatch to_lower none r e drawn clock i = i
Remembers-dispatch to_lower (some d) r e drawn clock i =
    acted_dispatch d Remembers (Remembers-IsActed d) Remembers-IsKept to_lower r e drawn clock i

Remembers-finish :
    (o : Option PetDefinition) (r : Runtime) (at : ℕ)
    → Remembers r
    → Remembers (finish_shown o r at)
unfolding finish_shown
Remembers-finish none r at i = i
Remembers-finish (some d) r at i =
    Remembers-if (r.stopped || r.hidden) r _ i
      (λ e. Remembers-Alike r _ (Alike-finish_transient d r at) i)

Remembers-call :
    (to_lower : String → String) (r : Runtime) (c : Call)
    → Remembers r
    → Remembers (call to_lower r c)
unfolding call dispatch stop set_reduced_motion
Remembers-call to_lower r (starts d now) i = Remembers-start r d now i
Remembers-call to_lower r (dispatches e drawn clock) i =
    Remembers-dispatch to_lower r.definition r e drawn clock i
Remembers-call to_lower r (hides t now) i = Remembers-Alike r _ (Alike-set_hidden r t now) i
Remembers-call to_lower r (enters_generation g) i = Remembers-set_generation r g i
Remembers-call to_lower r (reduces t) i = Remembers-kept r _ refl refl i
Remembers-call to_lower r stops i = Remembers-kept r _ refl refl i
Remembers-call to_lower r (finishes at) i = Remembers-finish r.definition r at i

Inv-run :
    (to_lower : String → String) (r : Runtime) (cs : List Call) → Inv r → Inv (run to_lower r cs)
unfolding run
Inv-run to_lower r [] i = i
Inv-run to_lower r (c ∷ cs) i = Inv-run to_lower (call to_lower r c) cs (record {
  shown = Defined-call to_lower r c i.shown;
  remembers = Remembers-call to_lower r c i.remembers;
})

Inv-new_runtime : (g : String) → Inv (new_runtime g)
unfolding new_runtime
Inv-new_runtime g = record { shown = refl; remembers = Remembers-nil (new_runtime g) refl refl }

-- After any calls of a new runtime that has a definition: the track of its base state is one of the
-- definition's tracks, and its action, if there is one, is one of the definition's actions with a track
-- of the definition.
pub run-IsDeclared :
    (to_lower : String → String) (g : String) (cs : List Call) (d : PetDefinition)
    → (run to_lower (new_runtime g) cs).definition ≡ some d
    → (has (base_track (run to_lower (new_runtime g) cs) d) d.tracks ≡ true)
      × IsDeclared d (run to_lower (new_runtime g) cs).action
run-IsDeclared to_lower g cs d e =
    let r = run to_lower (new_runtime g) cs in
    let i = (Inv-run to_lower (new_runtime g) cs (Inv-new_runtime g)).shown in
    let j = subst (λ o. DefinedShowable o r) e i in (has-base_track d r j.1, j.0.declared)

-- After any calls of a new runtime, the set of the event identifiers that it remembers holds what their
-- order holds, no identifier twice and no more than 2048.
pub run-Remembers :
    (to_lower : String → String) (g : String) (cs : List Call)
    → Remembers (run to_lower (new_runtime g) cs)
run-Remembers to_lower g cs = (Inv-run to_lower (new_runtime g) cs (Inv-new_runtime g)).remembers
