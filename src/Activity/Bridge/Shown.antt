-- ===== src/Activity/Bridge/Shown.antt =====
-- internal/dshactivity/bridge.go: whatever the bridge is called, its snapshot is of its generation
-- and can be shown.
use dsh_work.Prelude.{
  String, ◌≡◌, refl, sym, ◌∙◌, ◌==◌, eq_iff, Bool, true, false, not, ◌||◌, Option, none, some, List,
  [], ◌∷◌, All, All-weaken, arith, length, ltb, Bool-cases, Option-cases, if◌then◌else◌, inl, subst,
  inr, ◌⊎◌,
}
use dsh_work.Prelude.Int.{ℤ}
use dsh_work.Release.Text.{same, is_empty}
use dsh_work.Activity.Session.Clean.{IsBounded, IsAnswerable-IsBounded}
use dsh_work.Activity.Projection.{Snapshot, Intent, normalize, animation_intent}
use dsh_work.Activity.Projection.Shape.{IsNormal, normalize-IsNormal, animation_intent-IsAnswerable}
use dsh_work.Activity.Bridge.{
  Bridge, new_bridge, no_snapshot, set_navigation, stop, begin, begin_drawn, start, disconnected,
  accept, accept_normal, receive, receive_checked, checked, is_one, opened, commit_navigation,
  report_session_opened, navigation_timed_out, close, Call, call, run, begins, starts, receives,
  disconnects, opens, reports, times_out, navigates, closes,
}
use dsh_work.Activity.Projection.{comes_before}
use dsh_work.Prelude.Sort.{Sorted}
use dsh_work.Activity.Bridge.Begun.{last_begun, generation-run}

pub record Inv (b : Bridge) : Type 0 where
  pub generation : b.state.generation ≡ b.generation
  pub sorted : Sorted comes_before b.state.sessions
  pub bounded : All IsBounded b.state.sessions

Inv-new_bridge : Inv new_bridge
unfolding new_bridge no_snapshot
Inv-new_bridge = record { generation = refl; sorted = tt; bounded = tt }

-- A choice keeps what both of its sides have.
Inv-if :
    (t : Bool) (x y : Bridge) → (t ≡ true → Inv x) → (t ≡ false → Inv y) → Inv (if t then x else y)
Inv-if true x y f g = f refl
Inv-if false x y f g = g refl

-- A step that leaves the generation and what the snapshot holds.
Inv-step :
    (b c : Bridge)
    → c.generation ≡ b.generation
    → c.state.generation ≡ b.state.generation
    → c.state.sessions ≡ b.state.sessions
    → Inv b
    → Inv c
Inv-step b c e f g i = record {
  generation = f ∙ (i.generation ∙ sym e);
  sorted = subst (Sorted comes_before) (sym g) i.sorted;
  bounded = subst (All IsBounded) (sym g) i.bounded;
}

Inv-begin :
    (b : Bridge) (generation : String) (drawn : Option String)
    → Inv b
    → Inv (begin b generation drawn).0
unfolding begin begin_drawn stop
Inv-begin b generation none i = elim (Bool-cases (generation == "")) [
  | inl h ↦ rw h i
  | inr h ↦ rw h (Inv-step b (stop b) refl refl refl i)
]
Inv-begin b generation (some token) i = elim (Bool-cases (generation == "")) [
  | inl h ↦ rw h i
  | inr h ↦ rw h (record { generation = refl; sorted = tt; bounded = tt })
]

Inv-disconnected : (b : Bridge) (captured : String) → Inv b → Inv (disconnected b captured)
unfolding disconnected
Inv-disconnected b captured i =
    Inv-if (not (b.generation == captured) || not b.state.connected) _ _ (λ h. i)
      (λ h. Inv-step b _ refl refl refl i)

Inv-kept :
    (b : Bridge) (captured : String) (s t : Snapshot)
    → s.generation ≡ captured
    → IsNormal s t
    → Inv b
    → Inv (accept_normal b captured (some t))
unfolding accept_normal
Inv-kept b captured s t e n i =
    Inv-if (not (b.generation == captured)) _ _ (λ k. i)
      (λ k. record {
        generation = ground (arith, n.same_generation, eq_iff b.generation captured);
        sorted = n.sorted;
        bounded = n.bounded;
      })

Inv-accept :
    (b : Bridge) (captured : String) (s : Snapshot)
    → s.generation ≡ captured
    → Inv b
    → Inv (accept b captured s)
unfolding accept
Inv-accept b captured s e i = elim (Option-cases (normalize s)) [
  | inl h ↦ rw h (Inv-disconnected b captured i)
  | inr (t, h) ↦ rw h (Inv-kept b captured s t e (normalize-IsNormal s t h) i)
]

checked-cases :
    (s : Snapshot) (captured : String)
    → (checked s captured ≡ none) ⊎ ((s.generation ≡ captured) × (checked s captured ≡ normalize s))
unfolding checked
checked-cases s captured =
    elim (Bool-cases (
      not (is_one s.schema_version)
      || ltb 256 (length s.sessions)
      || not (s.generation == captured))) [
        | inl h ↦ inl (rw h refl)
        | inr h ↦ inr (ground (arith, eq_iff s.generation captured), rw h refl)
      ]

checked-generation :
    (s t : Snapshot) (captured : String) → checked s captured ≡ some t → t.generation ≡ captured
checked-generation s t captured h = elim (checked-cases s captured) [
  | inl e ↦ ground arith
  | inr (g, e) ↦ (normalize-IsNormal s t (sym e ∙ h)).same_generation ∙ g
]

Inv-receive : (b : Bridge) (captured : String) (s : Snapshot) → Inv b → Inv (receive b captured s)
unfolding receive receive_checked
Inv-receive b captured s i = elim (Option-cases (checked s captured)) [
  | inl h ↦ rw h (Inv-disconnected b captured i)
  | inr (t, h) ↦ rw h (Inv-accept b captured t (checked-generation s t captured h) i)
]

Inv-opened :
    (b : Bridge) (window : Option String) (ended : Bool) → Inv b → Inv (opened b window ended).0
unfolding opened commit_navigation
Inv-opened b none ended i = i
Inv-opened b (some window) ended i = elim (Bool-cases (window == "")) [
  | inl h ↦ rw h i
  | inr h ↦
      rw h
        (elim (Bool-cases ended) [ inl k ↦ rw k i | inr k ↦ rw k (Inv-step b _ refl refl refl i) ])
]

pub Inv-call : (b : Bridge) (c : Call) → Inv b → Inv (call b c)
unfolding call start set_navigation stop close report_session_opened navigation_timed_out
Inv-call b (begins generation drawn) i = Inv-begin b generation drawn i
Inv-call b (starts origin) i = Inv-step b _ refl refl refl i
Inv-call b (receives captured s) i = Inv-receive b captured s i
Inv-call b (disconnects captured) i = Inv-disconnected b captured i
Inv-call b (opens window ended) i = Inv-opened b window ended i
Inv-call b (reports id error) i =
    Inv-if (is_empty id || not (same b.navigation_id id)) _ _ (λ h. i)
      (λ h. Inv-step b _ refl refl refl i)
Inv-call b (times_out captured id) i =
    Inv-if (not (b.generation == captured) || not (same b.navigation_id id)) _ _ (λ h. i)
      (λ h. Inv-step b _ refl refl refl i)
Inv-call b (navigates given) i = Inv-step b _ refl refl refl i
Inv-call b closes i = Inv-step b _ refl refl refl i

pub Inv-run : (b : Bridge) (cs : List Call) → Inv b → Inv (run b cs)
unfolding run
Inv-run b [] i = i
Inv-run b (c ∷ cs) i = Inv-run (call b c) cs (Inv-call b c i)

-- Whatever a new bridge has been called and whatever the workers have sent, its snapshot is of the
-- generation that was begun last, or of the empty one if none was; its sessions stand in the order of
-- `normalize`, and each of them is within the bounds of `normalize` and in the state that
-- `activityState` gives it.
pub Inv-run_new :
    (cs : List Call)
    → let s = (run new_bridge cs).state in
      (s.generation ≡ last_begun "" cs) × Sorted comes_before s.sessions × All IsBounded s.sessions
Inv-run_new cs =
    let i = Inv-run new_bridge cs Inv-new_bridge in
    (i.generation ∙ (generation-run new_bridge cs ∙ unfold new_bridge in refl), i.sorted, i.bounded)

-- After any calls of a new bridge, whatever the workers have sent, there is an animation for the
-- snapshot: `AnimationIntent` never reads an interaction that is not there.
pub animation_intent-run :
    (cs : List Call) (format_int : ℤ → String)
    → (i : Intent) × (animation_intent format_int (run new_bridge cs).state ≡ some i)
animation_intent-run cs format_int =
    animation_intent-IsAnswerable format_int (run new_bridge cs).state
      (All-weaken IsAnswerable-IsBounded (run new_bridge cs).state.sessions (Inv-run_new cs).2)
