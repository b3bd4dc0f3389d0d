-- ===== src/Activity/Bridge/Navigation.antt =====
-- internal/dshactivity/bridge.go: a navigation that is over stays over.
use dsh_work.Prelude.{
  ℕ, ◌+◌, ◌≤◌, ◌<◌, String, ◌≡◌, refl, sym, ◌∙◌, ap, ◌==◌, Bool, true, false, not, ◌||◌, Option,
  none, some, List, [], ◌∷◌, arith, Bool-cases, if◌then◌else◌, inr, inl,
}
use dsh_work.Release.Text.{Text, same, is_empty, decimal, value}
use dsh_work.Release.Text.Parts.{same-eq}
use dsh_work.Release.Text.Reading.{value-decimal, is_empty-decimal}
use dsh_work.Activity.Projection.{Snapshot, normalize}
use dsh_work.Activity.Bridge.{
  Bridge, set_navigation, stop, begin, begin_drawn, start, disconnected, accept, accept_normal,
  receive, receive_checked, checked, opened, commit_navigation, report_session_opened,
  navigation_timed_out, close, Call, call, run, begins, starts, receives, disconnects, opens,
  reports, times_out, navigates, closes,
}

-- The navigation `n` has been asked for and is no longer awaited.
pub record IsOver (n : ℕ) (b : Bridge) : Type 0 where
  pub asked : n ≤ b.navigation_sequence
  pub not_awaited : same b.navigation_id (decimal n) ≡ false

same-decimal : (m n : ℕ) → n < m → same (decimal m) (decimal n) ≡ false
same-decimal m n h = elim (Bool-cases (same (decimal m) (decimal n))) [
  | inr e ↦ e
  | inl e ↦ ground (
    arith,
    sym (value-decimal m) ∙ (ap (value 0) (same-eq (decimal m) (decimal n) e) ∙ value-decimal n),
  )
]

same_nil : (s : Text) → is_empty s ≡ false → same [] s ≡ false
unfolding same is_empty
same_nil [] h = ground arith
same_nil (c ∷ s) h = refl

IsOver-if :
    (n : ℕ) (t : Bool) (x y : Bridge) → IsOver n x → IsOver n y → IsOver n (if t then x else y)
IsOver-if n true x y i j = i
IsOver-if n false x y i j = j

-- A step that leaves the navigation.
IsOver-kept :
    (n : ℕ) (b c : Bridge)
    → c.navigation_sequence ≡ b.navigation_sequence
    → c.navigation_id ≡ b.navigation_id
    → IsOver n b
    → IsOver n c
IsOver-kept n b c e f i = record {
  asked = omega (arith, e, i.asked);
  not_awaited = rw f i.not_awaited;
}

-- A step that ends the navigation.
IsOver-ended :
    (n : ℕ) (b c : Bridge)
    → c.navigation_sequence ≡ b.navigation_sequence
    → c.navigation_id ≡ []
    → IsOver n b
    → IsOver n c
IsOver-ended n b c e f i = record {
  asked = omega (arith, e, i.asked);
  not_awaited = rw f (same_nil (decimal n) (is_empty-decimal n));
}

IsOver-commit_navigation : (n : ℕ) (b : Bridge) → IsOver n b → IsOver n (commit_navigation b)
unfolding commit_navigation
IsOver-commit_navigation n b i = record {
  asked = omega (arith, i.asked);
  not_awaited = same-decimal (b.navigation_sequence + 1) n (omega (arith, i.asked));
}

IsOver-disconnected :
    (n : ℕ) (b : Bridge) (captured : String) → IsOver n b → IsOver n (disconnected b captured)
unfolding disconnected
IsOver-disconnected n b captured i =
    IsOver-if n (not (b.generation == captured) || not b.state.connected) _ _ i
      (IsOver-kept n b _ refl refl i)

IsOver-accept_normal :
    (n : ℕ) (b : Bridge) (captured : String) (o : Option Snapshot)
    → IsOver n b
    → IsOver n (accept_normal b captured o)
unfolding accept_normal
IsOver-accept_normal n b captured none i = IsOver-disconnected n b captured i
IsOver-accept_normal n b captured (some s) i =
    IsOver-if n (not (b.generation == captured)) _ _ i (IsOver-kept n b _ refl refl i)

IsOver-receive_checked :
    (n : ℕ) (b : Bridge) (captured : String) (o : Option Snapshot)
    → IsOver n b
    → IsOver n (receive_checked b captured o)
unfolding receive_checked accept
IsOver-receive_checked n b captured none i = IsOver-disconnected n b captured i
IsOver-receive_checked n b captured (some s) i = IsOver-accept_normal n b captured (normalize s) i

IsOver-begin_drawn :
    (n : ℕ) (b : Bridge) (generation : String) (drawn : Option String)
    → IsOver n b
    → IsOver n (begin_drawn b generation drawn).0
unfolding begin_drawn
IsOver-begin_drawn n b generation none i = i
IsOver-begin_drawn n b generation (some token) i = IsOver-kept n b _ refl refl i

IsOver-begin :
    (n : ℕ) (b : Bridge) (generation : String) (drawn : Option String)
    → IsOver n b
    → IsOver n (begin b generation drawn).0
unfolding begin stop
IsOver-begin n b generation drawn i = elim (Bool-cases (generation == "")) [
  | inl h ↦ rw h i
  | inr h ↦ rw h (IsOver-begin_drawn n (stop b) generation drawn (IsOver-ended n b _ refl refl i))
]

IsOver-opened :
    (n : ℕ) (b : Bridge) (window : Option String) (ended : Bool)
    → IsOver n b
    → IsOver n (opened b window ended).0
unfolding opened
IsOver-opened n b none ended i = i
IsOver-opened n b (some window) ended i = elim (Bool-cases (window == "")) [
  | inl h ↦ rw h i
  | inr h ↦
      rw h
        (elim (Bool-cases ended) [ inl k ↦ rw k i | inr k ↦ rw k (IsOver-commit_navigation n b i) ])
]

pub IsOver-call : (n : ℕ) (b : Bridge) (c : Call) → IsOver n b → IsOver n (call b c)
unfolding call start set_navigation stop close report_session_opened navigation_timed_out receive
IsOver-call n b (begins generation drawn) i = IsOver-begin n b generation drawn i
IsOver-call n b (starts origin) i = IsOver-ended n b _ refl refl i
IsOver-call n b (receives captured s) i = IsOver-receive_checked n b captured (checked s captured) i
IsOver-call n b (disconnects captured) i = IsOver-disconnected n b captured i
IsOver-call n b (opens window ended) i = IsOver-opened n b window ended i
IsOver-call n b (reports id error) i =
    IsOver-if n (is_empty id || not (same b.navigation_id id)) _ _ i
      (IsOver-ended n b _ refl refl i)
IsOver-call n b (times_out captured id) i =
    IsOver-if n (not (b.generation == captured) || not (same b.navigation_id id)) _ _ i
      (IsOver-ended n b _ refl refl i)
IsOver-call n b (navigates given) i = IsOver-kept n b _ refl refl i
IsOver-call n b closes i = IsOver-ended n b _ refl refl i

IsOver-run : (n : ℕ) (b : Bridge) (cs : List Call) → IsOver n b → IsOver n (run b cs)
unfolding run
IsOver-run n b [] i = i
IsOver-run n b (c ∷ cs) i = IsOver-run n (call b c) cs (IsOver-call n b c i)

-- Once a navigation is over (answered, timed out, cancelled, or followed by another one), it is over
-- after any further calls, and neither a late report nor a late timeout of it changes anything.
pub call-over :
    (n : ℕ) (b : Bridge) (cs : List Call) (error captured : String)
    → n ≤ b.navigation_sequence
    → same b.navigation_id (decimal n) ≡ false
    → (report_session_opened (run b cs) (decimal n) error ≡ run b cs)
      × (navigation_timed_out (run b cs) captured (decimal n) ≡ run b cs)
unfolding report_session_opened navigation_timed_out
call-over n b cs error captured h k =
    let over = (IsOver-run n b cs (record { asked = h; not_awaited = k })).not_awaited in
    (ground (arith, over), ground (arith, over))
