-- ===== src/Presence.antt =====
-- internal/presence/tracker.go: the focused surfaces.
mod Examples
use dsh_work.Prelude.{
  ℕ, String, ◌==◌, eq_iff, Bool, true, false, Option, none, some, List, [], ◌∷◌, arith, ◌≡◌, refl,
  ◌≢◌, eq_refl, if◌then◌else◌, not, ◌↔◌, ◌∙◌, ap, sym,
}
use mathlib.Core.Logic.{∥∥₁_elim}
use dsh_work.Prelude.Assoc.{Assoc, lookup, insert, delete, lookup-insert, lookup-delete}

pub record Tracker : Type 0 where
  pub focused : Assoc Bool
  pub last_focused : String

pub new_tracker : Tracker
new_tracker = record { focused = []; last_focused = "" }

pub set_focused : Tracker → String → Bool → Tracker
set_focused t surface focused =
    if surface == ""
    then t
    else if focused
    then record t { focused = insert surface true t.focused; last_focused = surface }
    else record t { focused = delete surface t.focused }

pub clear : Tracker → String → Tracker
clear t surface = if surface == "" then t else record t {
  focused = delete surface t.focused;
  last_focused = if t.last_focused == surface then "" else t.last_focused;
}

pub clear_all : Tracker → Tracker
clear_all t = record { focused = []; last_focused = "" }

is_empty : Assoc Bool → Bool
is_empty [] = true
is_empty (x ∷ m) = false

pub any_focused : Tracker → Bool
unfolding is_empty
any_focused t = not (is_empty t.focused)

-- A missing key reads as the zero value of Go, `false`.
or_false : Option Bool → Bool
or_false none = false
or_false (some b) = b

pub is_focused : Tracker → String → Bool
unfolding or_false
is_focused t surface = or_false (lookup surface t.focused)

pub last_focused_or_workspace : Tracker → String
last_focused_or_workspace t = if t.last_focused == "" then "workspace" else t.last_focused

pub data Call : Type 0 where
  sets : String → Bool → Call
  clears : String → Call
  clears_all : Call

pub call : Tracker → Call → Tracker
unfolding set_focused clear clear_all
call t (sets s f) = set_focused t s f
call t (clears s) = clear t s
call t clears_all = clear_all t

pub run : Tracker → List Call → Tracker
run t [] = t
run t (c ∷ cs) = run (call t c) cs

-- The specification: what the last call that concerns a surface said of it.
pub focus_after : String → Bool → List Call → Bool
focus_after s now [] = now
focus_after s now (sets r f ∷ cs) = focus_after s (if r == s then f else now) cs
focus_after s now (clears r ∷ cs) = focus_after s (if r == s then false else now) cs
focus_after s now (clears_all ∷ cs) = focus_after s false cs

is_focused-call :
    (t : Tracker) (c : Call) (s : String)
    → s ≢ ""
    → is_focused (call t c) s ≡ focus_after s (is_focused t s) (c ∷ [])
unfolding call is_focused focus_after
is_focused-call t (sets r true) s h =
    ground (arith, lookup-insert r s true t.focused, eq_iff r s, eq_iff r "")
is_focused-call t (sets r false) s h =
    ground (arith, lookup-delete r s t.focused, eq_iff r s, eq_iff r "")
is_focused-call t (clears r) s h =
    ground (arith, lookup-delete r s t.focused, eq_iff r s, eq_iff r "")
is_focused-call t clears_all s h = unfold lookup in refl

focus_after-cons :
    (s : String) (now : Bool) (c : Call) (cs : List Call)
    → focus_after s now (c ∷ cs) ≡ focus_after s (focus_after s now (c ∷ [])) cs
unfolding focus_after
focus_after-cons s now (sets r f) cs = refl
focus_after-cons s now (clears r) cs = refl
focus_after-cons s now clears_all cs = refl

focused-run :
    (t : Tracker) (cs : List Call) (s : String)
    → s ≢ ""
    → is_focused (run t cs) s ≡ focus_after s (is_focused t s) cs
unfolding run
focused-run t [] s h = unfold focus_after in refl
focused-run t (c ∷ cs) s h =
    focused-run (call t c) cs s h
    ∙ ap (λ b. focus_after s b cs) (is_focused-call t c s h)
    ∙ sym (focus_after-cons s (is_focused t s) c cs)

-- After any calls on a new tracker, a named surface is focused exactly if the last call that
-- concerns it said so; it is not if no call did.
pub is_focused-run :
    (cs : List Call) (s : String)
    → s ≢ ""
    → is_focused (run new_tracker cs) s ≡ focus_after s false cs
is_focused-run cs s h =
    focused-run new_tracker cs s h
    ∙ ap (λ b. focus_after s b cs) (unfold is_focused new_tracker lookup in refl)

-- Every entry of the map is true, and only named surfaces are there.
abbrev pub Entries : Assoc Bool → Type 0
Entries [] = Unit
Entries ((s, b) ∷ m) = (b ≡ true) × (s ≢ "") × Entries m

Entries-insert : (s : String) (m : Assoc Bool) → s ≢ "" → Entries m → Entries (insert s true m)
unfolding insert
Entries-insert s [] h e = (refl, h, tt)
Entries-insert s ((j, b) ∷ m) h e = ground (arith, Entries-insert s m h e.2)

Entries-delete : (s : String) (m : Assoc Bool) → Entries m → Entries (delete s m)
unfolding delete
Entries-delete s [] e = tt
Entries-delete s ((j, b) ∷ m) e = ground (arith, Entries-delete s m e.2)

call-Entries : (t : Tracker) (c : Call) → Entries t.focused → Entries (call t c).focused
unfolding call
call-Entries t (sets r true) e = ground (arith, Entries-insert r t.focused, eq_iff r "")
call-Entries t (sets r false) e = ground (arith, Entries-delete r t.focused)
call-Entries t (clears r) e = ground (arith, Entries-delete r t.focused)
call-Entries t clears_all e = tt

run-Entries : (t : Tracker) (cs : List Call) → Entries t.focused → Entries (run t cs).focused
unfolding run
run-Entries t [] e = e
run-Entries t (c ∷ cs) e = run-Entries (call t c) cs (call-Entries t c e)

first_focused :
    (m : Assoc Bool)
    → Entries m
    → is_empty m ≡ false
    → (s : String) × (s ≢ "") × (or_false (lookup s m) ≡ true)
unfolding is_empty or_false lookup
first_focused [] e h = cc
first_focused ((s, b) ∷ m) e h = (s, e.1, rw (eq_refl) e.0)

is_empty-lookup : (m : Assoc Bool) (s : String) → or_false (lookup s m) ≡ true → is_empty m ≡ false
unfolding is_empty or_false lookup
is_empty-lookup [] s h = cc
is_empty-lookup (x ∷ m) s h = refl

-- `AnyFocused` is true after any calls on a new tracker exactly if some named surface is focused.
pub any_focused_iff :
    (cs : List Call)
    → (any_focused (run new_tracker cs) ≡ true)
      ↔ ∥ ((s : String) × (s ≢ "") × (is_focused (run new_tracker cs) s ≡ true)) ∥₁
unfolding any_focused is_focused
any_focused_iff cs =
    let t = run new_tracker cs in
    (
      λ h.
          ∣ first_focused t.focused (run-Entries new_tracker cs (unfold new_tracker in tt))
            (ground arith) ∣₁,
      λ h. ∥∥₁_elim h (hlevel) (λ w. rw (is_empty-lookup t.focused w.0 w.2)),
    )
