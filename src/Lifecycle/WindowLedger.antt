-- ===== src/Lifecycle/WindowLedger.antt =====
-- internal/lifecycle/window_policy.go: the visibility of windows during a managed quit.
use dsh_work.Prelude.{
  ℕ, suc, ◌≤◌, ◌≡◌, refl, Bool, true, false, List, [], ◌∷◌, String, eq_iff, ◌||◌, not, arith, some,
  if◌then◌else◌,
}
use dsh_work.Prelude.Assoc.{Assoc, lookup, insert, lookup-insert}

pub record Ledger : Type 0 where
  pub visible : Assoc Bool
  pub quitting : Bool

hidden : List String → Assoc Bool → Assoc Bool
hidden [] m = m
hidden (id ∷ ids) m = hidden ids (insert id false m)

unfoldable pub new_ledger : List String → Ledger
unfolding hidden
new_ledger ids = record { visible = hidden ids []; quitting = false }

pub set_visible : Ledger → String → Bool → Ledger
set_visible l id visible =
    if not visible || not l.quitting then record l { visible = insert id visible l.visible } else l

-- The result tells whether the window may be shown.
pub try_show : Ledger → String → Ledger × Bool
try_show l id =
    if l.quitting then (l, false) else (record l { visible = insert id true l.visible }, true)

hide_all : Assoc Bool → Assoc Bool
hide_all [] = []
hide_all ((id, v) ∷ m) = (id, false) ∷ hide_all m

pub begin_quit : Ledger → Ledger
unfolding hide_all
begin_quit l = record { visible = hide_all l.visible; quitting = true }

pub cancel_quit : Ledger → Ledger
cancel_quit l = record l { quitting = false }

count_visible : Assoc Bool → ℕ
count_visible [] = 0
count_visible ((id, v) ∷ m) = let rest = count_visible m in if v then suc rest else rest

pub visible_count : Ledger → ℕ
unfolding count_visible
visible_count l = count_visible l.visible

pub data Call : Type 0 where
  sets : String → Bool → Call
  shows : String → Call
  begins cancels : Call

unfoldable pub call : Ledger → Call → Ledger
unfolding set_visible try_show begin_quit cancel_quit
call l (sets id v) = set_visible l id v
call l (shows id) = (try_show l id).0
call l begins = begin_quit l
call l cancels = cancel_quit l

unfoldable pub run : Ledger → List Call → Ledger
run l [] = l
run l (c ∷ cs) = run (call l c) cs

-- No window is visible during a quit.
abbrev pub IsHidden : Ledger → Type 0
IsHidden l = l.quitting ≡ true → visible_count l ≡ 0

count_visible-hide_all : (m : Assoc Bool) → count_visible (hide_all m) ≡ 0
unfolding count_visible hide_all
count_visible-hide_all [] = refl
count_visible-hide_all ((id, v) ∷ m) = count_visible-hide_all m

count_visible-insert-le :
    (id : String) (m : Assoc Bool) → count_visible (insert id false m) ≤ count_visible m
unfolding count_visible insert
count_visible-insert-le id [] = omega arith
count_visible-insert-le id ((j, v) ∷ m) = ground (arith, count_visible-insert-le id m)

call-IsHidden : (l : Ledger) (c : Call) → IsHidden l → IsHidden (call l c)
unfolding call visible_count
call-IsHidden l (sets id true) h = ground (arith)
call-IsHidden l (sets id false) h = ground (arith, count_visible-insert-le id l.visible)
call-IsHidden l (shows id) h = ground arith
call-IsHidden l begins h = ground (arith, count_visible-hide_all l.visible)
call-IsHidden l cancels h = ground arith

run-IsHidden : (l : Ledger) (cs : List Call) → IsHidden l → IsHidden (run l cs)
unfolding run
run-IsHidden l [] h = h
run-IsHidden l (c ∷ cs) h = run-IsHidden (call l c) cs (call-IsHidden l c h)

-- From a new ledger, after any calls, if a quit is in progress then no window counts as visible.
pub no_window_while_quitting :
    (ids : List String) (cs : List Call)
    → (run (new_ledger ids) cs).quitting ≡ true
    → visible_count (run (new_ledger ids) cs) ≡ 0
unfolding new_ledger
no_window_while_quitting ids cs = run-IsHidden (new_ledger ids) cs (λ q. cc)

-- After a quit was begun and cancelled no window counts as visible, and the next `TryShow` is granted
-- and records its window as visible.
pub cancelled_quit_stays_hidden :
    (l : Ledger) (id : String)
    → let c = cancel_quit (begin_quit l) in
      (visible_count c ≡ 0)
      × ((try_show c id).1 ≡ true)
      × (lookup id (try_show c id).0.visible ≡ some true)
unfolding cancel_quit begin_quit try_show visible_count
cancelled_quit_stays_hidden l id = ground (
  arith,
  count_visible-hide_all l.visible,
  lookup-insert id id true (hide_all l.visible),
  eq_iff id id,
)
