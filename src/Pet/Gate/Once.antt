-- ===== src/Pet/Gate/Once.antt =====
-- internal/pet/runtime.go: the identifiers that the runtime remembers.
use dsh_work.Prelude.{
  ltb, ◌≤◌, String, ◌==◌, eq_iff, ◌≡◌, refl, false, ◌||◌, List, [], ◌∷◌, ◌++◌, length, arith, Bool,
  if◌then◌else◌, ◌+◌, ◌∙◌, Bool-cases, leb, sym, true, subst, inl, inr, eq_refl, ap, length-append,
  ℕ,
}
use dsh_work.Prelude.Space.{trim_space}
use dsh_work.Pet.Runtime.{Runtime, Issue, PetInputEvent, add_diagnostic, has_issue, is_safe}
use dsh_work.Pet.Gate.{
  max_seen_events, member, remove, drop_oldest, enter_generation, set_generation, add_seen,
  drop_first, note_order,
}
use dsh_work.Pet.Gate.Admitted.{IsKept}

-- No text occurs twice.
abbrev pub Distinct : List String → Type 0
Distinct [] = Unit
Distinct (x ∷ xs) = (member x xs ≡ false) × Distinct xs

-- The set holds what the order holds, which is bounded and without repetition.
pub record Remembers (r : Runtime) : Type 0 where
  pub same : r.seen ≡ r.seen_order
  pub distinct : Distinct r.seen_order
  pub bounded : length r.seen_order ≤ max_seen_events

remove-fresh : (id : String) (xs : List String) → member id xs ≡ false → remove id xs ≡ xs
unfolding member remove
remove-fresh id [] h = refl
remove-fresh id (x ∷ xs) h = ground (arith, remove-fresh id xs)

member-append :
    (id last : String) (xs : List String)
    → member id (xs ++ last ∷ []) ≡ (member id xs || last == id)
unfolding member
member-append id last [] = ground arith
member-append id last (x ∷ xs) = ground (arith, member-append id last xs)

Distinct-append :
    (last : String) (xs : List String)
    → member last xs ≡ false
    → Distinct xs
    → Distinct (xs ++ last ∷ [])
unfolding member
Distinct-append last [] h d = (refl, tt)
Distinct-append last (x ∷ xs) h (n, d) = (
  ground (arith, member-append x last xs, eq_iff last x, eq_iff x last),
  Distinct-append last xs (ground arith) d,
)

member-tail : (id x : String) (xs : List String) → member id (x ∷ xs) ≡ false → member id xs ≡ false
unfolding member
member-tail id x xs h = ground arith

-- What is remembered, apart from the runtime: the set and the order.
record Ring (seen order : List String) : Type 0 where
  same : seen ≡ order
  distinct : Distinct order
  bounded : length order ≤ max_seen_events

Ring-Remembers : (r : Runtime) → Ring r.seen r.seen_order → Remembers r
Ring-Remembers r i = record { same = i.same; distinct = i.distinct; bounded = i.bounded }

-- A step that leaves what is remembered.
pub Remembers-kept :
    (r s : Runtime) → s.seen ≡ r.seen → s.seen_order ≡ r.seen_order → Remembers r → Remembers s
Remembers-kept r s e f i = record {
  same = e ∙ (i.same ∙ sym f);
  distinct = subst Distinct (sym f) i.distinct;
  bounded = rw f i.bounded;
}

pub Remembers-if :
    (t : Bool) (x y : Runtime)
    → Remembers x
    → (t ≡ false → Remembers y)
    → Remembers (if t then x else y)
Remembers-if true x y i k = i
Remembers-if false x y i k = k refl

pub Remembers-add_diagnostic :
    (r : Runtime) (i : Issue) → Remembers r → Remembers (add_diagnostic r i)
unfolding add_diagnostic
Remembers-add_diagnostic r i k =
    Remembers-if (has_issue i r.diagnostics) _ _ k (λ e. Remembers-kept r _ refl refl k)

pub Remembers-nil : (r : Runtime) → r.seen ≡ [] → r.seen_order ≡ [] → Remembers r
Remembers-nil r e f = record {
  same = e ∙ sym f;
  distinct = subst Distinct (sym f) tt;
  bounded = rw f (omega arith);
}

pub Remembers-enter_generation :
    (r : Runtime) (g : String) → Remembers r → Remembers (enter_generation r g)
unfolding enter_generation
Remembers-enter_generation r g i =
    Remembers-if (r.generation == g) _ _ i (λ e. Remembers-nil _ refl refl)

pub Remembers-set_generation :
    (r : Runtime) (g : String) → Remembers r → Remembers (set_generation r g)
unfolding set_generation
Remembers-set_generation r g i = elim (Bool-cases (is_safe (trim_space g) 128)) [
  | inl h ↦ rw h (Remembers-enter_generation r (trim_space g) i)
  | inr h ↦ rw h i
]

-- There is room for the identifier.
record AllowsNew (id : String) (r : Runtime) : Type 0 where
  remembers : Remembers r
  fresh : member id r.seen ≡ false
  room : length r.seen_order + 1 ≤ max_seen_events

remove-head : (x : String) (xs : List String) → member x xs ≡ false → remove x (x ∷ xs) ≡ xs
unfolding remove
remove-head x xs h = rw (eq_refl x) (remove-fresh x xs h)

AllowsNew-drop_first :
    (id : String) (r : Runtime) (order : List String)
    → r.seen_order ≡ order
    → leb max_seen_events (length order) ≡ true
    → Remembers r
    → member id r.seen ≡ false
    → AllowsNew id (drop_first order r)
unfolding drop_first
AllowsNew-drop_first id r [] e l i h = ground arith
AllowsNew-drop_first id r (x ∷ xs) e l i h =
    let d = subst Distinct e i.distinct in
    let seen = ap (remove x) (i.same ∙ e) ∙ remove-head x xs d.0 in
    record {
      remembers = record {
        same = seen;
        distinct = d.1;
        bounded = omega (arith, i.bounded, ap length e);
      };
      fresh = rw seen (member-tail id x xs (subst (λ o. member id o ≡ false) (i.same ∙ e) h));
      room = omega (arith, i.bounded, ap length e);
    }

AllowsNew-room :
    (id : String) (r : Runtime)
    → leb max_seen_events (length r.seen_order) ≡ false
    → Remembers r
    → member id r.seen ≡ false
    → AllowsNew id r
AllowsNew-room id r l i h = record { remembers = i; fresh = h; room = ground arith }

Remembers-add_seen : (id : String) (r : Runtime) → AllowsNew id r → Remembers (add_seen id r)
unfolding add_seen
Remembers-add_seen id r a = record {
  same = ap (λ xs. xs ++ id ∷ []) a.remembers.same;
  distinct =
      Distinct-append id r.seen_order (subst (λ xs. member id xs ≡ false) a.remembers.same a.fresh)
        a.remembers.distinct;
  bounded = omega (arith, a.room, length-append r.seen_order (id ∷ []));
}

Remembers-remembered :
    (id : String) (r : Runtime)
    → member id r.seen ≡ false
    → Remembers r
    → Remembers
        (add_seen id (if leb max_seen_events (length r.seen_order) then drop_oldest r else r))
unfolding drop_oldest
Remembers-remembered id r h i = elim (Bool-cases (leb max_seen_events (length r.seen_order))) [
  | inl l ↦
      rw l
        (Remembers-add_seen id (drop_oldest r) (AllowsNew-drop_first id r r.seen_order refl l i h))
  | inr l ↦ rw l (Remembers-add_seen id r (AllowsNew-room id r l i h))
]

Remembers-note_order :
    (e : PetInputEvent) (now : ℕ) (r : Runtime) → Remembers r → Remembers (note_order e now r)
unfolding note_order
Remembers-note_order e now r i =
    let s = if ltb 0 e.sequence then record r { last_sequence = e.sequence } else r in
    let j = Remembers-if (ltb 0 e.sequence) _ r (Remembers-kept r _ refl refl i) (λ h. i) in
    Remembers-if (ltb 0 e.monotonic_time) _ s (Remembers-kept s _ refl refl j) (λ h. j)

pub Remembers-IsKept : IsKept Remembers
Remembers-IsKept = record {
  diagnosed = Remembers-add_diagnostic;
  entered = Remembers-enter_generation;
  remembered = Remembers-remembered;
  ordered = Remembers-note_order;
}
