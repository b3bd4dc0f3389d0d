-- ===== src/Pet/Gate/Admitted.antt =====
-- internal/pet/runtime.go: what the checks of an event leave of the runtime, whether they refuse it
-- or not.
use dsh_work.Prelude.{
  ltb, String, ◌==◌, ◌≡◌, refl, false, ◌||◌, length, Bool, if◌then◌else◌, leb, true, ℕ, not, ◌&&◌,
}
use dsh_work.Pet.Runtime.{Runtime, Issue, PetInputEvent, add_diagnostic, is_safe}
use dsh_work.Pet.Gate.{
  max_seen_events, member, drop_oldest, enter_generation, Gate, add_seen, then_gate, refused, taken,
  Admission, admit, check_generation, check_id, check_order, let_ordered, check, event_time,
  note_order, turned_away, let_in,
}

-- What a gate leaves, whether it refuses the event or not.
abbrev Leaves : (Runtime → Type 0) → Gate → Type 0
Leaves P (refused r) = P r
Leaves P (taken r) = P r

Leaves-then_gate :
    (P : Runtime → Type 0) (g : Gate) (next : Runtime → Gate)
    → Leaves P g
    → ((r : Runtime) → P r → Leaves P (next r))
    → Leaves P (then_gate g next)
unfolding then_gate
Leaves-then_gate P (refused r) next i k = i
Leaves-then_gate P (taken r) next i k = k r i

Leaves-if :
    (P : Runtime → Type 0) (t : Bool) (x y : Gate)
    → (t ≡ true → Leaves P x)
    → (t ≡ false → Leaves P y)
    → Leaves P (if t then x else y)
Leaves-if P true x y i k = i refl
Leaves-if P false x y i k = k refl

-- What the gates keep.
pub record IsKept (P : Runtime → Type 0) : Type 0 where
  pub diagnosed : (r : Runtime) (i : Issue) → P r → P (add_diagnostic r i)
  pub entered : (r : Runtime) (g : String) → P r → P (enter_generation r g)
  pub remembered :
      (id : String) (r : Runtime)
      → member id r.seen ≡ false
      → P r
      → P (add_seen id (if leb max_seen_events (length r.seen_order) then drop_oldest r else r))
  pub ordered : (e : PetInputEvent) (now : ℕ) (r : Runtime) → P r → P (note_order e now r)

abbrev pub LeavesAdmitted : (Runtime → Type 0) → Admission → Type 0
LeavesAdmitted P (turned_away r) = P r
LeavesAdmitted P (let_in r now) = P r

module _ (P : Runtime → Type 0) (k : IsKept P) (e : PetInputEvent) where
  Leaves-check_generation : (r : Runtime) → P r → Leaves P (check_generation e r)
  unfolding check_generation
  Leaves-check_generation r i =
      Leaves-if P (e.generation == "") _ _
        (λ h. Leaves-if P (r.generation == "") _ _ (λ h'. i) (λ h'. k.diagnosed r _ i))
        (λ h.
          Leaves-if P (not (is_safe e.generation 128)) _ _ (λ h'. k.diagnosed r _ i)
            (λ h'.
              Leaves-if P (r.generation == "") _ _ (λ h''. k.entered r e.generation i)
                (λ h''.
                  Leaves-if P (not (e.generation == r.generation)) _ _ (λ g. k.diagnosed r _ i)
                    (λ g. i))))

  Leaves-check_id : (r : Runtime) → P r → Leaves P (check_id e r)
  unfolding check_id
  Leaves-check_id r i =
      Leaves-if P (e.event_id == "") _ _ (λ h. i)
        (λ h.
          Leaves-if P (not (is_safe e.event_id 128)) _ _ (λ h'. k.diagnosed r _ i)
            (λ h'.
              Leaves-if P (member e.event_id r.seen) _ _ (λ h''. k.diagnosed r _ i)
                (λ h''. k.remembered e.event_id r h'' i)))

  Leaves-check_order : (r : Runtime) → P r → Leaves P (check_order e r)
  unfolding check_order
  Leaves-check_order r i =
      Leaves-if P
        (ltb 0 e.sequence && leb e.sequence r.last_sequence
          || ltb 0 e.monotonic_time
            && ltb 0 r.last_event_at
            && ltb e.monotonic_time r.last_event_at)
        _ _ (λ h. k.diagnosed r _ i) (λ h. i)

  Leaves-let_ordered :
      (clock : ℕ) (g : Gate) → Leaves P g → LeavesAdmitted P (let_ordered e clock g)
  unfolding let_ordered
  Leaves-let_ordered clock (refused r) i = i
  Leaves-let_ordered clock (taken r) i = k.ordered e (event_time e r clock) r i

  pub Leaves-admit : (clock : ℕ) (r : Runtime) → P r → LeavesAdmitted P (admit e clock r)
  unfolding admit check
  Leaves-admit clock r i = Leaves-let_ordered clock (check e r) (
      Leaves-then_gate P (then_gate (check_generation e r) (check_id e)) (check_order e)
        (Leaves-then_gate P (check_generation e r) (check_id e) (Leaves-check_generation r i)
          Leaves-check_id)
        Leaves-check_order)
