-- ===== src/Pet/Gate/Declared.antt =====
-- internal/pet/runtime.go: the gates of an event leave what is shown.
use dsh_work.Prelude.{
  ℕ, String, ◌==◌, ◌≡◌, refl, false, ltb, leb, length, List, [], ◌∷◌, if◌then◌else◌,
}
use dsh_work.Prelude.Space.{trim_space}
use dsh_work.Pet.Runtime.{PetDefinition, Runtime, PetInputEvent, is_safe}
use dsh_work.Pet.Actions.Shown.{
  IsShowable, IsShowable-if, IsShowable-kept, IsShowable-add_diagnostic,
}
use dsh_work.Pet.Gate.{
  max_seen_events, enter_generation, set_generation, drop_first, drop_oldest, add_seen, note_order,
  member,
}
use dsh_work.Pet.Gate.Admitted.{IsKept}

module _ (d : PetDefinition) where
  IsShowable-enter_generation :
      (r : Runtime) (g : String) → IsShowable d r → IsShowable d (enter_generation r g)
  unfolding enter_generation
  IsShowable-enter_generation r g i =
      IsShowable-if d (r.generation == g) r _ i (λ e. IsShowable-kept d r _ refl refl i)

  pub IsShowable-set_generation :
      (r : Runtime) (g : String) → IsShowable d r → IsShowable d (set_generation r g)
  unfolding set_generation
  IsShowable-set_generation r g i =
      IsShowable-if d (is_safe (trim_space g) 128) _ r
        (IsShowable-enter_generation r (trim_space g) i) (λ e. i)

  IsShowable-drop_first :
      (order : List String) (r : Runtime) → IsShowable d r → IsShowable d (drop_first order r)
  unfolding drop_first
  IsShowable-drop_first [] r i = i
  IsShowable-drop_first (x ∷ xs) r i = IsShowable-kept d r _ refl refl i

  IsShowable-remembered :
      (id : String) (r : Runtime)
      → member id r.seen ≡ false
      → IsShowable d r
      → IsShowable d
          (add_seen id (if leb max_seen_events (length r.seen_order) then drop_oldest r else r))
  unfolding drop_oldest add_seen
  IsShowable-remembered id r h i =
      let s = if leb max_seen_events (length r.seen_order) then drop_oldest r else r in
      IsShowable-kept d s _ refl refl (
        IsShowable-if d (leb max_seen_events (length r.seen_order)) (drop_oldest r) r
          (IsShowable-drop_first r.seen_order r i) (λ e. i))

  IsShowable-note_order :
      (e : PetInputEvent) (now : ℕ) (r : Runtime)
      → IsShowable d r
      → IsShowable d (note_order e now r)
  unfolding note_order
  IsShowable-note_order e now r i =
      let s = if ltb 0 e.sequence then record r { last_sequence = e.sequence } else r in
      let j = IsShowable-if d (ltb 0 e.sequence) _ r (IsShowable-kept d r _ refl refl i) (λ h. i) in
      IsShowable-if d (ltb 0 e.monotonic_time) _ s (IsShowable-kept d s _ refl refl j) (λ h. j)

  pub IsShowable-IsKept : IsKept (IsShowable d)
  IsShowable-IsKept = record {
    diagnosed = IsShowable-add_diagnostic d;
    entered = IsShowable-enter_generation;
    remembered = IsShowable-remembered;
    ordered = IsShowable-note_order;
  }
