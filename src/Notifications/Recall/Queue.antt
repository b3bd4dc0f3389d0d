-- ===== src/Notifications/Recall/Queue.antt =====
-- internal/notifications/router.go: from the start, the ring and its set are a queue.
use dsh_work.Prelude.{
  ℕ, zero, suc, ◌<◌, String, ◌≡◌, refl, ap, ◌∙◌, inr, List, [], ◌∷◌, length, arith, lt→ltb,
}
use dsh_work.Prelude.Assoc.{lookup}
use dsh_work.Notifications.Recall.Slices.{}
use dsh_work.Notifications.Recall.{Memory, new_memory, remember, replicate}
use dsh_work.Notifications.Recall.Ring.{Inv, window, remember_spec, remember-refines}

length-replicate : (n : ℕ) → length {A = String} (replicate n "") ≡ n
length-replicate zero = refl
length-replicate (suc n) = ap suc (length-replicate n)

pub window-new_memory : (capacity : ℕ) → 0 < capacity → window capacity (new_memory capacity) ≡ []
unfolding new_memory
window-new_memory capacity h = rw (lt→ltb 0 capacity h)

pub new_memory-Inv : (capacity : ℕ) → 0 < capacity → Inv capacity (new_memory capacity)
new_memory-Inv capacity h = record {
  sized = unfold new_memory in length-replicate capacity;
  inside = unfold new_memory in h;
  counted = unfold new_memory in omega arith;
  filling = unfold new_memory in inr refl;
  seen = λ k. rw (window-new_memory capacity h) (unfold new_memory lookup in refl);
  distinct = rw (window-new_memory capacity h) tt;
}

unfoldable pub remember_all : ℕ → Memory → List String → Memory
remember_all capacity m [] = m
remember_all capacity m (id ∷ ids) = remember_all capacity (remember capacity m id).0 ids

unfoldable pub remember_all_spec : ℕ → List String → List String → List String
remember_all_spec capacity ws [] = ws
remember_all_spec capacity ws (id ∷ ids) =
    remember_all_spec capacity (remember_spec capacity ws id).0 ids

remember_all-refines :
    (capacity : ℕ) (m : Memory) (ids : List String)
    → Inv capacity m
    → (window capacity (remember_all capacity m ids)
        ≡ remember_all_spec capacity (window capacity m) ids)
      × Inv capacity (remember_all capacity m ids)
unfolding remember_all remember_all_spec
remember_all-refines capacity m [] i = (refl, i)
remember_all-refines capacity m (id ∷ ids) i =
    let r = remember-refines capacity m id i in
    let l = remember_all-refines capacity (remember capacity m id).0 ids r.2 in
    (l.0 ∙ ap (λ ws. remember_all_spec capacity ws ids) r.0, l.1)

-- For a ring of any positive capacity and any identifiers remembered from the start, the ring with
-- its set behaves as a queue of distinct identifiers: the same answer to the next identifier, and
-- the same identifiers afterwards, of which the oldest is dropped when there is no room.
pub ring-refines_queue :
    (capacity : ℕ) (ids : List String) (id : String)
    → 0 < capacity
    → let m = remember_all capacity (new_memory capacity) ids in
      let ws = remember_all_spec capacity [] ids in
      ((remember capacity m id).1 ≡ (remember_spec capacity ws id).1)
      × (window capacity (remember capacity m id).0 ≡ (remember_spec capacity ws id).0)
ring-refines_queue capacity ids id h =
    let l = remember_all-refines capacity (new_memory capacity) ids (new_memory-Inv capacity h) in
    let e = l.0 ∙ ap (λ ws. remember_all_spec capacity ws ids) (window-new_memory capacity h) in
    let r = remember-refines capacity (remember_all capacity (new_memory capacity) ids) id l.1 in
    (
      r.1 ∙ ap (λ ws. (remember_spec capacity ws id).1) e,
      r.0 ∙ ap (λ ws. (remember_spec capacity ws id).0) e,
    )
