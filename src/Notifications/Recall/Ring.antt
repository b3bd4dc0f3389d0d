-- ===== src/Notifications/Recall/Ring.antt =====
-- internal/notifications/router.go: the ring and its set are a queue of the newest identifiers.
use mathlib.Core.Bool.{true≢false}
use native.Mathlib.Nat.{mod-lt}
use native.Mathlib.Numerals.{add-one}
use dsh_work.Prelude.{
  append-nil, append_assoc, ℕ, suc, ◌+◌, ◌%◌, ◌≤◌, ◌<◌, String, ◌≡◌, refl, sym, ap, ◌∙◌, ◌⊎◌, inl,
  inr, Bool, true, false, Option, none, some, List, [], ◌∷◌, ◌++◌, ltb, length, length-append,
  length-set, set, tail_or_nil, if◌then◌else◌, arith, eq_iff, Bool-cases, Option-cases, subst,
}
use dsh_work.Prelude.Assoc.{Assoc, lookup, insert, delete, lookup-insert, lookup-delete}
use dsh_work.Notifications.Recall.Slices.{
  take, drop, member, Distinct, take-set, drop-set, length-take, length-drop, take_all, drop_all,
  drop-at_slot, member-append, Distinct-push,
}
use dsh_work.Notifications.Recall.{Memory, remember, at_slot, store_new}

-- The remembered identifiers, the oldest first.
abbrev pub window : ℕ → Memory → List String
window capacity m =
    if ltb m.count capacity
    then take m.count m.order
    else drop m.next m.order ++ take m.next m.order

-- The specification: a queue that holds the newest identifiers, each once.
abbrev pub push_newest : ℕ → List String → String → List String
push_newest capacity ids id =
    if ltb (length ids) capacity then ids ++ id ∷ [] else tail_or_nil ids ++ id ∷ []

abbrev pub remember_spec : ℕ → List String → String → List String × Bool
remember_spec capacity ids id =
    if member id ids then (ids, false) else (push_newest capacity ids id, true)

abbrev pub present : Option (Unit {0}) → Bool
present none = false
present (some u) = true

pub record Inv (capacity : ℕ) (m : Memory) : Type 0 where
  pub sized : length m.order ≡ capacity
  pub inside : m.next < capacity
  pub counted : m.count ≤ capacity
  pub filling : (m.count ≡ capacity) ⊎ (m.next ≡ 0)
  pub seen : (k : String) → present (lookup k m.seen) ≡ member k (window capacity m)
  pub distinct : Distinct (window capacity m)

pub length-window :
    (capacity : ℕ) (m : Memory) → Inv capacity m → length (window capacity m) ≡ m.count
length-window capacity m i = elim (Bool-cases (ltb m.count capacity)) [
  | inl few ↦ rw few (length-take m.count m.order (ground (arith, i.sized)))
  | inr full ↦ rw full (
      omega (
        arith,
        length-append (drop m.next m.order) (take m.next m.order),
        length-drop m.next m.order,
        length-take m.next m.order (omega (arith, i.sized, i.inside)),
        i.sized,
        i.inside,
        all_counted full,
      ))
]
  where
    all_counted : ltb m.count capacity ≡ false → m.count ≡ capacity
    all_counted full = ground (arith, i.counted)

-- While the ring fills, a new identifier goes behind the others.
window_filling :
    (capacity count : ℕ) (order : List String) (id : String)
    → length order ≡ capacity
    → count < capacity
    → (if ltb (count + 1) capacity
        then take (count + 1) (set order count id)
        else set order count id ++ [])
      ≡ take count order ++ id ∷ []
window_filling capacity count order id e h = elim (Bool-cases (ltb (count + 1) capacity)) [
  | inl few ↦ rw (few, add-one count) (take-set count order id (omega (arith, e)))
  | inr last ↦
      let n : length (set order count id) ≡ suc count =
        ground (arith, length-set order count id, e) in
      rw (last, append-nil (set order count id))
        (sym (take_all (set order count id))
          ∙ ap (λ k. take k (set order count id)) n
          ∙ take-set count order id (omega (arith, e)))
]

-- In a full ring a new identifier takes the place of the oldest.
window_full :
    (capacity next : ℕ) (order : List String) (id : String)
    → length order ≡ capacity
    → next < capacity
    → drop ((next + 1) % capacity) (set order next id)
        ++ take ((next + 1) % capacity) (set order next id)
      ≡ drop (suc next) order ++ (take next order ++ id ∷ [])
window_full capacity next order id e h = elim (Bool-cases (ltb (next + 1) capacity)) [
  | inl more ↦
      let n : (next + 1) % capacity ≡ suc next = grind arith in
      rw (n, drop-set next order id, take-set next order id (omega (arith, e)))
  | inr last ↦
      let c : capacity ≡ suc next = ground arith in
      let n : (next + 1) % capacity ≡ 0 = grind arith in
      let l : length (set order next id) ≡ suc next =
        omega (arith, length-set order next id, e, c) in
      rw (n, drop_all (suc next) order (omega (arith, e, c)), append-nil (set order next id))
        (sym (take_all (set order next id))
          ∙ ap (λ k. take k (set order next id)) l
          ∙ take-set next order id (omega (arith, e)))
]

window-store_new :
    (capacity : ℕ) (m : Memory) (id : String)
    → Inv capacity m
    → window capacity (store_new capacity m id) ≡ push_newest capacity (window capacity m) id
unfolding store_new
window-store_new capacity m id i = elim (Bool-cases (ltb m.count capacity)) [
  | inl few ↦
      let z : m.next ≡ 0 = ground (arith, i.filling) in
      let n : (m.next + m.count) % capacity ≡ m.count = grind arith in
      rw (length-window capacity m i, few, n, z)
        (window_filling capacity m.count m.order id i.sized (ground arith))
  | inr full ↦
      rw
        (
          length-window capacity m i,
          full,
          full,
          drop-at_slot m.next m.order (omega (arith, i.sized, i.inside)),
        )
        (window_full capacity m.next m.order id i.sized i.inside
          ∙ sym (append_assoc (drop (suc m.next) m.order) (take m.next m.order) (id ∷ [])))
]

-- In a full ring the oldest identifier stands in the next slot.
window-oldest :
    (capacity : ℕ) (m : Memory)
    → Inv capacity m
    → ltb m.count capacity ≡ false
    → window capacity m ≡ at_slot m.order m.next ∷ tail_or_nil (window capacity m)
window-oldest capacity m i full =
    rw (full, drop-at_slot m.next m.order (omega (arith, i.sized, i.inside)))

seen_filling :
    (capacity : ℕ) (m : Memory) (id k : String)
    → Inv capacity m
    → present (lookup k (insert id tt m.seen)) ≡ member k (window capacity m ++ id ∷ [])
seen_filling capacity m id k i =
    ground
      (arith, lookup-insert id k tt m.seen, i.seen k, member-append k (window capacity m) (id ∷ []))

seen_full :
    (seen : Assoc (Unit {0})) (x : String) (xs : List String) (id k : String)
    → present (lookup k seen) ≡ member k (x ∷ xs)
    → member x xs ≡ false
    → present (lookup k (insert id tt (delete x seen))) ≡ member k (xs ++ id ∷ [])
seen_full seen x xs id k h d = ground (
  arith,
  lookup-insert id k tt (delete x seen),
  lookup-delete x k seen,
  member-append k xs (id ∷ []),
  eq_iff x k,
)

store_new-seen :
    (capacity : ℕ) (m : Memory) (id k : String)
    → Inv capacity m
    → present (lookup k (store_new capacity m id).seen)
      ≡ member k (push_newest capacity (window capacity m) id)
unfolding store_new
store_new-seen capacity m id k i = elim (Bool-cases (ltb m.count capacity)) [
  | inl few ↦ rw (length-window capacity m i, few) (rw few at (seen_filling capacity m id k i))
  | inr full ↦
      let o = window-oldest capacity m i full in
      let h = i.seen k ∙ ap (member k) o in
      rw (length-window capacity m i, full)
        (rw full at (
          seen_full m.seen (at_slot m.order m.next) (tail_or_nil (window capacity m)) id k h
            (subst Distinct o i.distinct).0))
]

Distinct-push_newest :
    (capacity : ℕ) (ids : List String) (id : String)
    → member id ids ≡ false
    → Distinct ids
    → Distinct (push_newest capacity ids id)
Distinct-push_newest capacity [] id n d = ground arith
Distinct-push_newest capacity (x ∷ ids) id n d =
    elim (Bool-cases (ltb (length (x ∷ ids)) capacity)) [
      | inl few ↦ rw few (Distinct-push (x ∷ ids) id n d)
      | inr full ↦ rw full (Distinct-push ids id (ground arith) d.1)
    ]

store_new-inside :
    (capacity : ℕ) (m : Memory) (id : String)
    → Inv capacity m
    → (store_new capacity m id).next < capacity
unfolding store_new
store_new-inside capacity m id i = elim (Bool-cases (ltb m.count capacity)) [
  | inl few ↦ rw few i.inside
  | inr full ↦ rw full (mod-lt (m.next + 1) (omega (arith, i.inside)))
]

store_new-Inv :
    (capacity : ℕ) (m : Memory) (id : String)
    → member id (window capacity m) ≡ false
    → Inv capacity m
    → Inv capacity (store_new capacity m id)
store_new-Inv capacity m id new i = record {
  sized =
      unfold store_new in
      ground (
        arith,
        i.sized,
        length-set m.order ((m.next + m.count) % capacity) id,
        length-set m.order m.next id,
      );
  inside = store_new-inside capacity m id i;
  counted = unfold store_new in ground (arith, i.counted);
  filling = unfold store_new in ground (arith, i.filling, i.counted);
  seen = λ k.
      store_new-seen capacity m id k i ∙ ap (member k) (sym (window-store_new capacity m id i));
  distinct =
      rw (window-store_new capacity m id i)
        (Distinct-push_newest capacity (window capacity m) id new i.distinct);
}

remember-new :
    (capacity : ℕ) (m : Memory) (id : String)
    → lookup id m.seen ≡ none
    → remember capacity m id ≡ (store_new capacity m id, true)
unfolding remember
remember-new capacity m id e = rw (e, remember)

remember-old :
    (capacity : ℕ) (m : Memory) (id : String) (u : Unit {0})
    → lookup id m.seen ≡ some u
    → remember capacity m id ≡ (m, false)
unfolding remember
remember-old capacity m id u e = rw (e, remember)

store_new-present :
    (capacity : ℕ) (m : Memory) (id : String) → lookup id (store_new capacity m id).seen ≡ some tt
unfolding store_new
store_new-present capacity m id = ground (
  arith,
  lookup-insert id id tt m.seen,
  lookup-insert id id tt (delete (at_slot m.order m.next) m.seen),
  eq_iff id id,
)

-- Remembered again at once, an identifier is old, and nothing changes.
pub remember_twice :
    (capacity : ℕ) (m : Memory) (id : String)
    → remember capacity (remember capacity m id).0 id ≡ ((remember capacity m id).0, false)
remember_twice capacity m id = elim (Option-cases (lookup id m.seen)) [
  | inl e ↦
      rw (remember-new capacity m id e)
        (remember-old capacity (store_new capacity m id) id tt (store_new-present capacity m id))
  | inr (u, e) ↦ rw (remember-old capacity m id u e) (remember-old capacity m id u e)
]

-- An old identifier changes nothing.
pub remember-unchanged :
    (capacity : ℕ) (m : Memory) (id : String)
    → (remember capacity m id).1 ≡ false
    → (remember capacity m id).0 ≡ m
remember-unchanged capacity m id h = elim (Option-cases (lookup id m.seen)) [
  | inl e ↦ absurd (true≢false (sym (ap (λ r. r.1) (remember-new capacity m id e)) ∙ h))
  | inr (u, e) ↦ rw (remember-old capacity m id u e)
]

-- The refinement: for any capacity, from a memory that satisfies the invariant.
pub remember-refines :
    (capacity : ℕ) (m : Memory) (id : String)
    → Inv capacity m
    → (window capacity (remember capacity m id).0
        ≡ (remember_spec capacity (window capacity m) id).0)
      × ((remember capacity m id).1 ≡ (remember_spec capacity (window capacity m) id).1)
      × Inv capacity (remember capacity m id).0
remember-refines capacity m id i = elim (Option-cases (lookup id m.seen)) [
  | inl e ↦
      let new : member id (window capacity m) ≡ false = sym (i.seen id) ∙ ap present e in
      rw (remember-new capacity m id e, new)
        (window-store_new capacity m id i, refl, store_new-Inv capacity m id new i)
  | inr (u, e) ↦
      let old : member id (window capacity m) ≡ true = sym (i.seen id) ∙ ap present e in
      rw (remember-old capacity m id u e, old) (refl, refl, i)
]
