-- ===== src/Notifications/Recall.antt =====
-- internal/notifications/router.go, `rememberEventLocked`: a ring of identifiers beside a set.
pub mod Slices
pub mod Ring
pub mod Queue
use dsh_work.Prelude.{
  ℕ, zero, suc, ◌+◌, ◌%◌, String, ◌==◌, Bool, true, false, Option, none, some, List, [], ◌∷◌, ltb,
  length, get_elem?, set, if◌then◌else◌,
}
use dsh_work.Prelude.Assoc.{Assoc, lookup, insert, delete}

abbrev pub max_remembered_events : ℕ
max_remembered_events = 1024

-- The set `seen`, the array `seenOrder`, and the two counters.
pub record Memory : Type 0 where
  pub seen : Assoc (Unit {0})
  pub order : List String
  pub next : ℕ
  pub count : ℕ

abbrev pub replicate {ℓ} : {A : Type ℓ} → ℕ → A → List A
replicate zero a = []
replicate (suc n) a = a ∷ replicate n a

unfoldable pub new_memory : ℕ → Memory
new_memory capacity = record { seen = []; order = replicate capacity ""; next = 0; count = 0 }

or_blank : Option String → String
or_blank none = ""
or_blank (some id) = id

-- The identifier in the slot.
pub at_slot : List String → ℕ → String
unfolding or_blank
at_slot order slot = or_blank (get_elem? order slot)

store_new : ℕ → Memory → String → Memory
unfolding at_slot
store_new capacity m id =
    if ltb m.count capacity
    then record m {
      seen = insert id tt m.seen;
      order = set m.order ((m.next + m.count) % capacity) id;
      count = m.count + 1;
    }
    else record m {
      seen = insert id tt (delete (at_slot m.order m.next) m.seen);
      order = set m.order m.next id;
      next = (m.next + 1) % capacity;
    }

-- The result tells whether the identifier is new.
unfoldable pub remember : ℕ → Memory → String → Memory × Bool
unfolding store_new
remember capacity m id = elim (lookup id m.seen) [
  | none ↦ (store_new capacity m id, true)
  | some _ ↦ (m, false)
]
