-- ===== src/Pet/Gate.antt =====
-- internal/pet/runtime.go: which events the runtime takes: those of its generation, once each, in order.
pub mod Admitted
pub mod Once
pub mod Declared
use dsh_work.Prelude.{
  ℕ, ◌+◌, ◌-◌, String, ◌==◌, Bool, true, false, not, ◌&&◌, ◌||◌, Option, none, some, List, [], ◌∷◌,
  ◌++◌, ltb, leb, length, if◌then◌else◌,
}
use dsh_work.Prelude.Space.{trim_space}
use dsh_work.Pet.Runtime.{
  Issue, stale_generation, duplicate_event, missing_generation, unsafe_event, out_of_order_event,
  Runtime, PetInputEvent, is_safe, add_diagnostic,
}

abbrev pub max_seen_events : ℕ
max_seen_events = 2048

-- `setGenerationLocked`
unfoldable pub enter_generation : Runtime → String → Runtime
enter_generation r generation = if r.generation == generation then r else record r {
  generation = generation;
  seen = [];
  seen_order = [];
  last_sequence = 0;
  last_event_at = 0;
  last_event_clock = none;
}

unfoldable pub set_generation : Runtime → String → Runtime
unfolding enter_generation
set_generation r generation =
    if is_safe (trim_space generation) 128 then enter_generation r (trim_space generation) else r

-- An event that is refused leaves a diagnostic.
pub data Gate : Type 0 where
  refused taken : Runtime → Gate

then_gate : Gate → (Runtime → Gate) → Gate
then_gate (refused r) next = refused r
then_gate (taken r) next = next r

check_generation : PetInputEvent → Runtime → Gate
unfolding enter_generation
check_generation e r =
    if e.generation == ""
    then (if r.generation == "" then taken r else refused (add_diagnostic r missing_generation))
    else if not (is_safe e.generation 128)
    then refused (add_diagnostic r unsafe_event)
    else if r.generation == ""
    then taken (enter_generation r e.generation)
    else if not (e.generation == r.generation)
    then refused (add_diagnostic r stale_generation)
    else taken r

pub member : String → List String → Bool
member id [] = false
member id (x ∷ xs) = x == id || member id xs

-- `delete` of a set, and an entry of it.
remove : String → List String → List String
remove id [] = []
remove id (x ∷ xs) = let rest = remove id xs in if x == id then rest else x ∷ rest

drop_first : List String → Runtime → Runtime
unfolding remove
drop_first [] r = r
drop_first (oldest ∷ rest) r = record r { seen = remove oldest r.seen; seen_order = rest }

pub drop_oldest : Runtime → Runtime
unfolding drop_first
drop_oldest r = drop_first r.seen_order r

pub add_seen : String → Runtime → Runtime
add_seen id r = record r { seen = r.seen ++ id ∷ []; seen_order = r.seen_order ++ id ∷ [] }

check_id : PetInputEvent → Runtime → Gate
unfolding member drop_oldest add_seen
check_id e r =
    if e.event_id == ""
    then taken r
    else if not (is_safe e.event_id 128)
    then taken (add_diagnostic r unsafe_event)
    else if member e.event_id r.seen
    then refused (add_diagnostic r duplicate_event)
    else taken (
        add_seen e.event_id
          (if leb max_seen_events (length r.seen_order) then drop_oldest r else r))

check_order : PetInputEvent → Runtime → Gate
check_order e r =
    if ltb 0 e.sequence && leb e.sequence r.last_sequence
      || ltb 0 e.monotonic_time && ltb 0 r.last_event_at && ltb e.monotonic_time r.last_event_at
    then refused (add_diagnostic r out_of_order_event)
    else taken r

-- `eventTimeLocked`, given what the clock tells.
event_time : PetInputEvent → Runtime → ℕ → ℕ
event_time e r clock = elim r.last_event_clock [
  | none ↦ clock
  | some c ↦
      if ltb 0 e.monotonic_time && ltb 0 r.last_event_at
      then c + (e.monotonic_time - r.last_event_at)
      else clock
]

-- The event's place in the order is kept.
pub note_order : PetInputEvent → ℕ → Runtime → Runtime
note_order e now r =
    let s = if ltb 0 e.sequence then record r { last_sequence = e.sequence } else r in
    if ltb 0 e.monotonic_time
    then record s { last_event_at = e.monotonic_time; last_event_clock = some now }
    else s

-- The event is turned away, or it is let in at a time.
pub data Admission : Type 0 where
  turned_away : Runtime → Admission
  let_in : Runtime → ℕ → Admission

let_ordered : PetInputEvent → ℕ → Gate → Admission
unfolding event_time note_order
let_ordered e clock (refused r) = turned_away r
let_ordered e clock (taken r) =
    let_in (note_order e (event_time e r clock) r) (event_time e r clock)

check : PetInputEvent → Runtime → Gate
unfolding then_gate check_generation check_id check_order
check e r = then_gate (then_gate (check_generation e r) (check_id e)) (check_order e)

-- The part of `Dispatch` in front of its switch.
unfoldable pub admit : PetInputEvent → ℕ → Runtime → Admission
unfolding let_ordered check
admit e clock r = let_ordered e clock (check e r)
