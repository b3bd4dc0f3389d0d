-- ===== src/Interactions/Heard.antt =====
-- internal/dshinteraction/store.go: what a listener makes of the changes that it is told of.
use mathlib.Core.Path.{ap₂}
use dsh_work.Prelude.{
  String, ◌==◌, ◌≡◌, refl, sym, ◌∙◌, ap, Bool, true, false, ◌&&◌, ◌||◌, Option, none, some, List,
  [], ◌∷◌, ◌++◌, if◌then◌else◌, arith, eq_iff, append_assoc,
}
use dsh_work.Prelude.Assoc.{Assoc, lookup}
use dsh_work.Interactions.{
  Store, Page, Change, added, removed, Interaction, sorted_keys, insert_key, removals, removal,
}
use dsh_work.Interactions.Ownership.{}

-- What a listener holds of one session of one instance after a change: the key of its interaction.
abbrev pub hears : Option String → Change → String → String → Option String
hears known (added surface instance session it) i k =
    if instance == i && session == k then some it.key else known
hears known (removed instance session it) i k =
    if instance == i && session == k then none else known

abbrev pub heard : Option String → List Change → String → String → Option String
heard known [] i k = known
heard known (c ∷ cs) i k = heard (hears known c i k) cs i k

abbrev pub key_of : Option Interaction → Option String
key_of none = none
key_of (some it) = some it.key

abbrev pub key_on : Option Page → String → Option String
key_on none k = none
key_on (some p) k = key_of (lookup k p.interactions)

abbrev pub key_at : Option String → Assoc Page → String → Option String
key_at none pages k = none
key_at (some t) pages k = key_on (lookup t pages) k

-- The key of the pending interaction of a session of an instance.
abbrev pub pending_key : Store → String → String → Option String
pending_key s i k = key_at (lookup i s.owners) s.pages k

abbrev pub log : Store → List Change
log s = s.delivered ++ s.changes

abbrev pub IsInformed : Store → Type 0
IsInformed s = (i k : String) → heard none (log s) i k ≡ pending_key s i k

pub heard-append :
    (known : Option String) (xs ys : List Change) (i k : String)
    → heard known (xs ++ ys) i k ≡ heard (heard known xs i k) ys i k
heard-append known [] ys i k = refl
heard-append known (x ∷ xs) ys i k = heard-append (hears known x i k) xs ys i k

-- New changes that say what became of each session keep the listener informed.
pub changes_suffice :
    (s t : Store) (new : List Change)
    → t.delivered ≡ s.delivered
    → t.changes ≡ s.changes ++ new
    → IsInformed s
    → ((i k : String) → heard (pending_key s i k) new i k ≡ pending_key t i k)
    → IsInformed t
changes_suffice s t new d c h step i k =
    ap (λ l. heard none l i k) (ap₂ (◌++◌) d c ∙ sym (append_assoc s.delivered s.changes new))
    ∙ heard-append none (log s) new i k
    ∙ ap (λ o. heard o new i k) (h i k)
    ∙ step i k

-- Whether a key stands in a list.
abbrev pub member : String → List String → Bool
member k [] = false
member k (j ∷ js) = j == k || member k js

pub member-insert_key :
    (k j : String) (ks : List String) → member k (insert_key j ks) ≡ (j == k || member k ks)
unfolding insert_key
member-insert_key k j [] = refl
member-insert_key k j (x ∷ ks) = ground (arith, member-insert_key k j ks)

pub sorted-lookup :
    (k : String) (m : Assoc Interaction) → member k (sorted_keys m) ≡ false → lookup k m ≡ none
unfolding sorted_keys lookup
sorted-lookup k [] h = refl
sorted-lookup k ((j, it) ∷ m) h =
    ground (arith, member-insert_key k j (sorted_keys m), sorted-lookup k m)

abbrev pub present : Option Interaction → Bool
present none = false
present (some it) = true

pub heard-removal :
    (known : Option String) (inst j : String) (o : Option Interaction) (i k : String)
    → heard known (removal inst j o) i k
      ≡ (if inst == i && j == k && present o then none else known)
unfolding removal
heard-removal known inst j none i k = ground arith
heard-removal known inst j (some it) i k = ground arith

pub heard-removals :
    (known : Option String) (inst : String) (m : Assoc Interaction) (ks : List String)
    (i k : String)
    → heard known (removals inst m ks) i k
      ≡ (if inst == i && member k ks && present (lookup k m) then none else known)
unfolding removals
heard-removals known inst m [] i k = ground arith
heard-removals known inst m (j ∷ ks) i k =
    heard-append known (removal inst j (lookup j m)) (removals inst m ks) i k
    ∙ heard-removals (heard known (removal inst j (lookup j m)) i k) inst m ks i k
    ∙ ground (arith, heard-removal known inst j (lookup j m) i k, eq_iff j k)
