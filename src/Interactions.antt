-- ===== src/Interactions.antt =====
-- internal/dshinteraction/store.go: the pending interactions of each page, and the callbacks. A
-- method is its section under the lock; the callbacks that `dispatch` then makes are steps of their
-- own, one for each loop round, and other calls may come between them.
pub mod Ownership
pub mod Heard
pub mod Views
pub mod Surfaces
mod Examples
use Prim.Native.String.{compare}
use text.Mathlib.Text.{is_le}
use dsh_work.Prelude.{
  String, ◌==◌, Bool, true, false, not, Option, none, some, List, [], ◌∷◌, ◌++◌, if◌then◌else◌,
}
use dsh_work.Prelude.Assoc.{Assoc, lookup, insert, delete}

pub record Interaction : Type 0 where
  pub kind : String
  pub key : String
  pub tool_name : String
  pub reason : String

pub record Report : Type 0 where
  pub instance_id : String
  pub session_id : String
  pub kind : String
  pub key : String
  pub tool_name : String
  pub reason : String
  pub current : String
  pub visible : Bool

pub record Page : Type 0 where
  pub instance_id : String
  pub current : String
  pub visible : Bool
  pub interactions : Assoc Interaction

pub data Change : Type 0 where
  added : String → String → String → Interaction → Change
  removed : String → String → Interaction → Change

-- `delivered` holds the changes that the callbacks were called with, in order.
pub record Store : Type 0 where
  pub pages : Assoc Page
  pub owners : Assoc String
  pub changes : List Change
  pub delivered : List Change

pub new_store : Store
new_store = record { pages = []; owners = []; changes = []; delivered = [] }

-- `sort.Strings` of the keys of a map.
pub insert_key : String → List String → List String
insert_key k [] = k ∷ []
insert_key k (j ∷ js) = if is_le (compare k j) then k ∷ j ∷ js else j ∷ insert_key k js

pub sorted_keys {ℓ} : {V : Type ℓ} → Assoc V → List String
sorted_keys [] = []
sorted_keys ((k, v) ∷ m) = insert_key k (sorted_keys m)

pub removal : String → String → Option Interaction → List Change
removal instance_id session none = []
removal instance_id session (some it) = removed instance_id session it ∷ []

pub removals : String → Assoc Interaction → List String → List Change
unfolding removal
removals instance_id m [] = []
removals instance_id m (k ∷ ks) = removal instance_id k (lookup k m) ++ removals instance_id m ks

-- `removePageLocked`
pub remove_page : Store → String → Page → Store
remove_page s surface p = record s {
  changes = s.changes ++ removals p.instance_id p.interactions (sorted_keys p.interactions);
  owners = delete p.instance_id s.owners;
  pages = delete surface s.pages;
}

pub put_page : Store → String → Page → List Change → Store
put_page s surface p new = record s { pages = insert surface p s.pages; changes = s.changes ++ new }

fresh_page : String → Page
fresh_page instance_id = record {
  instance_id = instance_id;
  current = "";
  visible = false;
  interactions = [];
}

pub open_page : Store → String → String → Store × Page
unfolding fresh_page
open_page s surface instance_id = (
  record s {
    pages = insert surface (fresh_page instance_id) s.pages;
    owners = insert instance_id surface s.owners;
  },
  fresh_page instance_id,
)

-- The page of the surface, of this very instance: another one gives way to it.
pub enter : Store → String → String → Option Page → Store × Page
enter s surface instance_id none = open_page s surface instance_id
enter s surface instance_id (some p) =
    if p.instance_id == instance_id
    then (s, p)
    else open_page (remove_page s surface p) surface instance_id

-- The changes of an interaction that replaces another, or none, in a session.
pub replacement : String → String → String → Interaction → Option Interaction → List Change
replacement surface instance_id session it none = added surface instance_id session it ∷ []
replacement surface instance_id session it (some previous) =
    if previous.key == it.key
    then []
    else removed instance_id session previous ∷ added surface instance_id session it ∷ []

pub observed : Report → Interaction
observed r = record { kind = r.kind; key = r.key; tool_name = r.tool_name; reason = r.reason }

pub update_page : Store → String → Page → Report → Store
unfolding removal
update_page s surface p r =
    if r.session_id == ""
    then put_page s surface (record p { current = r.current; visible = r.visible }) []
    else if r.kind == ""
    then put_page s surface (record p { interactions = delete r.session_id p.interactions })
        (removal p.instance_id r.session_id (lookup r.session_id p.interactions))
    else put_page s surface
        (record p { interactions = insert r.session_id (observed r) p.interactions })
        (replacement surface p.instance_id r.session_id (observed r)
          (lookup r.session_id p.interactions))

pub owned_elsewhere : Option String → String → Bool
owned_elsewhere none surface = false
owned_elsewhere (some owner) surface = not (owner == surface)

-- `Report`; the result tells whether it was accepted.
pub report : Store → String → Report → Store × Bool
unfolding owned_elsewhere
report s surface r =
    if owned_elsewhere (lookup r.instance_id s.owners) surface
    then (s, false)
    else (let (t, p) = enter s surface r.instance_id (lookup surface s.pages) in
        (update_page t surface p r, true))

remove_found : Store → String → Option Page → Store
remove_found s surface none = s
remove_found s surface (some p) = remove_page s surface p

remove_instance : Store → String → String → Option Page → Store
remove_instance s surface instance_id none = s
remove_instance s surface instance_id (some p) =
    if p.instance_id == instance_id then remove_page s surface p else s

pub reset : Store → String → String → Store
unfolding remove_instance
reset s surface instance_id = remove_instance s surface instance_id (lookup surface s.pages)

pub clear_window : Store → String → Store
unfolding remove_found
clear_window s surface = remove_found s surface (lookup surface s.pages)

clear_each : Store → List String → Store
unfolding clear_window
clear_each s [] = s
clear_each s (surface ∷ rest) = clear_each (clear_window s surface) rest

pub clear_all : Store → Store
unfolding clear_each
clear_all s = clear_each s (sorted_keys s.pages)

pub owner : Store → String → Option String
owner s instance_id = lookup instance_id s.owners

pub page : Store → String → Option Page
page s surface = lookup surface s.pages

-- One round of the loop of `dispatch`.
deliver_first : Store → List Change → Store
deliver_first s [] = s
deliver_first s (c ∷ rest) = record s { changes = rest; delivered = s.delivered ++ c ∷ [] }

pub deliver : Store → Store
unfolding deliver_first
deliver s = deliver_first s s.changes

pub data Call : Type 0 where
  reports : String → Report → Call
  resets : String → String → Call
  clears : String → Call
  clears_all delivers : Call

pub call : Store → Call → Store
call s (reports surface r) = (report s surface r).0
call s (resets surface instance_id) = reset s surface instance_id
call s (clears surface) = clear_window s surface
call s clears_all = clear_all s
call s delivers = deliver s

pub run : Store → List Call → Store
run s [] = s
run s (c ∷ cs) = run (call s c) cs
