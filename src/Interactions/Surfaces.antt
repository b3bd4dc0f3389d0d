-- ===== src/Interactions/Surfaces.antt =====
-- internal/dshinteraction/store.go: which reports are refused, and what a clear leaves.
use mathlib.Core.Logic.{∥∥₁_elim}
use dsh_work.Prelude.{
  String, ◌==◌, ◌≡◌, ◌≢◌, refl, Bool, true, false, ◌||◌, none, some, List, [], ◌∷◌, arith, eq_iff,
  Option-cases, ◌⊎◌, ◌↔◌, inl, inr, if◌then◌else◌,
}
use dsh_work.Prelude.Assoc.{Assoc, lookup, lookup-delete}
use dsh_work.Interactions.{
  Store, Page, Report, new_store, remove_page, report, clear_window, clear_all, clear_each,
  remove_found, Call, run, sorted_keys, insert_key, owned_elsewhere, owner, page,
}
use dsh_work.Interactions.Ownership.{Inv, instance_of, run-new_store-Inv, clear_window-Inv}

refused :
    (s : Store) (t : String) (r : Report)
    → (report s t r).1 ≡ false
    → (u : String) × (u ≢ t) × (lookup r.instance_id s.owners ≡ some u)
unfolding report owned_elsewhere
refused s t r h = elim (Option-cases (lookup r.instance_id s.owners)) [
  | inl e ↦ absurd (ground (arith, e))
  | inr (u, e) ↦ (u, (λ q. ground (arith, e, eq_iff u t, q)), e)
]

elsewhere :
    (s : Store) (t u : String) (r : Report)
    → u ≢ t
    → lookup r.instance_id s.owners ≡ some u
    → (report s t r).1 ≡ false
unfolding report owned_elsewhere
elsewhere s t u r n e = ground (arith, e, eq_iff u t)

owner_of :
    (s : Store)
    → Inv s
    → (u i : String) → instance_of (lookup u s.pages) ≡ some i
    → lookup i s.owners ≡ some u
owner_of s v u i h = elim (Option-cases (lookup u s.pages)) [
  | inl e ↦ absurd (ground (arith, e))
  | inr (p, e) ↦ ground (arith, e, v.owned u p e)
]

-- After any calls on a new store, a report is refused exactly if another surface shows a page of
-- its instance.
pub report_refused_iff :
    (cs : List Call) (t : String) (r : Report)
    → let s = run new_store cs in
      ((report s t r).1 ≡ false)
      ↔ ∥ ((u : String) × (u ≢ t) × (instance_of (page s u) ≡ some r.instance_id)) ∥₁
unfolding page
report_refused_iff cs t r =
    let s = run new_store cs in
    let v = run-new_store-Inv cs in
    (
      λ h. let w = refused s t r h in ∣ (w.0, w.1, v.shown r.instance_id w.0 w.2) ∣₁,
      λ h. ∥∥₁_elim h (hlevel) (λ w. elsewhere s t w.0 r w.1 (owner_of s v w.0 r.instance_id w.2)),
    )

abbrev member : String → List String → Bool
member k [] = false
member k (j ∷ js) = j == k || member k js

member-insert_key :
    (k j : String) (ks : List String) → member k (insert_key j ks) ≡ (j == k || member k ks)
unfolding insert_key
member-insert_key k j [] = refl
member-insert_key k j (x ∷ ks) = ground (arith, member-insert_key k j ks)

sorted-page :
    (k : String) (m : Assoc Page) → (member k (sorted_keys m) ≡ true) ⊎ (lookup k m ≡ none)
unfolding sorted_keys lookup
sorted-page k [] = inr refl
sorted-page k ((j, it) ∷ m) = ground (arith, member-insert_key k j (sorted_keys m), sorted-page k m)

lookup-clear_window :
    (s : Store) (t u : String)
    → lookup u (clear_window s t).pages ≡ (if t == u then none else lookup u s.pages)
unfolding clear_window remove_found remove_page
lookup-clear_window s t u =
    ground (arith, lookup-delete t u s.pages, Option-cases (lookup t s.pages), eq_iff t u)

lookup-clear_each :
    (s : Store) (ts : List String) (u : String)
    → (member u ts ≡ true) ⊎ (lookup u s.pages ≡ none)
    → lookup u (clear_each s ts).pages ≡ none
unfolding clear_each
lookup-clear_each s [] u h = ground arith
lookup-clear_each s (t ∷ ts) u h =
    lookup-clear_each (clear_window s t) ts u (ground (arith, lookup-clear_window s t u))

clear_each-keeps_Inv : (s : Store) (ts : List String) → Inv s → Inv (clear_each s ts)
unfolding clear_each
clear_each-keeps_Inv s [] v = v
clear_each-keeps_Inv s (t ∷ ts) v =
    clear_each-keeps_Inv (clear_window s t) ts (clear_window-Inv s t v)

-- After any calls on a new store, `ClearAll` leaves no page and no owner.
pub clear_all-empty :
    (cs : List Call) (t i : String)
    → let s = clear_all (run new_store cs) in (page s t ≡ none) × (owner s i ≡ none)
unfolding clear_all page owner
clear_all-empty cs t i =
    let s = run new_store cs in
    let v = clear_each-keeps_Inv s (sorted_keys s.pages) (run-new_store-Inv cs) in
    let gone =
      λ (u : String). lookup-clear_each s (sorted_keys s.pages) u (sorted-page u s.pages) in
    (
      gone t,
      elim (Option-cases (lookup i (clear_each s (sorted_keys s.pages)).owners)) [
        | inl e ↦ e
        | inr (u, e) ↦ absurd (ground (arith, v.shown i u e, gone u))
      ],
    )
