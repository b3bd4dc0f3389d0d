-- ===== src/Interactions/Views.antt =====
-- internal/dshinteraction/store.go: a listener that is told of every change knows the interactions.
use dsh_work.Prelude.{
  String, ◌==◌, ◌≡◌, refl, sym, ◌∙◌, ap, true, false, ◌&&◌, Option, none, some, List, [], ◌∷◌, ◌++◌,
  if◌then◌else◌, arith, eq_iff, Option-cases, Bool-cases, inl, inr, append_assoc,
}
use dsh_work.Prelude.Assoc.{lookup, lookup-insert, lookup-delete}
use dsh_work.Interactions.{
  Store, Page, Change, Interaction, Report, new_store, remove_page, put_page, open_page, enter,
  update_page, report, reset, clear_window, clear_all, clear_each, remove_found, remove_instance,
  deliver, deliver_first, Call, reports, resets, clears, clears_all, delivers, call, run,
  sorted_keys, owned_elsewhere, removals, replacement, observed,
}
use dsh_work.Interactions.Ownership.{
  Inv, remove_page-Inv, enter-Entered, call-Inv, new_store-Inv, own_or_free, free_after,
  clear_window-Inv,
}
use dsh_work.Interactions.Heard.{
  heard, key_of, pending_key, log, IsInformed, changes_suffice, sorted-lookup, heard-removal,
  heard-removals,
}

-- What the removal of a page leaves of each session.
pending_key-remove_page :
    (s : Store) (t : String) (p : Page) (i k : String)
    → lookup t s.pages ≡ some p
    → Inv s
    → pending_key (remove_page s t p) i k ≡ (if p.instance_id == i then none else pending_key s i k)
unfolding remove_page
pending_key-remove_page s t p i k at v = elim (Option-cases (lookup i s.owners)) [
  | inl e ↦ ground (arith, e, lookup-delete p.instance_id i s.owners)
  | inr (u, e) ↦ ground (
    arith,
    e,
    lookup-delete p.instance_id i s.owners,
    lookup-delete t u s.pages,
    v.shown i u e,
    eq_iff p.instance_id i,
    eq_iff t u,
  )
]

pending_key-here :
    (s : Store) (t : String) (p : Page) (k : String)
    → lookup t s.pages ≡ some p
    → Inv s
    → pending_key s p.instance_id k ≡ key_of (lookup k p.interactions)
pending_key-here s t p k at v = rw (v.owned t p at, at)

remove_page-IsInformed :
    (s : Store) (t : String) (p : Page)
    → lookup t s.pages ≡ some p
    → Inv s
    → IsInformed s
    → IsInformed (remove_page s t p)
remove_page-IsInformed s t p at v h =
    changes_suffice s (remove_page s t p)
      (removals p.instance_id p.interactions (sorted_keys p.interactions))
      (unfold remove_page in refl) (unfold remove_page in refl) h
      λ i k. ground (
        arith,
        heard-removals (pending_key s i k) p.instance_id p.interactions (sorted_keys p.interactions)
            i k,
        pending_key-remove_page s t p i k at v,
        pending_key-here s t p k at v,
        eq_iff p.instance_id i,
        sorted-lookup k p.interactions,
      )

pending_key-put_page :
    (s : Store) (t : String) (o p : Page) (new : List Change) (i k : String)
    → lookup t s.pages ≡ some o
    → p.instance_id ≡ o.instance_id
    → Inv s
    → pending_key (put_page s t p new) i k
      ≡ (if p.instance_id == i then key_of (lookup k p.interactions) else pending_key s i k)
unfolding put_page
pending_key-put_page s t o p new i k at same v = elim (Option-cases (lookup i s.owners)) [
  | inl e ↦ ground (arith, e, v.owned t o at, eq_iff p.instance_id i)
  | inr (u, e) ↦ ground (
    arith,
    e,
    lookup-insert t u p s.pages,
    v.shown i u e,
    v.owned t o at,
    eq_iff p.instance_id i,
    eq_iff t u,
  )
]

lookup_nil : (k : String) → lookup {V = Interaction} k [] ≡ none
unfolding lookup
lookup_nil k = refl

pending_key-open_page :
    (s : Store) (t i j k : String)
    → lookup t s.pages ≡ none
    → lookup i s.owners ≡ none
    → Inv s
    → pending_key (open_page s t i).0 j k ≡ pending_key s j k
unfolding open_page
pending_key-open_page s t i j k free new v = elim (Option-cases (lookup j s.owners)) [
  | inl e ↦ ground (
    arith,
    e,
    lookup-insert i j t s.owners,
    lookup-insert t t (open_page s t i).1 s.pages,
    eq_iff t t,
    lookup_nil k,
  )
  | inr (u, e) ↦ ground (
    arith,
    e,
    lookup-insert i j t s.owners,
    lookup-insert t u (open_page s t i).1 s.pages,
    v.shown j u e,
    eq_iff i j,
    eq_iff t u,
  )
]

open_page-IsInformed :
    (s : Store) (t i : String)
    → lookup t s.pages ≡ none
    → lookup i s.owners ≡ none
    → Inv s
    → IsInformed s
    → IsInformed (open_page s t i).0
open_page-IsInformed s t i free new v h j k =
    unfold open_page in h j k ∙ sym (pending_key-open_page s t i j k free new v)

enter-IsInformed :
    (s : Store) (t i : String) (o : Option Page)
    → lookup t s.pages ≡ o
    → owned_elsewhere (lookup i s.owners) t ≡ false
    → Inv s
    → IsInformed s
    → IsInformed (enter s t i o).0
unfolding enter
enter-IsInformed s t i none e h v f =
    open_page-IsInformed s t i e (ground (arith, v.shown i t, own_or_free (lookup i s.owners) t h))
      v f
enter-IsInformed s t i (some p) e h v f = elim (Bool-cases (p.instance_id == i)) [
  | inl same ↦ rw same f
  | inr other ↦ rw other (
      open_page-IsInformed (remove_page s t p) t i
        (unfold remove_page in ground (arith, lookup-delete t t s.pages, eq_iff t t))
        (free_after s t i p e h other v) (remove_page-Inv s t p e v)
        (remove_page-IsInformed s t p e v f))
]

heard-replacement :
    (known : Option String) (t inst sess : String) (it : Interaction) (o : Option Interaction)
    (i k : String)
    → (inst == i && sess == k ≡ true → known ≡ key_of o)
    → heard known (replacement t inst sess it o) i k
      ≡ (if inst == i && sess == k then some it.key else known)
unfolding replacement
heard-replacement known t inst sess it none i k h = ground arith
heard-replacement known t inst sess it (some q) i k h = ground (arith, eq_iff q.key it.key)

-- A page that takes the place of another one of its instance, with the changes that say so.
put_page-IsInformed :
    (s : Store) (t : String) (o p : Page) (new : List Change)
    → lookup t s.pages ≡ some o
    → p.instance_id ≡ o.instance_id
    → ((i k : String)
        → heard (pending_key s i k) new i k
          ≡ (if p.instance_id == i then key_of (lookup k p.interactions) else pending_key s i k))
    → Inv s
    → IsInformed s
    → IsInformed (put_page s t p new)
put_page-IsInformed s t o p new at same says v f =
    changes_suffice s (put_page s t p new) new (unfold put_page in refl) (unfold put_page in refl) f
      λ i k. says i k ∙ sym (pending_key-put_page s t o p new i k at same v)

update_page-IsInformed :
    (s : Store) (t : String) (p : Page) (r : Report)
    → lookup t s.pages ≡ some p
    → Inv s
    → IsInformed s
    → IsInformed (update_page s t p r)
unfolding update_page
update_page-IsInformed s t p r at v f = elim (Bool-cases (r.session_id == "")) [
  | inl a ↦ rw a (
      put_page-IsInformed s t p _ [] at refl
        (λ i k. ground (arith, pending_key-here s t p k at v, eq_iff p.instance_id i)) v f)
  | inr a ↦ rw a (elim (Bool-cases (r.kind == "")) [
    | inl b ↦ rw b (
        put_page-IsInformed s t p _ _ at refl
          (λ i k. ground (
            arith,
            pending_key-here s t p k at v,
            heard-removal (pending_key s i k) p.instance_id r.session_id
                (lookup r.session_id p.interactions) i k,
            lookup-delete r.session_id k p.interactions,
            eq_iff p.instance_id i,
            eq_iff r.session_id k,
          ))
          v f)
    | inr b ↦ rw b (
        put_page-IsInformed s t p _ _ at refl
          (λ i k. ground (
            arith,
            pending_key-here s t p k at v,
            heard-replacement (pending_key s i k) t p.instance_id r.session_id (observed r)
                (lookup r.session_id p.interactions) i k,
            lookup-insert r.session_id k (observed r) p.interactions,
            eq_iff p.instance_id i,
            eq_iff r.session_id k,
          ))
          v f)
  ])
]

report-IsInformed :
    (s : Store) (t : String) (r : Report) → Inv s → IsInformed s → IsInformed (report s t r).0
unfolding report
report-IsInformed s t r v f =
    elim (Bool-cases (owned_elsewhere (lookup r.instance_id s.owners) t)) [
      | inl e ↦ rw e f
      | inr e ↦
          let n = enter-Entered s t r.instance_id (lookup t s.pages) refl e v in
          rw e (
            update_page-IsInformed _ t _ r n.here n.valid
              (enter-IsInformed s t r.instance_id (lookup t s.pages) refl e v f))
    ]

remove_found-IsInformed :
    (s : Store) (t : String) (o : Option Page)
    → lookup t s.pages ≡ o
    → Inv s
    → IsInformed s
    → IsInformed (remove_found s t o)
unfolding remove_found
remove_found-IsInformed s t none e v f = f
remove_found-IsInformed s t (some p) e v f = remove_page-IsInformed s t p e v f

remove_instance-IsInformed :
    (s : Store) (t i : String) (o : Option Page)
    → lookup t s.pages ≡ o
    → Inv s
    → IsInformed s
    → IsInformed (remove_instance s t i o)
unfolding remove_instance
remove_instance-IsInformed s t i none e v f = f
remove_instance-IsInformed s t i (some p) e v f = elim (Bool-cases (p.instance_id == i)) [
  | inl same ↦ rw same (remove_page-IsInformed s t p e v f)
  | inr other ↦ rw other f
]

clear_each-IsInformed :
    (s : Store) (ts : List String) → Inv s → IsInformed s → IsInformed (clear_each s ts)
unfolding clear_each clear_window
clear_each-IsInformed s [] v f = f
clear_each-IsInformed s (t ∷ ts) v f =
    clear_each-IsInformed (clear_window s t) ts (clear_window-Inv s t v)
      (remove_found-IsInformed s t (lookup t s.pages) refl v f)

deliver_first-IsInformed :
    (s : Store) (cs : List Change) → s.changes ≡ cs → IsInformed s → IsInformed (deliver_first s cs)
unfolding deliver_first
deliver_first-IsInformed s [] e f i k = f i k
deliver_first-IsInformed s (c ∷ cs) e f i k =
    ap (λ l. heard none l i k)
      (append_assoc s.delivered (c ∷ []) cs ∙ ap (λ l. s.delivered ++ l) (sym e))
    ∙ f i k

call-IsInformed : (s : Store) (c : Call) → Inv s → IsInformed s → IsInformed (call s c)
unfolding call reset clear_all deliver clear_window
call-IsInformed s (reports t r) v f = report-IsInformed s t r v f
call-IsInformed s (resets t i) v f = remove_instance-IsInformed s t i (lookup t s.pages) refl v f
call-IsInformed s (clears t) v f = remove_found-IsInformed s t (lookup t s.pages) refl v f
call-IsInformed s clears_all v f = clear_each-IsInformed s (sorted_keys s.pages) v f
call-IsInformed s delivers v f = deliver_first-IsInformed s s.changes refl f

run-IsInformed : (s : Store) (cs : List Call) → Inv s → IsInformed s → IsInformed (run s cs)
unfolding run
run-IsInformed s [] v f = f
run-IsInformed s (c ∷ cs) v f =
    run-IsInformed (call s c) cs (call-Inv s c v) (call-IsInformed s c v f)

-- After any calls on a new store, with the callbacks delivered at any pace, a listener that was told
-- of the delivered changes and then of those that wait holds, for every session of every instance,
-- the key of its pending interaction, and nothing where there is none.
pub run-new_store-IsInformed :
    (cs : List Call) (i k : String)
    → heard none (log (run new_store cs)) i k ≡ pending_key (run new_store cs) i k
run-new_store-IsInformed cs =
    run-IsInformed new_store cs new_store-Inv (λ i k. unfold new_store lookup in refl)
