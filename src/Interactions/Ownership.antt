-- ===== src/Interactions/Ownership.antt =====
-- internal/dshinteraction/store.go: the owners and the pages name each other.
use dsh_work.Prelude.{
  String, ◌≡◌, Option, none, some, List, arith, eq_iff, Option-cases, inl, inr, Bool-cases, false,
  ◌∷◌, [], ◌==◌, ◌⊎◌, refl,
}
use dsh_work.Prelude.Assoc.{lookup, lookup-insert, lookup-delete}
use dsh_work.Interactions.{
  Store, Page, Change, remove_page, put_page, open_page, Call, call, clear_each, clear_window,
  deliver_first, enter, new_store, owned_elsewhere, remove_found, remove_instance, report, run,
  update_page, Report, reset, clear_all, deliver, reports, resets, clears, sorted_keys, clears_all,
  delivers,
}

abbrev pub instance_of : Option Page → Option String
instance_of none = none
instance_of (some p) = some p.instance_id

pub record Inv (s : Store) : Type 0 where
  -- The surface that owns an instance shows it.
  pub shown : (i t : String) → lookup i s.owners ≡ some t → instance_of (lookup t s.pages) ≡ some i
  -- A page's instance is owned by the surface that shows it.
  pub owned :
      (t : String) (p : Page) → lookup t s.pages ≡ some p → lookup p.instance_id s.owners ≡ some t

pub remove_page-Inv :
    (s : Store) (t : String) (p : Page)
    → lookup t s.pages ≡ some p
    → Inv s
    → Inv (remove_page s t p)
unfolding remove_page
remove_page-Inv s t p at v = record {
  shown = λ i u h. ground (
    arith,
    lookup-delete p.instance_id i s.owners,
    lookup-delete t u s.pages,
    v.shown i u,
    eq_iff p.instance_id i,
    eq_iff t u,
  );
  owned = λ u q h. ground (
    arith,
    lookup-delete p.instance_id q.instance_id s.owners,
    lookup-delete t u s.pages,
    v.owned u q,
    v.owned t p at,
    eq_iff p.instance_id q.instance_id,
    eq_iff t u,
  );
}

pub put_page-Inv :
    (s : Store) (t : String) (p : Page) (new : List Change)
    → instance_of (lookup t s.pages) ≡ some p.instance_id
    → Inv s
    → Inv (put_page s t p new)
unfolding put_page
put_page-Inv s t p new at v = record {
  shown = λ i u h. ground (arith, lookup-insert t u p s.pages, v.shown i u h, eq_iff t u);
  owned = λ u q h. elim (Option-cases (lookup t s.pages)) [
    | inl e ↦ ground (arith, e)
    | inr (o, e) ↦
        ground (arith, lookup-insert t u p s.pages, v.owned u q, v.owned t o e, eq_iff t u, e)
  ];
}

open_page-Inv :
    (s : Store) (t i : String)
    → lookup t s.pages ≡ none
    → lookup i s.owners ≡ none
    → Inv s
    → Inv (open_page s t i).0
unfolding open_page
open_page-Inv s t i free new v = record {
  shown = λ j u h. ground (
    arith,
    lookup-insert i j t s.owners,
    lookup-insert t u (open_page s t i).1 s.pages,
    v.shown j u,
    eq_iff i j,
    eq_iff t u,
  );
  owned = λ u q h. ground (
    arith,
    lookup-insert i q.instance_id t s.owners,
    lookup-insert t u (open_page s t i).1 s.pages,
    v.owned u q,
    eq_iff i q.instance_id,
    eq_iff t u,
  );
}

lookup-open_page :
    (s : Store) (t i : String) → lookup t (open_page s t i).0.pages ≡ some (open_page s t i).1
unfolding open_page
lookup-open_page s t i = ground (arith, lookup-insert t t (open_page s t i).1 s.pages, eq_iff t t)

-- What `enter` hands over: a store that satisfies the invariant, with the page of the instance.
pub record Entered (t i : String) (r : Store × Page) : Type 0 where
  pub valid : Inv r.0
  pub here : lookup t r.0.pages ≡ some r.1
  pub right : r.1.instance_id ≡ i

-- An instance that no other surface owns is owned by this one or by none.
pub own_or_free :
    (o : Option String) (t : String) → owned_elsewhere o t ≡ false → (o ≡ none) ⊎ (o ≡ some t)
unfolding owned_elsewhere
own_or_free none t h = inl refl
own_or_free (some u) t h = inr (ground (arith, eq_iff u t))

opened :
    (s : Store) (t i : String)
    → lookup t s.pages ≡ none
    → lookup i s.owners ≡ none
    → Inv s
    → Entered t i (open_page s t i)
opened s t i free new v = record {
  valid = open_page-Inv s t i free new v;
  here = lookup-open_page s t i;
  right = unfold open_page in refl;
}

-- Once the surface's page of another instance is gone, the instance has no owner.
pub free_after :
    (s : Store) (t i : String) (p : Page)
    → lookup t s.pages ≡ some p
    → owned_elsewhere (lookup i s.owners) t ≡ false
    → (p.instance_id == i) ≡ false
    → Inv s
    → lookup i (remove_page s t p).owners ≡ none
unfolding remove_page
free_after s t i p e h other v = ground (
  arith,
  lookup-delete p.instance_id i s.owners,
  v.shown i t,
  own_or_free (lookup i s.owners) t h,
  eq_iff p.instance_id i,
)

-- An accepted report finds its instance without an owner, or owned by its surface.
pub enter-Entered :
    (s : Store) (t i : String) (o : Option Page)
    → lookup t s.pages ≡ o
    → owned_elsewhere (lookup i s.owners) t ≡ false
    → Inv s
    → Entered t i (enter s t i o)
unfolding enter owned_elsewhere
enter-Entered s t i none e h v =
    opened s t i e (ground (arith, v.shown i t, own_or_free (lookup i s.owners) t h)) v
enter-Entered s t i (some p) e h v = elim (Bool-cases (p.instance_id == i)) [
  | inl same ↦ rw same (record { valid = v; here = e; right = (eq_iff p.instance_id i).0 same })
  | inr other ↦ rw other (
      opened (remove_page s t p) t i
        (unfold remove_page in ground (arith, lookup-delete t t s.pages, eq_iff t t))
        (free_after s t i p e h other v) (remove_page-Inv s t p e v))
]

update_page-Inv :
    (s : Store) (t i : String) (p : Page) (r : Report)
    → Entered t i (s, p)
    → Inv (update_page s t p r)
unfolding update_page
update_page-Inv s t i p r e =
    let at : instance_of (lookup t s.pages) ≡ some p.instance_id = rw e.here refl in
    elim (Bool-cases (r.session_id == "")) [
      | inl a ↦ rw a (put_page-Inv s t _ _ at e.valid)
      | inr a ↦ rw a (elim (Bool-cases (r.kind == "")) [
        | inl b ↦ rw b (put_page-Inv s t _ _ at e.valid)
        | inr b ↦ rw b (put_page-Inv s t _ _ at e.valid)
      ])
    ]

report-Inv : (s : Store) (t : String) (r : Report) → Inv s → Inv (report s t r).0
unfolding report
report-Inv s t r v = elim (Bool-cases (owned_elsewhere (lookup r.instance_id s.owners) t)) [
  | inl e ↦ rw e v
  | inr e ↦ rw e (
      update_page-Inv _ t r.instance_id _ r
        (enter-Entered s t r.instance_id (lookup t s.pages) refl e v))
]

remove_found-Inv :
    (s : Store) (t : String) (o : Option Page)
    → lookup t s.pages ≡ o
    → Inv s
    → Inv (remove_found s t o)
unfolding remove_found
remove_found-Inv s t none e v = v
remove_found-Inv s t (some p) e v = remove_page-Inv s t p e v

remove_instance-Inv :
    (s : Store) (t i : String) (o : Option Page)
    → lookup t s.pages ≡ o
    → Inv s
    → Inv (remove_instance s t i o)
unfolding remove_instance
remove_instance-Inv s t i none e v = v
remove_instance-Inv s t i (some p) e v = elim (Bool-cases (p.instance_id == i)) [
  | inl same ↦ rw same (remove_page-Inv s t p e v)
  | inr other ↦ rw other v
]

pub clear_window-Inv : (s : Store) (t : String) → Inv s → Inv (clear_window s t)
unfolding clear_window
clear_window-Inv s t v = remove_found-Inv s t (lookup t s.pages) refl v

clear_each-Inv : (s : Store) (ts : List String) → Inv s → Inv (clear_each s ts)
unfolding clear_each
clear_each-Inv s [] v = v
clear_each-Inv s (t ∷ ts) v = clear_each-Inv (clear_window s t) ts (clear_window-Inv s t v)

deliver_first-Inv : (s : Store) (cs : List Change) → Inv s → Inv (deliver_first s cs)
unfolding deliver_first
deliver_first-Inv s [] v = v
deliver_first-Inv s (c ∷ cs) v = record { shown = v.shown; owned = v.owned }

pub call-Inv : (s : Store) (c : Call) → Inv s → Inv (call s c)
unfolding call reset clear_all deliver
call-Inv s (reports t r) v = report-Inv s t r v
call-Inv s (resets t i) v = remove_instance-Inv s t i (lookup t s.pages) refl v
call-Inv s (clears t) v = clear_window-Inv s t v
call-Inv s clears_all v = clear_each-Inv s (sorted_keys s.pages) v
call-Inv s delivers v = deliver_first-Inv s s.changes v

pub run-Inv : (s : Store) (cs : List Call) → Inv s → Inv (run s cs)
unfolding run
run-Inv s [] v = v
run-Inv s (c ∷ cs) v = run-Inv (call s c) cs (call-Inv s c v)

pub new_store-Inv : Inv new_store
unfolding new_store lookup
new_store-Inv = record { shown = λ i t h. cc; owned = λ t p h. cc }

-- After any calls on a new store, in any order, a surface owns an instance exactly if the page that
-- it shows is of that instance; so no instance is on two surfaces.
pub run-new_store-Inv : (cs : List Call) → Inv (run new_store cs)
run-new_store-Inv cs = run-Inv new_store cs new_store-Inv
