-- ===== src/Workspace/Validation.antt =====
-- internal/workspacecontext/context.go: what a validated context is.
use dsh_work.Prelude.{
  String, ◌≡◌, ◌==◌, refl, sym, ap, ◌∙◌, arith, eq_iff, true, false, not, Option, some, none,
  Bool-cases, inl, inr, Bool, if◌then◌else◌, eq_refl, subst, ◌&&◌,
}
use dsh_work.Prelude.Space.{trim_space}
use dsh_work.Workspace.{
  FileSystem, Context, Result, ok, err, ◌>>=◌, or_fail, Error, unresolved, canonical_directory,
  validate_for_generation, new_selected, resolve, validate_state, Request, selected,
}
use dsh_work.Prelude.Space.Trimmed.{trim_space_twice}

pub valid_generation :
    (fs : FileSystem) (c : Context) (g : String)
    → validate_for_generation fs c g ≡ ok tt
    → c.generation_id ≡ g
unfolding validate_for_generation
valid_generation fs c g h = ground (arith, eq_iff c.generation_id g)

-- What the operating system says of a path that it has resolved.
pub record IsSettled (fs : FileSystem) (p : String) : Type 0 where
  pub absolute : fs.is_abs p ≡ true
  pub same : fs.abs p ≡ some p
  pub resolved : fs.eval_symlinks p ≡ some p
  pub directory : fs.stat_is_dir p ≡ some true
  pub cleaned : fs.clean p ≡ p
  pub filled : (p == "") ≡ false
  pub named : (fs.base p == "") ≡ false

-- What path/filepath and os say of their functions: an absolute path is made absolute by cleaning it,
-- the result of `Abs` is absolute, what `EvalSymlinks` returns for an absolute path is absolute, clean
-- and without links, a clean path is not empty, and the base of no path is.
pub record Documented (fs : FileSystem) : Type 0 where
  pub abs-clean : (p : String) → fs.is_abs p ≡ true → fs.abs p ≡ some (fs.clean p)
  pub abs_absolute : (p q : String) → fs.abs p ≡ some q → fs.is_abs q ≡ true
  pub links_absolute :
      (p q : String) → fs.is_abs p ≡ true → fs.eval_symlinks p ≡ some q → fs.is_abs q ≡ true
  pub links_clean : (p q : String) → fs.eval_symlinks p ≡ some q → fs.clean q ≡ q
  pub links_gone : (p q : String) → fs.eval_symlinks p ≡ some q → fs.eval_symlinks q ≡ some q
  pub clean_filled : (p : String) → (fs.clean p == "") ≡ false
  pub base_filled : (p : String) → (fs.base p == "") ≡ false

-- What holds of a result, if it is one.
abbrev Always : {A : Type 0} → (A → Type 0) → Result A → Type 0
Always P (ok a) = P a
Always P (err e) = Unit

or_fail-Always :
    {A B : Type 0} (P : B → Type 0) (o : Option A) (e : Error) (f : A → Result B)
    → ((a : A) → o ≡ some a → Always P (f a))
    → Always P (or_fail o e >>= f)
or_fail-Always P none e f h = tt
or_fail-Always P (some a) e f h = h a refl

Always-then :
    {A B : Type 0} (P : A → Type 0) (Q : B → Type 0) (r : Result A) (f : A → Result B)
    → Always P r
    → ((a : A) → P a → Always Q (f a))
    → Always Q (r >>= f)
Always-then P Q (ok a) f h k = k a h
Always-then P Q (err e) f h k = tt

module _ (fs : FileSystem) (doc : Documented fs) where
  -- A directory that was resolved has a path that resolves to itself.
  settles :
      (a b c : String)
      → fs.abs a ≡ some b
      → fs.eval_symlinks b ≡ some c
      → fs.stat_is_dir c ≡ some true
      → IsSettled fs (fs.clean c)
  settles a b c p q r =
      let absolute = doc.links_absolute b c (doc.abs_absolute a b p) q in
      let cleaned = doc.links_clean b c q in
      subst (IsSettled fs) (sym cleaned) (record {
        absolute = absolute;
        same = doc.abs-clean c absolute ∙ ap some cleaned;
        resolved = doc.links_gone b c q;
        directory = r;
        cleaned = cleaned;
        filled = subst (λ p. (p == "") ≡ false) cleaned (doc.clean_filled c);
        named = doc.base_filled c;
      })

  canonical_directory-IsSettled :
      (text : String) → Always (IsSettled fs) (canonical_directory fs text)
  unfolding canonical_directory
  canonical_directory-IsSettled text = elim (Bool-cases (trim_space text == "")) [
    | inl e ↦ rw e tt
    | inr e ↦ rw e (elim (Bool-cases (not (fs.is_abs (trim_space text)))) [
      | inl a ↦ rw a tt
      | inr a ↦ rw a (
          or_fail-Always (IsSettled fs) (fs.abs (trim_space text)) unresolved _ λ b p.
            or_fail-Always (IsSettled fs) (fs.eval_symlinks b) unresolved _ λ c q.
              or_fail-Always (IsSettled fs) (fs.stat_is_dir c) Error.unreadable _ λ d r.
                elim (Bool-cases d) [
                  | inl t ↦ rw t (settles (trim_space text) b c p q (r ∙ ap some t))
                  | inr t ↦ rw t tt
                ])
    ])
  ]

  settled-canonical_directory :
      (p : String) → trim_space p ≡ p → IsSettled fs p → canonical_directory fs p ≡ ok p
  unfolding canonical_directory
  settled-canonical_directory p t s =
      simp (t, s.filled, s.absolute, s.same, s.resolved, s.directory, s.cleaned) refl

  -- A context without blanks around its path, and whose title is not blank if there is one, is valid.
  abbrev IsValid : String → Context → Type 0
  IsValid g c =
      trim_space c.path ≡ c.path
      → (trim_space c.title == "") ≡ (c.title == "")
      → validate_for_generation fs c g ≡ ok tt

  title_filled :
      (p title : String)
      → IsSettled fs p
      → ((if trim_space title == "" then fs.base p else trim_space title) == "") ≡ false
  title_filled p title s = elim (Bool-cases (trim_space title == "")) [
    | inl e ↦ rw e s.named
    | inr e ↦ rw e e
  ]

  selected-IsValid :
      (g id p title : String)
      → (trim_space g == "") ≡ false
      → (trim_space id == "") ≡ false
      → (title == "") ≡ false
      → IsSettled fs p
      → IsValid g (record { generation_id = g; state = selected; id = id; path = p; title = title })
  unfolding validate_for_generation validate_state
  selected-IsValid g id p title hg hi ht s t u =
      simp (hg, hi, u ∙ ht, eq_refl g, settled-canonical_directory p t s, eq_refl p) refl

  new_selected-IsValid :
      (g id path title : String) → Always (IsValid g) (new_selected fs g id path title)
  unfolding new_selected
  new_selected-IsValid g id path title = elim (Bool-cases (trim_space g == "")) [
    | inl e ↦ rw e tt
    | inr hg ↦ rw hg (elim (Bool-cases (trim_space id == "")) [
      | inl e ↦ rw e tt
      | inr hi ↦ rw hi (elim (Bool-cases (not (fs.is_abs (trim_space path)))) [
        | inl e ↦ rw e tt
        | inr e ↦ rw e (
            Always-then (IsSettled fs) (IsValid g) (canonical_directory fs path) _
              (canonical_directory-IsSettled path)
              λ p s.
                selected-IsValid g (trim_space id) p _ hg (trim_space_twice id hi)
                  (title_filled p title s) s)
      ])
    ])
  ]

  resolve-Always :
      (ended : Bool) (g : String) (r : Request) → Always (IsValid g) (resolve fs ended g r)
  unfolding resolve
  resolve-Always true g r = tt
  resolve-Always false g r = elim (Bool-cases (trim_space g == "")) [
    | inl e ↦ rw e tt
    | inr hg ↦
        rw hg
          (elim (Bool-cases
            (trim_space r.id == "" && trim_space r.path == "" && trim_space r.title == "")) [
              | inl b ↦
                  rw b (λ t u.
                    unfold validate_for_generation validate_state in rw (hg, eq_refl g) refl)
              | inr b ↦ rw b (new_selected-IsValid g r.id r.path r.title)
            ])
  ]

  -- If path/filepath and os are as they are documented: a context that `Resolve` returns for a
  -- generation is valid for it, provided that no blanks surround its path, and that its title is not
  -- all blank, as the base of a path may be.
  pub resolve-IsValid :
      (ended : Bool) (g : String) (r : Request) (c : Context)
      → resolve fs ended g r ≡ ok c
      → trim_space c.path ≡ c.path
      → (trim_space c.title == "") ≡ (c.title == "")
      → validate_for_generation fs c g ≡ ok tt
  resolve-IsValid ended g r c h = subst (Always (IsValid g)) h (resolve-Always ended g r)
