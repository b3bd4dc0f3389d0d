-- ===== src/Settings/Computer/Safe.antt =====
-- internal/settings/computer_policy.go: no policy in the normal form allows a payment.
use mathlib.Core.List.{Perm}
use dsh_work.Prelude.{
  String, ◌==◌, eq_iff, ◌≡◌, refl, ◌⊎◌, inl, inr, Bool, true, false, Option, none, some, List, [],
  ◌∷◌, arith, if◌then◌else◌, Bool-cases,
}
use dsh_work.Prelude.Assoc.{Assoc, lookup}
use dsh_work.Prelude.Sort.{sort_by-perm}
use dsh_work.Settings.Computer.{
  id_before, ComputerAppRule, ComputerPolicy, computer_risk_categories, confirmed, overrides,
  is_level, has_id, takes_app, keep_apps, sort_apps, normalize_computer_policy,
}
use dsh_work.Prelude.Order.{is_lt_trans, is_lt_asym}
use dsh_work.Prelude.Sort.{Sorted, Sorted-sort_by}
use dsh_work.Settings.Computer.Kept.{answer, lookup-normal}

-- No application stands twice among the rules, which have levels that are known.
abbrev pub Rules : List String → List ComputerAppRule → Type 0
Rules seen [] = Unit
Rules seen (a ∷ rest) =
    (has_id a.id seen ≡ false) × (is_level a.level ≡ true) × Rules (a.id ∷ seen) rest

Rules-keep_apps : (seen : List String) (xs : List ComputerAppRule) → Rules seen (keep_apps seen xs)
unfolding keep_apps takes_app
Rules-keep_apps seen [] = tt
Rules-keep_apps seen (a ∷ rest) = elim (Bool-cases (takes_app seen a)) [
  | inl h ↦ rw h (ground arith, ground arith, Rules-keep_apps (a.id ∷ seen) rest)
  | inr h ↦ rw h (Rules-keep_apps seen rest)
]

-- An answer that a policy may give: a payment is never allowed.
abbrev pub IsAnswer : String → Option String → Type 0
IsAnswer k none = has_id k computer_risk_categories ≡ false
IsAnswer k (some v) = (v ≡ "ask") ⊎ ((v ≡ "block") ⊎ ((v ≡ "allow") × ((k == "payment") ≡ false)))

pub record IsSafe (p : ComputerPolicy) : Type 0 where
  pub answers : (k : String) → IsAnswer k (lookup k p.confirm)
  pub sorted : Sorted id_before p.apps
  pub rules : (rules : List ComputerAppRule) × Perm p.apps rules × Rules [] rules

overrides-cases :
    (k v : String)
    → overrides k v ≡ true
    → (v ≡ "ask") ⊎ ((v ≡ "block") ⊎ ((v ≡ "allow") × ((k == "payment") ≡ false)))
unfolding overrides
overrides-cases k v h = elim (Bool-cases (v == "block")) [
  | inl e ↦ inr (inl (ground (arith, eq_iff v "block")))
  | inr e ↦ inr (inr (ground (arith, eq_iff v "allow"), ground arith))
]

IsAnswer-if :
    (k v : String) (b : Bool)
    → has_id k computer_risk_categories ≡ b
    → IsAnswer k (some v)
    → IsAnswer k (if b then some v else none)
IsAnswer-if k v true e i = i
IsAnswer-if k v false e i = e

answer-cases : (given : Assoc String) (k : String) → IsAnswer k (some (answer given k))
unfolding answer overrides
answer-cases given k = elim (Bool-cases (overrides k (confirmed given k))) [
  | inl h ↦ rw h (overrides-cases k (confirmed given k) h)
  | inr h ↦ rw h (inl refl)
]

-- In a policy that `NormalizeComputerPolicy` returns, every risk category is answered with asking,
-- blocking or allowing, and a payment is never allowed; the rules are in the
-- order of their identifiers and those of a list with no identifier twice, and their levels are known.
pub normalize_computer_policy-IsSafe : (p : ComputerPolicy) → IsSafe (normalize_computer_policy p)
unfolding normalize_computer_policy sort_apps id_before
normalize_computer_policy-IsSafe p = record {
  answers = λ k.
      rw (lookup-normal p k) (IsAnswer-if k (answer p.confirm k) _ refl (answer-cases p.confirm k));
  sorted =
      Sorted-sort_by id_before (λ a b. is_lt_asym a.id b.id) (λ a b c. is_lt_trans a.id b.id c.id)
        (keep_apps [] p.apps);
  rules = (
    keep_apps [] p.apps,
    sort_by-perm id_before (keep_apps [] p.apps),
    Rules-keep_apps [] p.apps,
  );
}
