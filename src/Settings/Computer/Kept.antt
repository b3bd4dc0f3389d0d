-- ===== src/Settings/Computer/Kept.antt =====
-- internal/settings/computer_policy.go: a policy that is accepted is stored with all it says.
use mathlib.Core.List.{Perm}
use dsh_work.Prelude.{
  ◌≤◌, String, eq_iff, ◌≡◌, refl, ap, ◌∙◌, subst, inl, inr, Bool, true, false, Option, none, some,
  List, [], ◌∷◌, arith, length, if◌then◌else◌, Bool-cases,
}
use dsh_work.Prelude.Assoc.{Assoc, lookup, insert, lookup-insert}
use dsh_work.Prelude.Sort.{sort_by-perm, length-sort_by}
use dsh_work.Settings.Computer.{
  id_before, ComputerAppRule, ComputerPolicy, computer_risk_categories, default_computer_policy,
  ask_all, or_empty, confirmed, overrides, confirm_from, has_id, keep_apps, sort_apps,
  normalize_computer_policy, has_entry, is_confirmation, all_confirmations, is_valid, Outcome,
  context_ended, policy_invalid, not_saved, stored, set_computer_policy,
}

lookup-ask_all :
    (k : String) (cs : List String) (m : Assoc String)
    → lookup k (ask_all cs m) ≡ (if has_id k cs then some "ask" else lookup k m)
unfolding ask_all has_id
lookup-ask_all k [] m = refl
lookup-ask_all k (c ∷ rest) m =
    ground (arith, lookup-ask_all k rest (insert c "ask" m), lookup-insert c k "ask" m, eq_iff c k)

-- An answer of the normal form: the one given, where it overrides the default.
settled : Assoc String → String → Assoc String → Option String
settled given k m = let v = confirmed given k in if overrides k v then some v else lookup k m

lookup-confirm_from :
    (given : Assoc String) (k : String) (cs : List String) (m : Assoc String)
    → lookup k (confirm_from given cs m) ≡ (if has_id k cs then settled given k m else lookup k m)
unfolding confirm_from has_id settled
lookup-confirm_from given k [] m = refl
lookup-confirm_from given k (c ∷ rest) m =
    let v = confirmed given c in
    elim (Bool-cases (overrides c v)) [
      | inl h ↦ rw h (
          ground (
            arith,
            lookup-confirm_from given k rest (insert c v m),
            lookup-insert c k v m,
            eq_iff c k,
          ))
      | inr h ↦ rw h (ground (arith, lookup-confirm_from given k rest m, eq_iff c k))
    ]

-- The answer that the normal form gives for a risk category.
unfoldable pub answer : Assoc String → String → String
answer given k = let v = confirmed given k in if overrides k v then v else "ask"

settled-answer :
    (given : Assoc String) (k : String) (m : Assoc String) (b : Bool)
    → lookup k m ≡ (if b then some "ask" else none)
    → (if b then settled given k m else lookup k m) ≡ (if b then some (answer given k) else none)
unfolding settled answer
settled-answer given k m b h = ground arith

pub lookup-normal :
    (p : ComputerPolicy) (k : String)
    → lookup k (normalize_computer_policy p).confirm
      ≡ (if has_id k computer_risk_categories then some (answer p.confirm k) else none)
unfolding normalize_computer_policy default_computer_policy lookup
lookup-normal p k =
    let cs = computer_risk_categories in
    lookup-confirm_from p.confirm k cs (ask_all cs [])
    ∙ settled-answer p.confirm k (ask_all cs []) (has_id k cs) (lookup-ask_all k cs [])

-- A list of applications that is kept as long as it was, is kept as it was.
length-keep_apps :
    (seen : List String) (xs : List ComputerAppRule) → length (keep_apps seen xs) ≤ length xs
unfolding keep_apps
length-keep_apps seen [] = omega arith
length-keep_apps seen (a ∷ rest) =
    ground (arith, length-keep_apps seen rest, length-keep_apps (a.id ∷ seen) rest)

keep_apps-all :
    (seen : List String) (xs : List ComputerAppRule)
    → length (keep_apps seen xs) ≡ length xs
    → keep_apps seen xs ≡ xs
unfolding keep_apps
keep_apps-all seen [] h = refl
keep_apps-all seen (a ∷ rest) h =
    ground (arith, length-keep_apps seen rest, ap (λ xs. a ∷ xs), keep_apps-all (a.id ∷ seen) rest)

is_confirmation-lookup :
    (normal m : Assoc String) (k v : String)
    → all_confirmations normal m ≡ true
    → lookup k m ≡ some v
    → is_confirmation normal k v ≡ true
unfolding all_confirmations lookup
is_confirmation-lookup normal [] k v h e = ground arith
is_confirmation-lookup normal ((c, w) ∷ rest) k v h e =
    ground (arith, is_confirmation-lookup normal rest k v, eq_iff c k)

-- What a stored policy has of the one that was set.
pub record KeepsAll (given kept : ComputerPolicy) : Type 0 where
  pub new_apps : kept.new_apps ≡ given.new_apps
  pub grant_lasts : kept.grant_lasts ≡ given.grant_lasts
  pub apps : Perm kept.apps given.apps
  pub confirm : (k v : String) → lookup k given.confirm ≡ some v → lookup k kept.confirm ≡ some v

answer-given :
    (given normal : Assoc String) (k v : String) (b : Bool)
    → lookup k given ≡ some v
    → lookup k normal ≡ (if b then some (answer given k) else none)
    → is_confirmation normal k v ≡ true
    → lookup k normal ≡ some v
unfolding is_confirmation answer confirmed or_empty overrides has_entry
answer-given given normal k v b e f h =
    ground (arith, ap or_empty e, eq_iff v "ask", eq_iff v "block", eq_iff v "allow")

KeepsAll-valid : (p : ComputerPolicy) → is_valid p ≡ true → KeepsAll p (normalize_computer_policy p)
unfolding is_valid normalize_computer_policy default_computer_policy sort_apps
KeepsAll-valid p h = record {
  new_apps = ground (arith, eq_iff p.new_apps "allow", eq_iff p.new_apps "ask");
  grant_lasts = ground (arith, eq_iff p.grant_lasts "turn", eq_iff p.grant_lasts "conversation");
  apps =
      subst (Perm (sort_apps (keep_apps [] p.apps)))
        (keep_apps-all [] p.apps (ground (arith, length-sort_by id_before (keep_apps [] p.apps))))
        (sort_by-perm id_before (keep_apps [] p.apps));
  confirm = λ k v e.
      answer-given p.confirm _ k v (has_id k computer_risk_categories) e (lookup-normal p k)
        (is_confirmation-lookup _ p.confirm k v (ground arith) e);
}

-- What a call of `SetComputerPolicy` does: it stores all of a valid policy, or it reports why not and
-- leaves what was held.
abbrev pub Sets :
    (ended saves : Bool)
    → ComputerPolicy
    → Option ComputerPolicy
    → Option ComputerPolicy × Outcome
    → Type 0
Sets ended saves p held (now, stored q) =
    (now ≡ some q) × KeepsAll p q × (ended ≡ false) × (saves ≡ true)
Sets ended saves p held (now, policy_invalid) = (now ≡ held) × (is_valid p ≡ false)
Sets ended saves p held (now, context_ended) = (now ≡ held) × (ended ≡ true)
Sets ended saves p held (now, not_saved) = (now ≡ held) × (saves ≡ false)

-- A call of `SetComputerPolicy` stores the policy if the context has not ended and the store saves;
-- what is stored keeps the defaults for new applications and for grants, all rules up to their order
-- and all confirmations. Otherwise the settings hold what they held, and the call reports the reason:
-- the context has ended, the policy is not valid, or the store has not saved.
pub set_computer_policy-Sets :
    (ended saves : Bool) (p : ComputerPolicy) (held : Option ComputerPolicy)
    → Sets ended saves p held (set_computer_policy ended saves p held)
unfolding set_computer_policy
set_computer_policy-Sets true saves p held = (refl, refl)
set_computer_policy-Sets false saves p held = elim (Bool-cases (is_valid p)) [
  | inl h ↦ rw h (elim (Bool-cases saves) [
    | inl s ↦ rw s (refl, KeepsAll-valid p h, refl, refl)
    | inr s ↦ rw s (refl, refl)
  ])
  | inr h ↦ rw h (refl, h)
]
