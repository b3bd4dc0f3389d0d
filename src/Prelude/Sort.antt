-- ===== src/Prelude/Sort.antt =====
-- A sort by insertion: a later element goes before an earlier one only where the order says so.
use mathlib.Core.List.{Perm}
use mathlib.Core.List.Perm
use mathlib.Core.List.{List, [], ◌∷◌}
use mathlib.Core.Bool.{Bool, true, false}
use mathlib.Core.Logic.{inl, inr}
use mathlib.Core.Path.{◌≡◌, refl}
use Prim.Native.Nat.{suc}
use native.Mathlib.Omega.{arith}
use dsh_work.Prelude.Lists.{length, All, All-weaken}
use dsh_work.Prelude.Tests.{if◌then◌else◌, Bool-cases}

module _ {ℓ} {A : Type ℓ} (before : A → A → Bool) where
  insert_by : A → List A → List A
  insert_by a [] = a ∷ []
  insert_by a (b ∷ rest) =
      let later = b ∷ insert_by a rest in if before b a then later else a ∷ b ∷ rest

  unfoldable pub sort_by : List A → List A
  unfolding insert_by
  sort_by [] = []
  sort_by (a ∷ rest) = insert_by a (sort_by rest)

  insert_by-perm : (a : A) (xs : List A) → Perm (insert_by a xs) (a ∷ xs)
  unfolding insert_by
  insert_by-perm a [] = Perm.refl (a ∷ [])
  insert_by-perm a (b ∷ rest) = elim (Bool-cases (before b a)) [
    | inl h ↦ rw h (Perm.trans (Perm.cons b (insert_by-perm a rest)) (Perm.swap a b rest))
    | inr h ↦ rw h (Perm.refl (a ∷ b ∷ rest))
  ]

  pub sort_by-perm : (xs : List A) → Perm (sort_by xs) xs
  unfolding sort_by
  sort_by-perm [] = Perm.refl []
  sort_by-perm (a ∷ rest) =
      Perm.trans (insert_by-perm a (sort_by rest)) (Perm.cons a (sort_by-perm rest))

  length-insert_by : (a : A) (xs : List A) → length (insert_by a xs) ≡ suc (length xs)
  unfolding insert_by
  length-insert_by a [] = refl
  length-insert_by a (b ∷ rest) = ground (arith, length-insert_by a rest)

  pub length-sort_by : (xs : List A) → length (sort_by xs) ≡ length xs
  unfolding sort_by
  length-sort_by [] = refl
  length-sort_by (a ∷ rest) = omega (arith, length-insert_by a (sort_by rest), length-sort_by rest)

  abbrev pub NoneBefore : A → List A → Type 0
  NoneBefore a = All (λ b. before b a ≡ false)

  -- No element goes before one that stands in front of it.
  abbrev pub Sorted : List A → Type 0
  Sorted [] = Unit
  Sorted (a ∷ rest) = NoneBefore a rest × Sorted rest

  All-insert_by {κ} :
      (P : A → Type κ) (a : A) (xs : List A) → P a → All P xs → All P (insert_by a xs)
  unfolding insert_by
  All-insert_by P a [] p ps = (p, tt)
  All-insert_by P a (b ∷ rest) p (q, ps) =
      let later = All-insert_by P a rest p ps in
      elim (Bool-cases (before b a)) [ inl h ↦ rw h (q, later) | inr h ↦ rw h (p, (q, ps)) ]

  pub All-sort_by {κ} : (P : A → Type κ) (xs : List A) → All P xs → All P (sort_by xs)
  unfolding sort_by
  All-sort_by P [] ps = tt
  All-sort_by P (a ∷ rest) (p, ps) = All-insert_by P a (sort_by rest) p (All-sort_by P rest ps)

  module _ (asym : (a b : A) → before a b ≡ true → before b a ≡ false)
      (trans : (a b c : A) → before a b ≡ false → before b c ≡ false → before a c ≡ false) where
    NoneBefore-trans :
        (a b : A) (rest : List A) → before b a ≡ false → NoneBefore b rest → NoneBefore a rest
    NoneBefore-trans a b rest h n = All-weaken (λ c k. trans c b a k h) rest n

    Sorted-insert_by : (a : A) (xs : List A) → Sorted xs → Sorted (insert_by a xs)
    unfolding insert_by
    Sorted-insert_by a [] s = (tt, tt)
    Sorted-insert_by a (b ∷ rest) (n, s) = elim (Bool-cases (before b a)) [
      | inl h ↦
          rw h (
            All-insert_by (λ c. before c b ≡ false) a rest (asym b a h) n,
            Sorted-insert_by a rest s,
          )
      | inr h ↦ rw h ((h, NoneBefore-trans a b rest h n), (n, s))
    ]

    pub Sorted-sort_by : (xs : List A) → Sorted (sort_by xs)
    unfolding sort_by
    Sorted-sort_by [] = tt
    Sorted-sort_by (a ∷ rest) = Sorted-insert_by a (sort_by rest) (Sorted-sort_by rest)
