-- ===== src/Prelude/Assoc.antt =====
-- Go maps with string keys as association lists: a key is looked up at its first entry, a write
-- replaces the entry or adds one at the end, and a delete drops every entry of the key.
use Prim.Native.String.{String}
use mathlib.Core.Path.{◌≡◌, refl}
use mathlib.Core.Bool.{false}
use mathlib.Core.Option.{Option, none, some}
use mathlib.Core.List.{List, [], ◌∷◌}
use native.Mathlib.Omega.{arith}
use text.Mathlib.Text.{◌==◌}
use text.Mathlib.TextEquality.{eq_iff}
use text.Mathlib.TextPositions.{eq_refl}
use dsh_work.Prelude.Tests.{if◌then◌else◌}
use dsh_work.Prelude.{◌≢◌}

abbrev pub Assoc {ℓ} : Type ℓ → Type ℓ
Assoc V = List (String × V)

module _ {ℓ} {V : Type ℓ} where
  -- `v, ok := m[key]`
  unfoldable pub lookup : String → Assoc V → Option V
  lookup key [] = none
  lookup key ((first, v) ∷ rest) = if first == key then some v else lookup key rest

  -- `m[key] = v`
  unfoldable pub insert : String → V → Assoc V → Assoc V
  insert key v [] = (key, v) ∷ []
  insert key v ((first, old) ∷ rest) =
      if first == key then (first, v) ∷ rest else (first, old) ∷ insert key v rest

  -- `delete(m, key)`
  unfoldable pub delete : String → Assoc V → Assoc V
  delete key [] = []
  delete key ((first, v) ∷ m) =
      let rest = delete key m in if first == key then rest else (first, v) ∷ rest

  pub lookup-insert :
      (written read : String) (v : V) (m : Assoc V)
      → lookup read (insert written v m) ≡ (if written == read then some v else lookup read m)
  unfolding lookup insert
  lookup-insert written read v [] = refl
  lookup-insert written read v ((first, old) ∷ rest) = ground (
    arith,
    lookup-insert written read v rest,
    eq_iff first written,
    eq_iff first read,
    eq_iff written read,
  )

  pub lookup-delete :
      (k j : String) (m : Assoc V) → lookup j (delete k m) ≡ (if k == j then none else lookup j m)
  unfolding lookup delete
  lookup-delete k j [] = ground arith
  lookup-delete k j ((i, v) ∷ m) =
      ground (arith, lookup-delete k j m, eq_iff i k, eq_iff i j, eq_iff k j)

pub ruleset map_laws = (lookup-insert, lookup-delete, eq_refl)

-- Two texts that the test tells apart.
pub ne : (a b : String) → (a == b) ≡ false → a ≢ b
ne a b h e = ground (arith, eq_iff a b)
