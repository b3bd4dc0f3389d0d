-- ===== src/Prelude/Order.antt =====
-- The order of the texts.
use Prim.Native.Char.{code}
use Prim.Native.Nat.{ℕ, compare as compare_ℕ, Ordering}
use Prim.Native.String.compare
use Prim.Native.String.{String, compare, then}
use mathlib.Core.Path.{◌≡◌, refl}
use mathlib.Core.Bool.{true, false}
use native.Mathlib.Omega.{arith}
use text.Mathlib.Text.{is_lt}

then_lt :
    (a b c : ℕ) (o p q u v w : Ordering)
    → (is_lt o ≡ false → is_lt p ≡ false → is_lt q ≡ false)
    → u ≡ (then) (compare_ℕ a b) o
    → v ≡ (then) (compare_ℕ b c) p
    → w ≡ (then) (compare_ℕ a c) q
    → is_lt u ≡ false
    → is_lt v ≡ false
    → is_lt w ≡ false
then_lt a b c o p q u v w f eu ev ew h k = ground arith

pub is_lt_trans :
    (r s t : String)
    → is_lt (compare r s) ≡ false
    → is_lt (compare s t) ≡ false
    → is_lt (compare r t) ≡ false
is_lt_trans String.[] String.[] t h k = k
is_lt_trans String.[] (String.◌∷◌ d s) t h k = ground (arith, compare.nil-cons d s)
is_lt_trans (String.◌∷◌ c r) s String.[] h k = rw (compare.cons-nil c r) refl
is_lt_trans (String.◌∷◌ c r) String.[] (String.◌∷◌ e t) h k = ground (arith, compare.nil-cons e t)
is_lt_trans (String.◌∷◌ c r) (String.◌∷◌ d s) (String.◌∷◌ e t) h k =
    then_lt (code c) (code d) (code e) _ _ _ _ _ _ (is_lt_trans r s t) (compare.cons-cons c d r s)
      (compare.cons-cons d e s t) (compare.cons-cons c e r t) h k

then_lt_asym :
    (a b : ℕ) (o p u v : Ordering)
    → (is_lt o ≡ true → is_lt p ≡ false)
    → u ≡ (then) (compare_ℕ a b) o
    → v ≡ (then) (compare_ℕ b a) p
    → is_lt u ≡ true
    → is_lt v ≡ false
then_lt_asym a b o p u v f eu ev h = ground arith

pub is_lt_asym : (s t : String) → is_lt (compare s t) ≡ true → is_lt (compare t s) ≡ false
is_lt_asym String.[] String.[] h = ground arith
is_lt_asym String.[] (String.◌∷◌ d t) h = rw (compare.cons-nil d t) refl
is_lt_asym (String.◌∷◌ c s) String.[] h = ground (arith, compare.cons-nil c s)
is_lt_asym (String.◌∷◌ c s) (String.◌∷◌ d t) h =
    then_lt_asym (code c) (code d) _ _ _ _ (is_lt_asym s t) (compare.cons-cons c d s t)
      (compare.cons-cons d c t s) h
