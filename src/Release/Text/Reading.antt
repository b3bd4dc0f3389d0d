-- ===== src/Release/Text/Reading.antt =====
-- internal/release: a printed number is read back, and its print tells it.
use dsh_work.Prelude.{
  ℕ, zero, suc, ◌+◌, ◌/◌, ◌%◌, ◌≤◌, ◌<◌, ◌≡◌, refl, ap, ◌∙◌, Bool, true, false, [], ◌∷◌, Bool-cases,
  ltb, eqb, inl, inr, arith,
}
use dsh_work.Release.Text.{
  Text, all_digits, is_digit, value, decimal, emit, is_empty, has_leading_zero,
}

value-emit : (fuel n : ℕ) (out : Text) → n ≤ fuel → value 0 (emit fuel n out) ≡ value n out
unfolding emit value
value-emit zero n out h = ground arith
value-emit (suc fuel) n out h = elim (Bool-cases (ltb n 10)) [
  | inl small ↦ rw small (ground arith)
  | inr large ↦ rw large (
      value-emit fuel (n / 10) ((b'0' + n % 10) ∷ out) (ground arith)
      ∙ ap (λ m. value m out) (ground arith))
]

pub value-decimal : (n : ℕ) → value 0 (decimal n) ≡ n
unfolding decimal value
value-decimal n = value-emit n n [] (omega arith)

all_digits-emit :
    (fuel n : ℕ) (out : Text) → n ≤ fuel → all_digits (emit fuel n out) ≡ all_digits out
unfolding emit all_digits is_digit
all_digits-emit zero n out h = ground arith
all_digits-emit (suc fuel) n out h = elim (Bool-cases (ltb n 10)) [
  | inl small ↦ rw small (ground arith)
  | inr large ↦
      rw large (all_digits-emit fuel (n / 10) ((b'0' + n % 10) ∷ out) (ground arith) ∙ ground arith)
]

pub all_digits-decimal : (n : ℕ) → all_digits (decimal n) ≡ true
unfolding decimal all_digits
all_digits-decimal n = all_digits-emit n n [] (omega arith)

abbrev starts_with_zero : Text → Bool
starts_with_zero [] = false
starts_with_zero (c ∷ s) = eqb c b'0'

starts_with_zero-emit :
    (fuel n : ℕ) (out : Text) → 0 < n → n ≤ fuel → starts_with_zero (emit fuel n out) ≡ false
unfolding emit
starts_with_zero-emit zero n out p h = absurd (omega arith)
starts_with_zero-emit (suc fuel) n out p h = elim (Bool-cases (ltb n 10)) [
  | inl small ↦ rw small (ground arith)
  | inr large ↦
      rw large
        (starts_with_zero-emit fuel (n / 10) ((b'0' + n % 10) ∷ out) (ground arith) (ground arith))
]

has_leading_zero-lem : (s : Text) → starts_with_zero s ≡ false → has_leading_zero s ≡ false
unfolding has_leading_zero
has_leading_zero-lem [] h = refl
has_leading_zero-lem (c ∷ []) h = refl
has_leading_zero-lem (c ∷ d ∷ s) h = h

pub has_leading_zero-decimal : (n : ℕ) → has_leading_zero (decimal n) ≡ false
unfolding decimal
has_leading_zero-decimal zero = unfold emit has_leading_zero in refl
has_leading_zero-decimal (suc n) =
    has_leading_zero-lem (emit (suc n) (suc n) [])
      (starts_with_zero-emit (suc n) (suc n) [] (omega arith) (omega arith))

is_empty-emit : (fuel n : ℕ) (out : Text) → is_empty (emit fuel n out) ≡ false
unfolding emit is_empty
is_empty-emit zero n out = refl
is_empty-emit (suc fuel) n out = elim (Bool-cases (ltb n 10)) [
  | inl small ↦ rw small refl
  | inr large ↦ rw large (is_empty-emit fuel (n / 10) ((b'0' + n % 10) ∷ out))
]

pub is_empty-decimal : (n : ℕ) → is_empty (decimal n) ≡ false
unfolding decimal
is_empty-decimal n = is_empty-emit n n []
