-- ===== src/Prelude/Space/Trimmed.antt =====
-- Texts that `strings.TrimSpace` leaves something of.
use Prim.Native.Char.{code}
use Prim.Native.String.{String, [], ◌∷◌}
use text.Mathlib.TextPositions.{eq_refl}
use mathlib.Core.Bool.{true≢false, Bool, true, false, not}
use mathlib.Core.Path.{◌≡◌, refl, sym, ap, ◌∙◌}
use mathlib.Core.Logic.{◌⊎◌, inl, inr}
use native.Mathlib.Omega.{arith}
use text.Mathlib.Text.{◌==◌}
use text.Mathlib.TextEquality.{eq_iff}
use dsh_work.Prelude.Tests.{Bool-cases}
use dsh_work.Prelude.Space.{is_space, trim_left, trim_right, trim_space}

abbrev starts_with_word : String → Bool
starts_with_word [] = false
starts_with_word (c ∷ s) = not (is_space (code c))

trim_left-starts : (s : String) → (trim_left s ≡ "") ⊎ (starts_with_word (trim_left s) ≡ true)
unfolding trim_left
trim_left-starts [] = inl refl
trim_left-starts (c ∷ s) = elim (Bool-cases (is_space (code c))) [
  | inl e ↦ rw e (trim_left-starts s)
  | inr e ↦ rw e (inr (rw e refl))
]

trim_right-starts :
    (s : String) → starts_with_word s ≡ true → starts_with_word (trim_right s) ≡ true
unfolding trim_right
trim_right-starts [] h = h
trim_right-starts (c ∷ s) h = elim (Bool-cases (is_space (code c))) [
  | inl e ↦ absurd (ground (arith, e, h))
  | inr e ↦ rw e (rw e refl)
]

trim_left-word : (s : String) → starts_with_word s ≡ true → trim_left s ≡ s
unfolding trim_left
trim_left-word [] h = refl
trim_left-word (c ∷ s) h = elim (Bool-cases (is_space (code c))) [
  | inl e ↦ absurd (ground (arith, e, h))
  | inr e ↦ rw e refl
]

filled : (s : String) → starts_with_word s ≡ true → (s == "") ≡ false
filled s h = elim (Bool-cases (s == "")) [
  | inl e ↦ absurd (true≢false (sym h ∙ ap starts_with_word ((eq_iff s "").0 e)))
  | inr e ↦ e
]

-- What is left by one trimming is not emptied by another.
pub trim_space_twice :
    (s : String) → (trim_space s == "") ≡ false → (trim_space (trim_space s) == "") ≡ false
unfolding trim_space
trim_space_twice s h = elim (trim_left-starts s) [
  | inl e ↦ absurd (true≢false (sym (eq_refl "") ∙ (rw e at h)))
  | inr e ↦
      let w = trim_right-starts (trim_left s) e in
      rw (trim_left-word (trim_right (trim_left s)) w) (
        filled (trim_right (trim_right (trim_left s)))
          (trim_right-starts (trim_right (trim_left s)) w))
]
