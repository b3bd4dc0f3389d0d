-- ===== src/Release/Text/Parts.antt =====
-- internal/release: texts whose characters pass a test, taken apart.
use dsh_work.Prelude.{
  ℕ, ◌≡◌, refl, Bool, true, false, not, ◌&&◌, [], ◌∷◌, ◌++◌, eqb, arith, some, none,
}
use dsh_work.Prelude.Space.{is_space}
use dsh_work.Release.Text.{
  Text, all_digits, is_digit, cut, before, split, extend, same, trim_space, trim_left, trim_right,
}

-- Whether the character does not occur.
abbrev pub lacks : ℕ → Text → Bool
lacks b [] = true
lacks b (c ∷ s) = not (eqb c b) && lacks b s

abbrev pub lacks_space : Text → Bool
lacks_space [] = true
lacks_space (c ∷ s) = not (is_space c) && lacks_space s

pub lacks-append : (b : ℕ) (s t : Text) → lacks b (s ++ t) ≡ (lacks b s && lacks b t)
lacks-append b [] t = refl
lacks-append b (c ∷ s) t = ground (arith, lacks-append b s t)

pub lacks_space-append : (s t : Text) → lacks_space (s ++ t) ≡ (lacks_space s && lacks_space t)
lacks_space-append [] t = refl
lacks_space-append (c ∷ s) t = ground (arith, lacks_space-append s t)

pub lacks-digits : (b : ℕ) (s : Text) → is_digit b ≡ false → all_digits s ≡ true → lacks b s ≡ true
unfolding is_digit all_digits
lacks-digits b [] n d = refl
lacks-digits b (c ∷ s) n d = ground (arith, lacks-digits b s n)

pub lacks_space-digits : (s : Text) → all_digits s ≡ true → lacks_space s ≡ true
unfolding is_digit all_digits is_space
lacks_space-digits [] d = refl
lacks_space-digits (c ∷ s) d = ground (arith, lacks_space-digits s)

pub cut-lacks : (b : ℕ) (s : Text) → lacks b s ≡ true → cut b s ≡ none
unfolding cut before
cut-lacks b [] h = refl
cut-lacks b (c ∷ s) h = ground (arith, cut-lacks b s)

pub cut-append : (b : ℕ) (s t : Text) → lacks b s ≡ true → cut b (s ++ b ∷ t) ≡ some (s, t)
unfolding cut before
cut-append b [] t h = ground arith
cut-append b (c ∷ s) t h = ground (arith, cut-append b s t)

pub split-lacks : (b : ℕ) (s : Text) → lacks b s ≡ true → split b s ≡ s ∷ []
unfolding split extend
split-lacks b [] h = refl
split-lacks b (c ∷ s) h = ground (arith, split-lacks b s)

pub split-append : (b : ℕ) (s t : Text) → lacks b s ≡ true → split b (s ++ b ∷ t) ≡ s ∷ split b t
unfolding split extend
split-append b [] t h = ground arith
split-append b (c ∷ s) t h = ground (arith, split-append b s t)

trim_left-lacks_space : (s : Text) → lacks_space s ≡ true → trim_left s ≡ s
unfolding trim_left
trim_left-lacks_space [] h = refl
trim_left-lacks_space (c ∷ s) h = ground arith

trim_right-lacks_space : (s : Text) → lacks_space s ≡ true → trim_right s ≡ s
unfolding trim_right
trim_right-lacks_space [] h = refl
trim_right-lacks_space (c ∷ s) h = ground (arith, trim_right-lacks_space s)

pub trim_space-lacks_space : (s : Text) → lacks_space s ≡ true → trim_space s ≡ s
unfolding trim_space
trim_space-lacks_space s h = rw (trim_left-lacks_space s h) (trim_right-lacks_space s h)

pub same_refl : (s : Text) → same s s ≡ true
unfolding same
same_refl [] = refl
same_refl (c ∷ s) = ground (arith, same_refl s)

pub same-eq : (s t : Text) → same s t ≡ true → s ≡ t
unfolding same
same-eq [] [] h = refl
same-eq [] (d ∷ t) h = ground arith
same-eq (c ∷ s) [] h = ground arith
same-eq (c ∷ s) (d ∷ t) h = ground (arith, same-eq s t)
