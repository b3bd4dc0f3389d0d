-- ===== src/Release/Text.antt =====
-- The functions on strings of the Go standard library that internal/release uses. A string is the
-- list of its code points.
pub mod Reading
pub mod Parts
use dsh_work.Prelude.{
  ℕ, zero, suc, ◌+◌, ◌-◌, ◌*◌, ◌/◌, ◌%◌, Bool, true, false, ◌&&◌, Option, none, some, List, [], ◌∷◌,
  ◌++◌, ltb, leb, eqb, if◌then◌else◌,
}
use dsh_work.Prelude.Space.{is_space}

abbrev pub Text : Type 0
Text = List ℕ

unfoldable pub same : Text → Text → Bool
same [] [] = true
same [] (d ∷ t) = false
same (c ∷ s) [] = false
same (c ∷ s) (d ∷ t) = eqb c d && same s t

unfoldable pub is_empty : Text → Bool
is_empty [] = true
is_empty (c ∷ s) = false

trim_left : Text → Text
trim_left [] = []
trim_left (c ∷ s) = let rest = trim_left s in if is_space c then rest else c ∷ s

trim_right : Text → Text
trim_right [] = []
trim_right (c ∷ s) = let rest = trim_right s in if is_space c && is_empty rest then [] else c ∷ rest

-- `strings.TrimSpace`
unfoldable pub trim_space : Text → Text
unfolding trim_left trim_right
trim_space s = trim_right (trim_left s)

-- `strings.TrimPrefix` of one character.
unfoldable pub trim_prefix : ℕ → Text → Text
trim_prefix b [] = []
trim_prefix b (c ∷ s) = if eqb c b then s else c ∷ s

unfoldable pub before : ℕ → Option (Text × Text) → Option (Text × Text)
before c none = none
before c (some (s, t)) = some (c ∷ s, t)

-- `strings.IndexByte`, with what stands before and behind the place.
unfoldable pub cut : ℕ → Text → Option (Text × Text)
unfolding before
cut b [] = none
cut b (c ∷ s) = let rest = cut b s in if eqb c b then some ([], s) else before c rest

extend : ℕ → List Text → List Text
extend c [] = (c ∷ []) ∷ []
extend c (f ∷ fs) = (c ∷ f) ∷ fs

-- `strings.Split` at one character.
unfoldable pub split : ℕ → Text → List Text
unfolding extend
split b [] = [] ∷ []
split b (c ∷ s) = let rest = split b s in if eqb c b then [] ∷ rest else extend c rest

-- `strings.ReplaceAll` of one character by nothing.
unfoldable pub without : ℕ → Text → Text
without b [] = []
without b (c ∷ s) = let rest = without b s in if eqb c b then rest else c ∷ rest

unfoldable pub is_digit : ℕ → Bool
is_digit c = leb b'0' c && leb c b'9'

unfoldable pub all_digits : Text → Bool
all_digits [] = true
all_digits (c ∷ s) = is_digit c && all_digits s

-- The number that digits behind those of `n` make.
unfoldable pub value : ℕ → Text → ℕ
value n [] = n
value n (c ∷ s) = value (n * 10 + (c - b'0')) s

emit : ℕ → ℕ → Text → Text
emit zero n out = (b'0' + n % 10) ∷ out
emit (suc fuel) n out =
    let rest = emit fuel (n / 10) ((b'0' + n % 10) ∷ out) in
    if ltb n 10 then (b'0' + n) ∷ out else rest

-- The verb `%d`: `n` rounds are enough for the digits of `n`.
unfoldable pub decimal : ℕ → Text
unfolding emit
decimal n = emit n n []

unfoldable pub has_leading_zero : Text → Bool
has_leading_zero [] = false
has_leading_zero (c ∷ []) = false
has_leading_zero (c ∷ d ∷ s) = eqb c b'0'
