-- ===== src/Prelude/Space.antt =====
-- `strings.TrimSpace` and `unicode.IsSpace` of the Go standard library.
pub mod Trimmed
use Prim.Native.Char.{code}
use Prim.Native.String.{String, [], ◌∷◌}
use mathlib.Core.Bool.{Bool, ◌&&◌, ◌||◌}
use mathlib.Core.Path.{◌≡◌, refl}
use text.Mathlib.Text.{◌==◌}
use Prim.Native.Nat.{ℕ}
use dsh_work.Prelude.Tests.{if◌then◌else◌, leb, eqb}

-- The White_Space code points.
unfoldable pub is_space : ℕ → Bool
is_space c =
    leb 9 c && leb c 13
    || eqb c 32
    || eqb c 0x85
    || eqb c 0xa0
    || eqb c 0x1680
    || leb 0x2000 c && leb c 0x200a
    || eqb c 0x2028
    || eqb c 0x2029
    || eqb c 0x202f
    || eqb c 0x205f
    || eqb c 0x3000

unfoldable pub trim_left : String → String
trim_left [] = []
trim_left (c ∷ s) = if is_space (code c) then trim_left s else c ∷ s

unfoldable pub trim_right : String → String
trim_right [] = []
trim_right (c ∷ s) =
    let rest = trim_right s in if is_space (code c) && rest == "" then [] else c ∷ rest

unfoldable pub trim_space : String → String
unfolding is_space trim_left trim_right
trim_space s = trim_right (trim_left s)

trims : trim_space " \tx y\n " ≡ "x y"
unfolding trim_space
trims = refl
