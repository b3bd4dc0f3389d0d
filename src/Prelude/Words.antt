-- ===== src/Prelude/Words.antt =====
-- `strings.Fields`, `strings.Join` with a space and the counting of runes in the Go standard library.
use Prim.Native.Char.{code}
use Prim.Native.Nat.{ℕ, zero, suc}
use Prim.Native.String.{String, [], ◌∷◌, ◌++◌}
use mathlib.Core.List.{List}
use mathlib.Core.Path.{◌≡◌, refl}
use text.Mathlib.Text.{◌==◌}
use dsh_work.Prelude.Space.{is_space}
use dsh_work.Prelude.Tests.{if◌then◌else◌}

push_word : String → List String → List String
push_word w ws = if w == "" then ws else List.◌∷◌ w ws

-- The word that stands at the beginning, and the words after it.
split_word : String → String × List String
split_word [] = ("", List.[])
split_word (c ∷ s) =
    let (w, ws) = split_word s in if is_space (code c) then ("", push_word w ws) else (c ∷ w, ws)

unfoldable pub fields : String → List String
unfolding push_word split_word is_space
fields s = let (w, ws) = split_word s in push_word w ws

unfoldable pub join_spaced : List String → String
join_spaced List.[] = ""
join_spaced (List.◌∷◌ w List.[]) = w
join_spaced (List.◌∷◌ w (List.◌∷◌ v ws)) = w ++ (" " ++ join_spaced (List.◌∷◌ v ws))

-- `utf8.RuneCountInString`
unfoldable pub rune_count : String → ℕ
rune_count [] = 0
rune_count (c ∷ s) = suc (rune_count s)

-- The first runes of a text.
unfoldable pub take_runes : ℕ → String → String
take_runes zero s = ""
take_runes (suc n) [] = ""
take_runes (suc n) (c ∷ s) = c ∷ take_runes n s

squeezes : join_spaced (fields "  a\tb  c ") ≡ "a b c"
unfolding join_spaced fields
squeezes = refl
