-- ===== src/SelfUpdate/Version.antt =====
-- internal/selfupdate/pe.go: the blocks of a version resource. The upper case of a character is a
-- parameter. A text is the list of its code points.
use dsh_work.Prelude.{
  ℕ, ◌+◌, ◌-◌, ◌*◌, ◌/◌, ◌^◌, Bool, ◌&&◌, ◌||◌, Option, none, some, List, [], ◌∷◌, ltb, leb, eqb,
  if◌then◌else◌,
}
use dsh_work.Release.Text.{Text, same, trim_space}
use dsh_work.SelfUpdate.Bytes.{Slice, contents}

abbrev pub version_text_type : ℕ
version_text_type = 1

abbrev pub version_fixed_size : ℕ
version_fixed_size = 13 * 4

abbrev pub fixed_signature : ℕ
fixed_signature = 0xfeef04bd

-- `VS_VERSION_INFO`
abbrev pub version_key : Text
version_key =
    b'V' ∷ b'S' ∷ b'_' ∷ b'V' ∷ b'E' ∷ b'R' ∷ b'S' ∷ b'I' ∷ b'O' ∷ b'N' ∷ b'_' ∷ b'I' ∷ b'N' ∷ b'F'
    ∷ b'O' ∷ []

-- `alignTo32`
unfoldable pub align_to32 : ℕ → ℕ
align_to32 n = (n + 3) / 4 * 4

-- The loop for the end of the key, over the bytes from `k` on.
unfoldable pub key_end : ℕ → List ℕ → ℕ
key_end k [] = k
key_end k (a ∷ []) = k
key_end k (a ∷ b ∷ rest) =
    let later = key_end (k + 2) rest in if eqb a 0 && eqb b 0 then k else later

-- `textValueLength`, with the bytes counted before.
unfoldable pub value_length_from : ℕ → List ℕ → ℕ
value_length_from n [] = n
value_length_from n (a ∷ []) = n + 1
value_length_from n (a ∷ b ∷ rest) =
    let later = value_length_from (n + 2) rest in if eqb a 0 && eqb b 0 then n + 2 else later

unfoldable pub text_value_length : Slice → ℕ
unfolding value_length_from contents
text_value_length s = value_length_from 0 (contents s)

-- The characters of `decodeUTF16` up to the terminator.
units : List ℕ → List ℕ
units [] = []
units (a ∷ []) = []
units (a ∷ b ∷ rest) =
    let later = units rest in if eqb (a + b * 2 ^ 8) 0 then [] else (a + b * 2 ^ 8) ∷ later

is_high : ℕ → Bool
is_high u = leb 0xd800 u && ltb u 0xdc00

is_low : ℕ → Bool
is_low u = leb 0xdc00 u && ltb u 0xe000

-- `utf16.Decode`: a pair of surrogates is one character, and a lone one is replaced.
decode_units : List ℕ → Text
unfolding is_high is_low
decode_units [] = []
decode_units (u ∷ []) = (if is_high u || is_low u then 0xfffd else u) ∷ []
decode_units (u ∷ v ∷ rest) =
    let paired = decode_units rest in
    let single = decode_units (v ∷ rest) in
    if is_high u && is_low v
    then (0x10000 + (u - 0xd800) * 2 ^ 10 + (v - 0xdc00)) ∷ paired
    else (if is_high u || is_low u then 0xfffd else u) ∷ single

unfoldable pub decode_utf16 : Slice → Text
unfolding units decode_units contents
decode_utf16 s = trim_space (decode_units (units (contents s)))

abbrev pub Named : Type 0
Named = List (Text × Text)

-- A write to the map `named`, and a read of it.
unfoldable pub put : Text → Text → Named → Named
put key value [] = (key, value) ∷ []
put key value ((k, v) ∷ rest) =
    let onward = put key value rest in if same k key then (k, value) ∷ rest else (k, v) ∷ onward

unfoldable pub find : Text → Named → Text
find key [] = []
find key ((k, v) ∷ rest) = let onward = find key rest in if same k key then v else onward

pub record Fixed : Type 0 where
  pub major : ℕ
  pub minor : ℕ
  pub build : ℕ
  pub revision : ℕ

-- `executableVersion`; the numbers count where `fixed` is set.
pub record ExecutableVersion : Type 0 where
  pub fixed : Option Fixed
  pub named : Named

put_all : Named → Named → Named
unfolding put
put_all [] into = into
put_all ((k, v) ∷ rest) into = put_all rest (put k v into)

either : Option Fixed → Option Fixed → Option Fixed
either none old = old
either (some f) old = some f

-- `mergeVersionInfo`
unfoldable pub merge_version_info : ExecutableVersion → ExecutableVersion → ExecutableVersion
unfolding put_all either
merge_version_info into from = record {
  fixed = either from.fixed into.fixed;
  named = put_all from.named into.named;
}
