-- ===== src/SelfUpdate/Blocks/RoundTrip.antt =====
-- internal/selfupdate/pe.go: the numbers of a version resource are read back.
use dsh_work.Prelude.{
  ap, ◌∙◌, arith, map, some, ℕ, ◌+◌, ◌*◌, ◌/◌, ◌%◌, ◌^◌, ◌≡◌, refl, List, [], ◌∷◌, ◌++◌, some,
}
use dsh_work.Prelude.Space.{is_space}
use dsh_work.Release.Text.{same, Text, trim_space, same}
use dsh_work.Release.Text.Parts.{same_refl}
use dsh_work.SelfUpdate.Bytes.{
  cut_from, u32_between, contents, take_bytes, Read, got, cut, u16_between, drop_bytes, Slice,
  take_bytes,
}
use dsh_work.SelfUpdate.Blocks.{
  parse_block, read_fixed, fixed_info, read_text, child_blocks, child_at, merge_children,
  version_info, parse_version_info, declared_length, cut_from, key_end, contents, u32_between,
  align_to32,
}
use dsh_work.SelfUpdate.Version.{
  key_end, align_to32, ExecutableVersion, Fixed, version_key, decode_utf16,
}

-- A number of 16 bits, the low byte first.
abbrev pub word : ℕ → List ℕ
word n = n % 2 ^ 8 ∷ n / 2 ^ 8 ∷ []

abbrev pub wide : Text → List ℕ
wide [] = []
wide (c ∷ s) = c ∷ 0 ∷ wide s

-- `VS_FIXEDFILEINFO` with the numbers of the file version; `rest` is what stands behind them.
abbrev pub fixed_bytes : Fixed → List ℕ → List ℕ
fixed_bytes f rest =
    0xbd
    ∷ 0x04
    ∷ 0xef
    ∷ 0xfe
    ∷ 0
    ∷ 0
    ∷ 1
    ∷ 0
    ∷ (word f.minor ++ (word f.major ++ (word f.revision ++ (word f.build ++ rest))))

-- A version resource that holds nothing but its fixed file info.
abbrev pub resource_bytes : Fixed → List ℕ → List ℕ
resource_bytes f rest =
    92 ∷ 0 ∷ 52 ∷ 0 ∷ 0 ∷ 0 ∷ (wide version_key ++ 0 ∷ 0 ∷ 0 ∷ 0 ∷ fixed_bytes f rest)

-- What the two bytes of a number are read as.
abbrev joined : ℕ → ℕ
joined n = n % 2 ^ 8 + n / 2 ^ 8 * 2 ^ 8

abbrev rejoined : Fixed → Fixed
rejoined f = record {
  major = joined f.major;
  minor = joined f.minor;
  build = joined f.build;
  revision = joined f.revision;
}

-- The remaining fields of the fixed file info.
abbrev pub no_more : List ℕ
no_more =
    0 ∷ 0 ∷ 0 ∷ 0 ∷ 0 ∷ 0 ∷ 0 ∷ 0 ∷ 0 ∷ 0 ∷ 0 ∷ 0 ∷ 0 ∷ 0 ∷ 0 ∷ 0 ∷ 0 ∷ 0 ∷ 0 ∷ 0 ∷ 0 ∷ 0 ∷ 0 ∷ 0
    ∷ 0 ∷ 0 ∷ 0 ∷ 0 ∷ 0 ∷ 0 ∷ 0 ∷ 0 ∷ 0 ∷ 0 ∷ 0 ∷ 0 ∷ []

abbrev pub resource : Fixed → Slice
resource f = record { array = resource_bytes f no_more; size = 92 }

decode_utf16-key :
    (f : Fixed)
    → decode_utf16 (record { array = drop_bytes 6 (resource_bytes f no_more); size = 32 })
      ≡ version_key
unfolding decode_utf16 drop_bytes trim_space is_space
decode_utf16-key f = refl

fixed_lem : (f : Fixed) → fixed_info (resource f) 40 ≡ got (some (rejoined f))
unfolding fixed_info cut_from u16_between u32_between drop_bytes
fixed_lem f = refl

read_fixed_lem : (f : Fixed) → read_fixed version_key 52 (resource f) 40 ≡ got (some (rejoined f))
unfolding read_fixed same
read_fixed_lem f = fixed_lem f

parse_block-resource :
    (upper : ℕ → ℕ) (parse : Slice → Read ExecutableVersion) (f : Fixed)
    → map upper version_key ≡ version_key
    → parse_block upper parse (resource f) 52 0
      ≡ got (record { fixed = some (rejoined f); named = [] })
unfolding read_text child_blocks child_at merge_children parse_block cut key_end contents take_bytes
    drop_bytes align_to32
parse_block-resource upper parse f h =
    rw (decode_utf16-key f) (rw h (rw (fixed_lem f) (rw (same_refl version_key) refl)))

joined-eq : (n : ℕ) → joined n ≡ n
joined-eq n = omega arith

rejoined-eq : (f : Fixed) → rejoined f ≡ f
rejoined-eq f =
    rw (joined-eq f.major, joined-eq f.minor, joined-eq f.build, joined-eq f.revision) refl

version_info-rejoined :
    (upper : ℕ → ℕ) (f : Fixed)
    → map upper version_key ≡ version_key
    → version_info upper (resource f) ≡ got (record { fixed = some (rejoined f); named = [] })
unfolding version_info parse_version_info declared_length cut u16_between drop_bytes
version_info-rejoined upper f h = parse_block-resource upper (parse_version_info upper 92) f h

-- A version resource that holds the fixed file info of a version is read as the numbers of that version,
-- if the key of the resource is its own upper case.
pub version_info-resource :
    (upper : ℕ → ℕ) (f : Fixed)
    → map upper version_key ≡ version_key
    → version_info upper (resource f) ≡ got (record { fixed = some f; named = [] })
version_info-resource upper f h =
    version_info-rejoined upper f h
    ∙ ap (λ g. got (record { fixed = some g; named = [] })) (rejoined-eq f)
