-- ===== src/Release/Compute/Examples.antt =====
-- Instances of the theorems on computed releases of internal/release at concrete inputs.
use Prim.Native.Char.{code}
use Prim.Native.String.{String, [], ◌∷◌}
use dsh_work.Prelude.{
  ℕ, ◌≡◌, refl, arith, Bool, List, ltb, eqb, ◌&&◌, ◌||◌, if◌then◌else◌, suc, zero,
}
use dsh_work.Prelude.Space.{is_space}
use dsh_work.Release.Text.{
  Text, same, is_empty, trim_space, trim_prefix, cut, split, all_digits, is_digit, value,
  has_leading_zero, decimal, without,
}
use dsh_work.Release.Text.Reading.{value-decimal}
use dsh_work.Release.Version.{
  Version, base, is_zero, has_stage, ok, nightly, nightly_stage, is_valid, windows_file_version,
  windows_fields, no_stage,
}
use dsh_work.Release.Version.Parse.{
  parse, plain, parse_numeric_identifier, valid_identifiers, is_run_id, has_eight,
}
use dsh_work.Release.Version.Parse.RoundTrip.{triple, split-triple}
use dsh_work.Release.Compute.{
  identified, Sign, positive, negative, neutral, Options, Release, compute, done, panics,
  normalise_date, compare_versions, base_supersedes, canonical, nightly_release, nightly_base,
  channel_release, with_file_version, nightly_version_text, next_base, next_patch_text,
}
use dsh_work.Release.Compute.Identity.{Agrees, HasFields, compute-Agrees}
use dsh_work.Release.Compute.Bases.{OrdersBases, Above, numbers, nightly-Above_stable}
use dsh_work.Release.Compute.Panics.{Accepted, early_year-panics, last_patch-panics}

abbrev text : String → Text
text [] = List.[]
text (c ∷ s) = List.◌∷◌ (code c) (text s)

abbrev part : ℕ → List Text → ℕ
part n List.[] = 0
part zero (List.◌∷◌ s rest) = value 0 s
part (suc n) (List.◌∷◌ s rest) = part n rest

abbrev above : ℕ × ℕ × ℕ → ℕ × ℕ × ℕ → Bool
above (a, b, c) (a', b', c') = ltb a' a || eqb a a' && (ltb b' b || eqb b b' && ltb c' c)

parts : Text → ℕ × ℕ × ℕ
parts s = let l = split b'.' (trim_prefix b'v' s) in (part 0 l, part 1 l, part 2 l)

-- A comparison of versions of three numbers.
by_numbers : Text → Text → Sign
by_numbers s t =
    if above (parts s) (parts t)
    then positive
    else if above (parts t) (parts s)
    then negative
    else neutral

parts-triple : (a b c : ℕ) → parts (List.◌∷◌ b'v' (triple a b c)) ≡ (a, b, c)
unfolding parts trim_prefix
parts-triple a b c = rw (split-triple a b c, value-decimal a, value-decimal b, value-decimal c) refl

by_numbers-OrdersBases : OrdersBases by_numbers
unfolding by_numbers
by_numbers-OrdersBases a b c a' b' c' =
    rw (parts-triple a b c, parts-triple a' b' c') (ground arith)

abbrev asked : Options
asked = record {
  channel = nightly;
  version = List.[];
  base = text "0.3.0";
  date = text "2026-10-13";
  run_id = text "12";
  source_sha = text "ab";
  last_stable_version = text "v0.3.0";
}

abbrev made : Release
made = record {
  version = record {
    raw = text "0.3.1-nightly.20261013.12";
    major = 0;
    minor = 3;
    patch = 1;
    stage = nightly_stage;
    stage_number = 0;
    date = text "20261013";
    run_id = text "12";
    build = List.[];
  };
  channel = nightly;
  base = text "0.3.1";
  source_sha = text "ab";
  date = text "20261013";
  run_id = text "12";
  file_version = text "0.3.1.0";
  last_stable_base = text "0.3.0";
}

last : Version
last = plain (text "0.3.0") List.[] (0, 3, 0)

asked-compute : compute by_numbers asked ≡ done made
unfolding compute by_numbers parts parse parse_numeric_identifier valid_identifiers is_run_id
    has_eight plain same is_empty trim_space trim_prefix cut split all_digits is_digit value
    has_leading_zero is_space decimal without base is_zero has_stage is_valid windows_file_version
    windows_fields normalise_date compare_versions base_supersedes canonical nightly_release
    nightly_base channel_release with_file_version nightly_version_text next_base next_patch_text
    identified
asked-compute = refl

last-parse : parse (trim_space asked.last_stable_version) ≡ ok last
unfolding last parse parse_numeric_identifier valid_identifiers is_run_id has_eight plain same
    is_empty trim_space trim_prefix cut split all_digits is_digit value has_leading_zero is_space
last-parse = refl

compute-Agrees_example : Agrees asked made × HasFields made
compute-Agrees_example = compute-Agrees by_numbers asked made asked-compute

nightly-Above_stable_example : Above (numbers made.version) (numbers last)
unfolding is_empty trim_space is_space
nightly-Above_stable_example =
    nightly-Above_stable by_numbers by_numbers-OrdersBases asked last made refl refl last-parse
      asked-compute

abbrev early : Options
early = record asked { date = text "0999-12-31"; last_stable_version = List.[] }

abbrev plain_base : Version
plain_base = record {
  raw = text "0.3.0";
  major = 0;
  minor = 3;
  patch = 0;
  stage = no_stage;
  stage_number = 0;
  date = List.[];
  run_id = List.[];
  build = List.[];
}

early-Accepted : Accepted early plain_base (text "09991231")
unfolding parse parse_numeric_identifier valid_identifiers is_run_id has_eight plain same is_empty
    trim_space trim_prefix cut split all_digits is_digit value has_leading_zero is_space without
    has_stage normalise_date
early-Accepted = record {
  on_nightly = refl;
  reads_base = refl;
  plain_base = refl;
  bare_base = refl;
  reads_date = refl;
  reads_run = refl;
  no_version = refl;
}

early_year-panics_example : compute by_numbers early ≡ panics
unfolding is_empty trim_space has_leading_zero
early_year-panics_example =
    early_year-panics by_numbers early plain_base (text "09991231") early-Accepted refl refl

abbrev late : Options
late = record asked { last_stable_version = text "0.3.9223372036854775807" }

abbrev last_patch : Version
last_patch = record plain_base { raw = text "0.3.9223372036854775807"; patch = 9223372036854775807 }

late-Accepted : Accepted late plain_base (text "20261013")
unfolding parse parse_numeric_identifier valid_identifiers is_run_id has_eight plain same is_empty
    trim_space trim_prefix cut split all_digits is_digit value has_leading_zero is_space without
    has_stage normalise_date
late-Accepted = record {
  on_nightly = refl;
  reads_base = refl;
  plain_base = refl;
  bare_base = refl;
  reads_date = refl;
  reads_run = refl;
  no_version = refl;
}

last_patch-parse : parse (trim_space late.last_stable_version) ≡ ok last_patch
unfolding parse parse_numeric_identifier valid_identifiers is_run_id has_eight plain same is_empty
    trim_space trim_prefix cut split all_digits is_digit value has_leading_zero is_space
last_patch-parse = refl

last_patch-panics_example : compute by_numbers late ≡ panics
unfolding is_empty trim_space is_space has_stage by_numbers parts parse parse_numeric_identifier
    valid_identifiers plain trim_prefix cut split all_digits is_digit value has_leading_zero decimal
    base is_zero compare_versions base_supersedes canonical
last_patch-panics_example =
    last_patch-panics by_numbers late plain_base last_patch (text "20261013") late-Accepted refl
      last_patch-parse refl refl refl
