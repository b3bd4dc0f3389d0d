-- ===== src/Release/Version/Parse/Examples.antt =====
-- Instances of the theorems on versions of internal/release at concrete inputs.
use Prim.Native.Char.{code}
use Prim.Native.String.{String, [], ◌∷◌}
use dsh_work.Prelude.{◌≡◌, ◌↔◌, refl, arith, true, List}
use dsh_work.Prelude.Space.{is_space}
use dsh_work.Release.Text.{
  Text, same, is_empty, trim_space, trim_prefix, cut, split, all_digits, is_digit, value,
  has_leading_zero,
}
use dsh_work.Release.Version.{Version, base, same_base, is_zero, ok, beta_stage, no_stage}
use dsh_work.Release.Version.Parse.{
  parse, plain, parse_numeric_identifier, valid_identifiers, is_run_id, has_eight,
}
use dsh_work.Release.Version.Parse.Shape.{WellFormed, parse-WellFormed}
use dsh_work.Release.Version.Parse.RoundTrip.{parse-base, same_base_iff}

abbrev text : String → Text
text [] = List.[]
text (c ∷ s) = List.◌∷◌ (code c) (text s)

abbrev beta_4 : Version
beta_4 = record {
  raw = text "1.2.30-beta.4";
  major = 1;
  minor = 2;
  patch = 30;
  stage = beta_stage;
  stage_number = 4;
  date = List.[];
  run_id = List.[];
  build = List.[];
}

beta_4-parse : parse (text " v1.2.30-beta.4") ≡ ok beta_4
unfolding parse parse_numeric_identifier valid_identifiers is_run_id has_eight plain same is_empty
    trim_space trim_prefix cut split all_digits is_digit value has_leading_zero is_space
beta_4-parse = refl

parse-WellFormed_example : WellFormed beta_4
parse-WellFormed_example = parse-WellFormed (text " v1.2.30-beta.4") beta_4 beta_4-parse

parse-base_example : parse (base beta_4) ≡ ok (plain (base beta_4) List.[] (1, 2, 30))
parse-base_example = parse-base beta_4 (omega arith) (omega arith) (omega arith)

abbrev bare : Version
bare = record {
  raw = text "1.2.30";
  major = 1;
  minor = 2;
  patch = 30;
  stage = no_stage;
  stage_number = 0;
  date = List.[];
  run_id = List.[];
  build = List.[];
}

same_base_iff_example :
    (same_base beta_4 bare ≡ true)
    ↔ ((beta_4.major ≡ bare.major) × (beta_4.minor ≡ bare.minor) × (beta_4.patch ≡ bare.patch))
unfolding is_zero is_empty
same_base_iff_example = same_base_iff beta_4 bare refl refl
