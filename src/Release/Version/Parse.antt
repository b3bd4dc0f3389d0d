-- ===== src/Release/Version/Parse.antt =====
-- internal/release/version.go: reading a version.
pub mod Shape
pub mod RoundTrip
pub mod Printed
mod Examples
use dsh_work.Prelude.{
  ℕ, suc, zero, ◌+◌, ◌-◌, ◌^◌, Bool, true, false, ◌&&◌, ◌||◌, not, Option, none, some, List, [],
  ◌∷◌, ◌++◌, ltb, leb, eqb, if◌then◌else◌,
}
use dsh_work.Release.Text.{
  Text, same, is_empty, trim_space, trim_prefix, cut, split, all_digits, is_digit, value,
  has_leading_zero,
}
use dsh_work.Release.Version.{
  Version, Stage, no_stage, beta_stage, nightly_stage, Error, empty_version, bad_build,
  empty_prerelease, not_three_fields, bad_number, bad_prerelease, bad_beta, bad_nightly, bad_date,
  bad_run_id, unsupported_stage, carries_build, not_numeric, leading_zero, out_of_range, Result, ok,
  err, ◌>>=◌, ◌>>◌, check, within, beta_text, nightly_text,
}

abbrev pub max_numeric_identifier : ℕ
max_numeric_identifier = 2 ^ 63 - 1

-- `strconv.ParseUint` of digits, in 64 bits.
unfoldable pub parse_uint : Text → Result ℕ
parse_uint s = do check (ltb (value 0 s) (2 ^ 64)) out_of_range; ok (value 0 s)

unfoldable pub parse_numeric_identifier : Text → Result ℕ
unfolding parse_uint
parse_numeric_identifier s = do
  check (not (is_empty s)) not_numeric
  check (all_digits s) not_numeric
  check (not (has_leading_zero s)) leading_zero
  number ← parse_uint s
  check (leb number max_numeric_identifier) out_of_range
  ok number

is_identifier_character : ℕ → Bool
is_identifier_character c =
    is_digit c || leb b'A' c && leb c b'Z' || leb b'a' c && leb c b'z' || eqb c b'-'

all_identifier_characters : Text → Bool
unfolding is_identifier_character
all_identifier_characters [] = true
all_identifier_characters (c ∷ s) = is_identifier_character c && all_identifier_characters s

is_numeric : Text → Bool
is_numeric s = all_digits s && not (is_empty s)

check_numeric : Text → Result (Unit {0})
check_numeric s = do number ← parse_numeric_identifier s; ok tt

check_identifier : Bool → Text → Result (Unit {0})
unfolding all_identifier_characters check_numeric is_numeric
check_identifier numeric s = do
  check (not (is_empty s)) bad_prerelease
  check (all_identifier_characters s) bad_prerelease
  if numeric && is_numeric s then check_numeric s else ok tt

check_each : Bool → List Text → Result (Unit {0})
unfolding check_identifier
check_each numeric [] = ok tt
check_each numeric (s ∷ rest) = check_identifier numeric s >> check_each numeric rest

-- `validIdentifiers`
unfoldable pub valid_identifiers : Bool → Text → Result (Unit {0})
unfolding check_each
valid_identifiers numeric s = do
  check (not (is_empty s)) bad_prerelease
  check_each numeric (split b'.' s)

-- `runIDPattern`
unfoldable pub is_run_id : Text → Bool
is_run_id [] = false
is_run_id (c ∷ s) = leb b'1' c && leb c b'9' && all_digits s

read_build : Text → Option (Text × Text) → Result (Text × Text)
read_build raw none = ok (raw, [])
read_build raw (some (core, build)) = do
  within bad_build (valid_identifiers false build)
  check (not (is_empty build)) bad_build
  ok (core, build)

read_prerelease : Text → Option (Text × Text) → Result (Text × Text)
read_prerelease core none = ok (core, [])
read_prerelease core (some (front, pre)) = do
  check (not (is_empty pre)) empty_prerelease
  ok (front, pre)

pub read_core : List Text → Result (ℕ × ℕ × ℕ)
read_core (x ∷ y ∷ z ∷ []) = do
  a ← within bad_number (parse_numeric_identifier x)
  b ← within bad_number (parse_numeric_identifier y)
  c ← within bad_number (parse_numeric_identifier z)
  ok (a, b, c)
read_core _ = err not_three_fields

read_beta : Version → List Text → Result Version
read_beta v (n ∷ []) = do
  number ← within bad_beta (parse_numeric_identifier n)
  ok (record v { stage = beta_stage; stage_number = number })
read_beta v _ = err bad_beta

-- Whether the text has eight characters.
unfoldable pub has_eight : Text → Bool
has_eight (a ∷ b ∷ c ∷ d ∷ e ∷ f ∷ g ∷ h ∷ []) = true
has_eight _ = false

read_nightly : Version → List Text → Result Version
read_nightly v (date ∷ run ∷ []) = do
  check (has_eight date) bad_date
  number ← within bad_date (parse_numeric_identifier date)
  check (is_run_id run) bad_run_id
  ok (record v { stage = nightly_stage; date = date; run_id = run })
read_nightly v _ = err bad_nightly

read_stage : Version → List Text → Result Version
unfolding read_beta read_nightly
read_stage v [] = err unsupported_stage
read_stage v (stage ∷ rest) =
    if same stage beta_text
    then read_beta v rest
    else if same stage nightly_text
    then read_nightly v rest
    else err unsupported_stage

read_pre : Version → Text → Result Version
unfolding read_stage
read_pre v pre =
    if is_empty pre then ok v else (valid_identifiers true pre >> read_stage v (split b'.' pre))

unfoldable pub plain : Text → Text → ℕ × ℕ × ℕ → Version
plain raw build (a, b, c) = record {
  raw = raw;
  major = a;
  minor = b;
  patch = c;
  stage = no_stage;
  stage_number = 0;
  date = [];
  run_id = [];
  build = build;
}

-- The core and the build metadata are told apart, then the pre-release part.
parse_parts : Text → Text × Text → Result Version
unfolding read_prerelease read_core read_pre plain
parse_parts raw (front, build) = do
  parts ← read_prerelease front (cut b'-' front)
  numbers ← read_core (split b'.' parts.0)
  read_pre (plain raw build numbers) parts.1

pub parse_raw : Text → Result Version
unfolding read_build parse_parts
parse_raw raw = do parts ← read_build raw (cut b'+' raw); parse_parts raw parts

-- `parse`, and `Parse`, which returns what it returns.
unfoldable pub parse : Text → Result Version
unfolding parse_raw
parse s =
    let trimmed = trim_space s in
    if is_empty trimmed
    then err empty_version
    else parse_raw (trim_prefix b'V' (trim_prefix b'v' trimmed))

unfoldable pub parse_release : Text → Result Version
parse_release s = do version ← parse s; check (is_empty version.build) carries_build; ok version

abbrev pub development_version : Text
development_version =
    b'd' ∷ b'e' ∷ b'v' ∷ b'e' ∷ b'l' ∷ b'o' ∷ b'p' ∷ b'm' ∷ b'e' ∷ b'n' ∷ b't' ∷ []

unfoldable pub validate_build_version : Text → Result (Unit {0})
validate_build_version s =
    let trimmed = trim_space s in
    if is_empty trimmed || same trimmed development_version
    then ok tt
    else (do version ← parse_release trimmed; ok tt)
