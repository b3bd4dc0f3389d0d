-- ===== src/Release/Compute.antt =====
-- internal/release/compare.go and compute.go: the identity of one release. The comparison of
-- golang.org/x/mod/semver is a parameter. An outcome tells a rejection from a panic of `MustParse`.
pub mod Outcomes
pub mod Bases
pub mod Identity
pub mod Panics
mod Examples
use dsh_work.Prelude.{
  ℕ, suc, zero, ◌+◌, ◌-◌, ◌^◌, ◌%◌, Bool, true, false, ◌&&◌, ◌||◌, not, Option, none, some, List,
  [], ◌∷◌, ◌++◌, ltb, leb, eqb, if◌then◌else◌,
}
use dsh_work.Release.Text.{Text, same, is_empty, trim_space, all_digits, value, decimal, without}
use dsh_work.Release.Version.{
  Channel, stable, beta, nightly, other_channel, is_valid, Version, Stage, beta_stage, base,
  is_zero, has_stage, same_base, Result, ok, err, nightly_text, windows_file_version,
}
use dsh_work.Release.Version.Parse.{parse, parse_release, is_run_id, has_eight}

pub data Sign : Type 0 where
  negative neutral positive : Sign

abbrev pub is_positive : Sign → Bool
is_positive positive = true
is_positive _ = false

pub data Outcome {ℓ} (A : Type ℓ) : Type ℓ where
  done : A → Outcome A
  refused panics : Outcome A

infixl 5 ◌>>=◌ ◌>>◌
abbrev pub ◌>>=◌ {ℓ κ} : {A : Type ℓ} {B : Type κ} → Outcome A → (A → Outcome B) → Outcome B
done a >>= f = f a
refused >>= f = refused
panics >>= f = panics

abbrev pub ◌>>◌ {ℓ} : {B : Type ℓ} → Outcome (Unit {0}) → Outcome B → Outcome B
m >> k = m >>= λ _. k

-- Goes on if the test holds.
abbrev pub require : Bool → Outcome (Unit {0})
require true = done tt
require false = refused

abbrev pub accept {ℓ} : {A : Type ℓ} → Result A → Outcome A
accept (ok a) = done a
accept (err e) = refused

-- `MustParse`
abbrev pub must {ℓ} : {A : Type ℓ} → Result A → Outcome A
must (ok a) = done a
must (err e) = panics

-- `ReleaseOptions`
pub record Options : Type 0 where
  pub channel : Channel
  pub version : Text
  pub base : Text
  pub date : Text
  pub run_id : Text
  pub source_sha : Text
  pub last_stable_version : Text

pub record Release : Type 0 where
  pub version : Version
  pub channel : Channel
  pub base : Text
  pub source_sha : Text
  pub date : Text
  pub run_id : Text
  pub file_version : Text
  pub last_stable_base : Text

is_leap : ℕ → Bool
is_leap year = eqb (year % 4) 0 && (not (eqb (year % 100) 0) || eqb (year % 400) 0)

days_in : ℕ → ℕ → ℕ
unfolding is_leap
days_in year month =
    if eqb month 2
    then (if is_leap year then 29 else 28)
    else if eqb month 4 || eqb month 6 || eqb month 9 || eqb month 11
    then 30
    else 31

-- `time.ParseInLocation` of the eight digits, taken apart as a date.
is_calendar_date : Text → Bool
unfolding days_in
is_calendar_date (a ∷ b ∷ c ∷ d ∷ e ∷ f ∷ g ∷ h ∷ []) =
    let digits = a ∷ b ∷ c ∷ d ∷ e ∷ f ∷ g ∷ h ∷ [] in
    let year = value 0 (a ∷ b ∷ c ∷ d ∷ []) in
    let month = value 0 (e ∷ f ∷ []) in
    let day = value 0 (g ∷ h ∷ []) in
    all_digits digits
    && (leb 1 month && leb month 12)
    && (leb 1 day && leb day (days_in year month))
is_calendar_date _ = false

unfoldable pub normalise_date : Text → Outcome Text
unfolding is_calendar_date
normalise_date s = do
  require (not (is_empty (trim_space s)))
  let compact = without b'-' (trim_space s)
  require (has_eight compact)
  require (is_calendar_date compact)
  done compact

-- `Version.canonical`: the text less the build metadata, behind a "v".
drop_suffix : Text → Text → Text
drop_suffix suffix [] = []
drop_suffix suffix (c ∷ s) =
    let rest = drop_suffix suffix s in if same (c ∷ s) suffix then [] else c ∷ rest

unfoldable pub canonical : Version → Text
unfolding drop_suffix
canonical v = if is_empty v.build then b'v' ∷ v.raw else b'v' ∷ drop_suffix (b'+' ∷ v.build) v.raw

pub nightly_version_text : Text → Text → Text → Text
nightly_version_text front date run = front ++ b'-' ∷ (nightly_text ++ b'.' ∷ (date ++ b'.' ∷ run))

next_patch_text : Version → Text
next_patch_text v =
    decimal v.major ++ b'.' ∷ (decimal v.minor ++ b'.' ∷ decimal ((v.patch + 1) % 2 ^ 64))

is_beta : Version → Bool
is_beta v = elim v.stage [ beta_stage ↦ true | _ ↦ false ]

stable_version : Options → Version → Outcome Version
stable_version o b = if is_empty (trim_space o.version) then done b else (do
  parsed ← accept (parse_release o.version)
  require (not (has_stage parsed))
  require (same_base parsed b)
  done parsed)

beta_version : Options → Version → Outcome Version
unfolding is_beta
beta_version o b = do
  require (not (is_empty (trim_space o.version)))
  version ← accept (parse_release (trim_space o.version))
  require (is_beta version)
  require (same_base version b)
  done version

identified : Options → Version → Version → Text → Text → Text → Release
identified o v b date run last = record {
  version = v;
  channel = o.channel;
  base = base b;
  source_sha = trim_space o.source_sha;
  date = date;
  run_id = run;
  file_version = [];
  last_stable_base = last;
}

with_file_version : Release → Outcome Release
with_file_version r = do
  fields ← accept (windows_file_version r.version)
  done (record r { file_version = fields })

-- The semver package's comparison.
module _ (semver_compare : Text → Text → Sign) where
  unfoldable pub compare_versions : Version → Version → Sign
  compare_versions a b =
      if is_zero a && is_zero b
      then neutral
      else if is_zero a
      then negative
      else if is_zero b
      then positive
      else semver_compare (canonical a) (canonical b)

  supersedes_read : Result Version → Result Version → Bool
  supersedes_read (ok a) (ok b) = is_positive (compare_versions a b)
  supersedes_read _ _ = false

  unfoldable pub base_supersedes : Version → Version → Bool
  unfolding supersedes_read
  base_supersedes a b =
      if is_zero a || is_zero b then false else supersedes_read (parse (base a)) (parse (base b))

  -- The base of a nightly version, once the last stable version is known.
  next_base : Version → Version → Outcome Version
  next_base b last = if base_supersedes b last then done b else must (parse (next_patch_text last))

  -- The base of a nightly version, and the text of the last stable base.
  pub nightly_base : Options → Version → Outcome (Version × Text)
  unfolding next_base
  nightly_base o b = if is_empty (trim_space o.last_stable_version) then done (b, []) else (do
    last ← accept (parse (trim_space o.last_stable_version))
    require (not (has_stage last))
    next ← next_base b last
    done (next, base last))

  pub nightly_release : Options → Version → Outcome Release
  unfolding nightly_base
  nightly_release o b = do
    date ← normalise_date o.date
    let run = trim_space o.run_id
    require (is_run_id run)
    require (is_empty (trim_space o.version))
    next ← nightly_base o b
    version ← must (parse (nightly_version_text (base next.0) date run))
    done (identified o version next.0 date run next.1)

  channel_release : Options → Version → Channel → Outcome Release
  unfolding nightly_release
  channel_release o b stable = stable_version o b >>= λ v. done (identified o v b [] [] [])
  channel_release o b beta = beta_version o b >>= λ v. done (identified o v b [] [] [])
  channel_release o b nightly = nightly_release o b
  channel_release o b (other_channel s) = refused

  -- `Compute`
  pub compute : Options → Outcome Release
  unfolding channel_release with_file_version
  compute o = do
    require (is_valid o.channel)
    b ← accept (parse o.base)
    require (not (has_stage b))
    require (is_empty b.build)
    r ← channel_release o b o.channel
    with_file_version r
