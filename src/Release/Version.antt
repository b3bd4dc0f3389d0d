-- ===== src/Release/Version.antt =====
-- internal/release/version.go, windows.go and compare.go: channels, and versions with their parts.
pub mod Parse
use dsh_work.Prelude.{
  ℕ, suc, zero, ◌+◌, ◌-◌, ◌^◌, Bool, true, false, ◌&&◌, ◌||◌, not, Option, none, some, List, [],
  ◌∷◌, ◌++◌, ltb, leb, if◌then◌else◌,
}
use dsh_work.Release.Text.{Text, same, is_empty, trim_space, decimal}

pub data Channel : Type 0 where
  stable beta nightly : Channel
  other_channel : Text → Channel

abbrev pub beta_text : Text
beta_text = b'b' ∷ b'e' ∷ b't' ∷ b'a' ∷ []

abbrev pub nightly_text : Text
nightly_text = b'n' ∷ b'i' ∷ b'g' ∷ b'h' ∷ b't' ∷ b'l' ∷ b'y' ∷ []

abbrev pub stable_text : Text
stable_text = b's' ∷ b't' ∷ b'a' ∷ b'b' ∷ b'l' ∷ b'e' ∷ []

unfoldable pub channel_of : Text → Channel
channel_of s =
    if same s stable_text
    then stable
    else if same s beta_text
    then beta
    else if same s nightly_text
    then nightly
    else other_channel s

unfoldable pub channel_text : Channel → Text
channel_text stable = stable_text
channel_text beta = beta_text
channel_text nightly = nightly_text
channel_text (other_channel s) = s

-- `Channel.Valid`
unfoldable pub is_valid : Channel → Bool
is_valid (other_channel s) = false
is_valid _ = true

-- `ParseChannel`; there is nothing for a channel that is not known.
unfoldable pub parse_channel : Text → Option Channel
unfolding channel_of is_valid
parse_channel s =
    let trimmed = trim_space s in
    if is_empty trimmed
    then some stable
    else if is_valid (channel_of trimmed)
    then some (channel_of trimmed)
    else none

pub data Stage : Type 0 where
  no_stage beta_stage nightly_stage : Stage

pub record Version : Type 0 where
  pub raw : Text
  pub major : ℕ
  pub minor : ℕ
  pub patch : ℕ
  pub stage : Stage
  pub stage_number : ℕ
  pub date : Text
  pub run_id : Text
  pub build : Text

-- The kinds of rejection; each message of the source belongs to one.
pub data Error : Type 0 where
  empty_version bad_build empty_prerelease not_three_fields bad_number : Error
  bad_prerelease bad_beta bad_nightly bad_date bad_run_id unsupported_stage : Error
  carries_build field_too_large is_prerelease not_numeric leading_zero out_of_range : Error

pub data Result {ℓ} (A : Type ℓ) : Type ℓ where
  ok : A → Result A
  err : Error → Result A

infixl 5 ◌>>=◌ ◌>>◌
abbrev pub ◌>>=◌ {ℓ κ} : {X : Type ℓ} {Y : Type κ} → Result X → (X → Result Y) → Result Y
ok x >>= next = next x
err why >>= next = err why

abbrev pub ◌>>◌ {ℓ} : {Y : Type ℓ} → Result (Unit {0}) → Result Y → Result Y
first >> second = first >>= λ _. second

-- Goes on if the test holds.
abbrev pub check : Bool → Error → Result (Unit {0})
check true e = ok tt
check false e = err e

-- An error within takes the place that is given.
abbrev pub within {ℓ} : {A : Type ℓ} → Error → Result A → Result A
within e (ok a) = ok a
within e (err _) = err e

-- `Version.Base`
unfoldable pub base : Version → Text
base v = decimal v.major ++ b'.' ∷ (decimal v.minor ++ b'.' ∷ decimal v.patch)

unfoldable pub is_zero : Version → Bool
is_zero v = is_empty v.raw

-- `Version.IsPrerelease`
unfoldable pub has_stage : Version → Bool
has_stage v = elim v.stage [ no_stage ↦ false | _ ↦ true ]

-- `Version.Channel`
unfoldable pub channel : Version → Channel
channel v = elim v.stage [ no_stage ↦ stable | beta_stage ↦ beta | nightly_stage ↦ nightly ]

abbrev pub windows_field_max : ℕ
windows_field_max = 65535

-- `Version.WindowsFields`; the fourth field stays 0.
unfoldable pub windows_fields : Version → Result (ℕ × ℕ × ℕ × ℕ)
windows_fields v = do
  check (leb v.major windows_field_max) field_too_large
  check (leb v.minor windows_field_max) field_too_large
  check (leb v.patch windows_field_max) field_too_large
  ok (v.major, v.minor, v.patch, 0)

print_fields : ℕ × ℕ × ℕ × ℕ → Text
print_fields (a, b, c, d) =
    decimal a ++ b'.' ∷ (decimal b ++ b'.' ∷ (decimal c ++ b'.' ∷ decimal d))

unfoldable pub windows_file_version : Version → Result Text
unfolding print_fields
windows_file_version v = do fields ← windows_fields v; ok (print_fields fields)

-- `SameBase`
unfoldable pub same_base : Version → Version → Bool
same_base a b = not (is_zero a) && not (is_zero b) && same (base a) (base b)
