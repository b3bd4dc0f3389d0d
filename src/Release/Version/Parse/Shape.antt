-- ===== src/Release/Version/Parse/Shape.antt =====
-- internal/release/version.go: what a version that was read looks like.
use dsh_work.Prelude.{
  ℕ, ◌≤◌, ◌≡◌, refl, Bool, true, false, List, [], ◌∷◌, arith, Bool-cases, inl, inr, subst,
}
use dsh_work.Release.Text.{Text, all_digits, is_empty, cut, split, same, trim_space, trim_prefix}
use dsh_work.Release.Version.{
  Version, Result, ok, err, ◌>>=◌, ◌>>◌, check, within, Stage, no_stage, beta_stage, nightly_stage,
  Error, beta_text, nightly_text, bad_beta, bad_number, bad_date, bad_run_id,
}
use dsh_work.Release.Version.Parse.{
  parse, parse_raw, parse_parts, read_build, read_prerelease, read_core, read_pre, read_stage,
  read_beta, read_nightly, plain, parse_numeric_identifier, parse_uint, max_numeric_identifier,
  has_eight, is_run_id, valid_identifiers,
}

-- The parts that a stage has, and no others.
abbrev pub HasParts : Stage → Version → Type 0
HasParts no_stage v = (v.stage_number ≡ 0) × (v.date ≡ []) × (v.run_id ≡ [])
HasParts beta_stage v = (v.stage_number ≤ max_numeric_identifier) × (v.date ≡ []) × (v.run_id ≡ [])
HasParts nightly_stage v =
    (v.stage_number ≡ 0)
    × (has_eight v.date ≡ true)
    × (all_digits v.date ≡ true)
    × (is_run_id v.run_id ≡ true)

pub record WellFormed (v : Version) : Type 0 where
  pub major_fits : v.major ≤ max_numeric_identifier
  pub minor_fits : v.minor ≤ max_numeric_identifier
  pub patch_fits : v.patch ≤ max_numeric_identifier
  pub parts : HasParts v.stage v

-- What holds of a result, if it is one.
abbrev pub Always : {A : Type 0} → (A → Type 0) → Result A → Type 0
Always P (ok a) = P a
Always P (err e) = Unit

pub Always-bind :
    {A B : Type 0} (P : A → Type 0) (Q : B → Type 0) (m : Result A) (f : A → Result B)
    → Always P m
    → ((a : A) → P a → Always Q (f a))
    → Always Q (m >>= f)
Always-bind P Q (ok a) f h k = k a h
Always-bind P Q (err e) f h k = tt

pub Always-check :
    {B : Type 0} (Q : B → Type 0) (b : Bool) (e : Error) (r : Result B)
    → (b ≡ true → Always Q r)
    → Always Q (check b e >> r)
Always-check Q true e r h = h refl
Always-check Q false e r h = tt

pub Always-within :
    {A : Type 0} (P : A → Type 0) (e : Error) (r : Result A) → Always P r → Always P (within e r)
Always-within P e (ok a) h = h
Always-within P e (err d) h = tt

pub Always-then :
    {A B : Type 0} (Q : B → Type 0) (m : Result A) (f : A → Result B)
    → ((a : A) → Always Q (f a))
    → Always Q (m >>= f)
Always-then Q (ok a) f k = k a
Always-then Q (err e) f k = tt

abbrev IsNumber : Text → ℕ → Type 0
IsNumber s n = (n ≤ max_numeric_identifier) × (all_digits s ≡ true)

parse_numeric_identifier-IsNumber : (s : Text) → Always (IsNumber s) (parse_numeric_identifier s)
unfolding parse_numeric_identifier parse_uint
parse_numeric_identifier-IsNumber s = ground arith

read_numeric-IsNumber :
    (e : Error) (s : Text) → Always (IsNumber s) (within e (parse_numeric_identifier s))
read_numeric-IsNumber e s = Always-within (IsNumber s) e _ (parse_numeric_identifier-IsNumber s)

abbrev pub Fits : ℕ × ℕ × ℕ → Type 0
Fits (a, b, c) =
    (a ≤ max_numeric_identifier) × (b ≤ max_numeric_identifier) × (c ≤ max_numeric_identifier)

plain-WellFormed : (raw build : Text) (n : ℕ × ℕ × ℕ) → Fits n → WellFormed (plain raw build n)
unfolding plain
plain-WellFormed raw build (a, b, c) (ha, hb, hc) = record {
  major_fits = ha;
  minor_fits = hb;
  patch_fits = hc;
  parts = (refl, refl, refl);
}

read_beta-WellFormed :
    (raw build : Text) (n : ℕ × ℕ × ℕ) (parts : List Text)
    → Fits n
    → Always WellFormed (read_beta (plain raw build n) parts)
unfolding read_beta plain
read_beta-WellFormed raw build n [] h = tt
read_beta-WellFormed raw build (a, b, c) (s ∷ []) (ha, hb, hc) =
    Always-bind (IsNumber s) WellFormed _ _ (read_numeric-IsNumber bad_beta s)
      λ k q. record { major_fits = ha; minor_fits = hb; patch_fits = hc; parts = (q.0, refl, refl) }
read_beta-WellFormed raw build n (s ∷ t ∷ parts) h = tt

read_nightly-WellFormed :
    (raw build : Text) (n : ℕ × ℕ × ℕ) (parts : List Text)
    → Fits n
    → Always WellFormed (read_nightly (plain raw build n) parts)
unfolding read_nightly plain
read_nightly-WellFormed raw build n [] h = tt
read_nightly-WellFormed raw build n (s ∷ []) h = tt
read_nightly-WellFormed raw build (a, b, c) (s ∷ t ∷ []) (ha, hb, hc) =
    Always-check WellFormed (has_eight s) bad_date _ λ eight.
      Always-bind (IsNumber s) WellFormed _ _ (read_numeric-IsNumber bad_date s) λ k q.
        Always-check WellFormed (is_run_id t) bad_run_id _ λ run. record {
          major_fits = ha;
          minor_fits = hb;
          patch_fits = hc;
          parts = (refl, eight, q.1, run);
        }
read_nightly-WellFormed raw build n (s ∷ t ∷ u ∷ parts) h = tt

read_stage-WellFormed :
    (raw build : Text) (n : ℕ × ℕ × ℕ) (parts : List Text)
    → Fits n
    → Always WellFormed (read_stage (plain raw build n) parts)
unfolding read_stage
read_stage-WellFormed raw build n [] h = tt
read_stage-WellFormed raw build n (s ∷ parts) h = elim (Bool-cases (same s beta_text)) [
  | inl b ↦ rw b (read_beta-WellFormed raw build n parts h)
  | inr b ↦ rw b (elim (Bool-cases (same s nightly_text)) [
    | inl c ↦ rw c (read_nightly-WellFormed raw build n parts h)
    | inr c ↦ rw c tt
  ])
]

read_pre-WellFormed :
    (raw build : Text) (n : ℕ × ℕ × ℕ) (pre : Text)
    → Fits n
    → Always WellFormed (read_pre (plain raw build n) pre)
unfolding read_pre
read_pre-WellFormed raw build n pre h = elim (Bool-cases (is_empty pre)) [
  | inl e ↦ rw e (plain-WellFormed raw build n h)
  | inr e ↦ rw e (
      Always-then WellFormed (valid_identifiers true pre) _
        λ u. read_stage-WellFormed raw build n (split b'.' pre) h)
]

read_core-Fits : (parts : List Text) → Always Fits (read_core parts)
unfolding read_core
read_core-Fits [] = tt
read_core-Fits (x ∷ []) = tt
read_core-Fits (x ∷ y ∷ []) = tt
read_core-Fits (x ∷ y ∷ z ∷ []) =
    Always-bind (IsNumber x) Fits _ _ (read_numeric-IsNumber bad_number x) λ a p.
      Always-bind (IsNumber y) Fits _ _ (read_numeric-IsNumber bad_number y) λ b q.
        Always-bind (IsNumber z) Fits _ _ (read_numeric-IsNumber bad_number z)
          λ c r. (p.0, q.0, r.0)
read_core-Fits (x ∷ y ∷ z ∷ w ∷ parts) = tt

parse_raw-WellFormed : (raw : Text) → Always WellFormed (parse_raw raw)
unfolding parse_raw parse_parts
parse_raw-WellFormed raw = Always-then WellFormed (read_build raw (cut b'+' raw)) _ λ parts.
    Always-then WellFormed (read_prerelease parts.0 (cut b'-' parts.0)) _ λ inner.
      Always-bind Fits WellFormed _ _ (read_core-Fits (split b'.' inner.0))
        λ n h. read_pre-WellFormed raw parts.1 n inner.1 h

Always-parse : (s : Text) → Always WellFormed (parse s)
unfolding parse
Always-parse s = elim (Bool-cases (is_empty (trim_space s))) [
  | inl e ↦ rw e tt
  | inr e ↦ rw e (parse_raw-WellFormed (trim_prefix b'V' (trim_prefix b'v' (trim_space s))))
]

-- A version that was read has numbers of at most 2^63 - 1 and the parts of its stage only: a beta
-- number in the same range, or a date of eight digits and a run id, each where the stage has it.
pub parse-WellFormed : (s : Text) (v : Version) → parse s ≡ ok v → WellFormed v
parse-WellFormed s v h = subst (Always WellFormed) h (Always-parse s)
