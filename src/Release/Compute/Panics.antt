-- ===== src/Release/Compute/Panics.antt =====
-- internal/release/compute.go: inputs that pass the checks of a nightly release and stop `MustParse`.
use dsh_work.Prelude.{◌^◌, ◌≡◌, refl, subst, true, false, [], arith}
use dsh_work.Release.Text.{Text, is_empty, trim_space, all_digits, has_leading_zero}
use dsh_work.Release.Version.{Version, base, has_stage, Result, ok, err, nightly, is_valid}
use dsh_work.Release.Version.Parse.{parse, max_numeric_identifier, is_run_id}
use dsh_work.Release.Version.Parse.Shape.{Always}
use dsh_work.Release.Version.Parse.RoundTrip.{triple}
use dsh_work.Release.Version.Parse.Printed.{triple-Always, IsPrinted, all_digits-run}
use dsh_work.Release.Compute.{
  Sign, done, panics, must, Options, compute, channel_release, nightly_release, nightly_base,
  next_base, next_patch_text, base_supersedes, nightly_version_text, normalise_date,
}
use dsh_work.Release.Compute.Identity.{nightly_version_text-IsPrinted, normalise_date-digits}
use dsh_work.Release.Compute.Outcomes.{Ensures}

must-panics :
    {A : Type 0} (P : A → Type 0) (r : Result A) → Always P r → ((a : A) → ¬ P a) → must r ≡ panics
must-panics P (ok a) h n = absurd (n a h)
must-panics P (err e) h n = refl

nightly_text-panics :
    (v : Version) (date run : Text)
    → all_digits date ≡ true
    → all_digits run ≡ true
    → has_leading_zero date ≡ true
    → must (parse (nightly_version_text (base v) date run)) ≡ panics
nightly_text-panics v date run d r z =
    must-panics
      (IsPrinted (v.major, v.minor, v.patch) (nightly_version_text (base v) date run) date run)
      (parse (nightly_version_text (base v) date run))
      (nightly_version_text-IsPrinted v date run d r) λ w h. ground arith

next_patch_text-panics :
    (last : Version)
    → last.patch ≡ max_numeric_identifier
    → must (parse (next_patch_text last)) ≡ panics
unfolding next_patch_text
next_patch_text-panics last e = rw e (
    must-panics _ (parse (triple last.major last.minor (2 ^ 63)))
      (triple-Always last.major last.minor (2 ^ 63)) λ w h. absurd (omega (arith, h.1.2)))

-- The inputs of a nightly release that pass the checks: a base, a date and a run id, and no version.
pub record Accepted (o : Options) (b : Version) (date : Text) : Type 0 where
  pub on_nightly : o.channel ≡ nightly
  pub reads_base : parse o.base ≡ ok b
  pub plain_base : has_stage b ≡ false
  pub bare_base : is_empty b.build ≡ true
  pub reads_date : normalise_date o.date ≡ done date
  pub reads_run : is_run_id (trim_space o.run_id) ≡ true
  pub no_version : is_empty (trim_space o.version) ≡ true

module _ (semver_compare : Text → Text → Sign) where
  compute-nightly_release :
      (o : Options) (b : Version) (date : Text)
      → Accepted o b date
      → nightly_release semver_compare o b ≡ panics
      → compute semver_compare o ≡ panics
  unfolding compute channel_release is_valid
  compute-nightly_release o b date a h =
      simp (a.on_nightly, a.reads_base, a.plain_base, a.bare_base, h) refl

  release-panics :
      (o : Options) (b : Version) (date : Text) (x : Version × Text)
      → Accepted o b date
      → nightly_base semver_compare o b ≡ done x
      → has_leading_zero date ≡ true
      → nightly_release semver_compare o b ≡ panics
  unfolding nightly_release
  release-panics o b date x a f z =
      let d : all_digits date ≡ true =
        subst (Ensures (λ d. all_digits d ≡ true)) a.reads_date (normalise_date-digits o.date) in
      let t =
        nightly_text-panics x.0 date (trim_space o.run_id) d
          (all_digits-run (trim_space o.run_id) a.reads_run) z in
      simp (a.reads_date, a.reads_run, a.no_version, f, t) refl

  base-panics :
      (o : Options) (b last : Version) (date : Text)
      → Accepted o b date
      → nightly_base semver_compare o b ≡ panics
      → nightly_release semver_compare o b ≡ panics
  unfolding nightly_release
  base-panics o b last date a f = simp (a.reads_date, a.reads_run, a.no_version, f) refl

  -- For a nightly release whose inputs pass the checks and that names no last stable version,
  -- `Compute` panics if the accepted date begins with a zero, that is for a year below 1000.
  pub early_year-panics :
      (o : Options) (b : Version) (date : Text)
      → Accepted o b date
      → is_empty (trim_space o.last_stable_version) ≡ true
      → has_leading_zero date ≡ true
      → compute semver_compare o ≡ panics
  unfolding nightly_base
  early_year-panics o b date a e z =
      compute-nightly_release o b date a (release-panics o b date (b, []) a (simp e refl) z)

  -- For a nightly release whose inputs pass the checks, `Compute` panics if the last stable version,
  -- which is read as one, has the patch number 2^63 - 1 and is not superseded by the base.
  pub last_patch-panics :
      (o : Options) (b last : Version) (date : Text)
      → Accepted o b date
      → is_empty (trim_space o.last_stable_version) ≡ false
      → parse (trim_space o.last_stable_version) ≡ ok last
      → has_stage last ≡ false
      → last.patch ≡ max_numeric_identifier
      → base_supersedes semver_compare b last ≡ false
      → compute semver_compare o ≡ panics
  unfolding nightly_base next_base
  last_patch-panics o b last date a e f p m s =
      compute-nightly_release o b date a
        (base-panics o b last date a (simp (e, f, p, s, next_patch_text-panics last m) refl))
