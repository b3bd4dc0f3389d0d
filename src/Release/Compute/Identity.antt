-- ===== src/Release/Compute/Identity.antt =====
-- internal/release/compute.go: the parts of a computed release agree.
use dsh_work.Prelude.{
  ◌≤◌, ◌≡◌, refl, sym, subst, Bool, true, false, not, arith, Bool-cases, inl, inr,
}
use dsh_work.Release.Text.{Text, all_digits, is_empty, trim_space, without}
use dsh_work.Release.Text.Parts.{same-eq}
use dsh_work.Release.Version.{
  Channel, stable, beta, nightly, other_channel, is_valid, Version, base, has_stage, same_base,
  channel, Result, ok, err, windows_file_version, windows_fields, windows_field_max, carries_build,
}
use dsh_work.Release.Version.Parse.{parse, parse_release, is_run_id, has_eight, plain}
use dsh_work.Release.Version.Parse.Shape.{Always, Always-check, Always-then}
use dsh_work.Release.Version.Parse.Printed.{
  parse-IsPrinted, nightly_version, IsPrinted, all_digits-run,
}
use dsh_work.Release.Compute.Outcomes.{
  Ensures, Ensures-bind, Ensures-then, Ensures-require, Ensures-accept, Ensures-must,
}
use dsh_work.Release.Compute.{
  Sign, Outcome, done, refused, panics, accept, must, Options, Release, normalise_date,
  is_calendar_date, stable_version, beta_version, is_beta, identified, nightly_version_text,
  compute, channel_release, with_file_version, nightly_release, nightly_base,
}

abbrev HasNoBuild : Version → Type 0
HasNoBuild v = is_empty v.build ≡ true

parse_release-HasNoBuild : (s : Text) → Always HasNoBuild (parse_release s)
unfolding parse_release
parse_release-HasNoBuild s =
    Always-then HasNoBuild (parse s) _
      λ v. Always-check HasNoBuild (is_empty v.build) carries_build _ λ h. h

-- A version of the channel, without build metadata, on the base.
pub record Belongs (c : Channel) (b : Text) (v : Version) : Type 0 where
  pub on_channel : channel v ≡ c
  pub bare : is_empty v.build ≡ true
  pub on_base : base v ≡ b

same_base-base : (v w : Version) → same_base v w ≡ true → base v ≡ base w
unfolding same_base
same_base-base v w h = same-eq (base v) (base w) (ground arith)

channel-stable : (v : Version) → has_stage v ≡ false → channel v ≡ stable
unfolding channel has_stage
channel-stable v h = ground arith

channel-beta : (v : Version) → is_beta v ≡ true → channel v ≡ beta
unfolding channel is_beta
channel-beta v h = ground arith

not-false : (b : Bool) → not b ≡ true → b ≡ false
not-false b h = ground arith

stable_version-Belongs :
    (o : Options) (b : Version)
    → has_stage b ≡ false
    → is_empty b.build ≡ true
    → Ensures (Belongs stable (base b)) (stable_version o b)
unfolding stable_version
stable_version-Belongs o b p n = elim (Bool-cases (is_empty (trim_space o.version))) [
  | inl e ↦ rw e (record { on_channel = channel-stable b p; bare = n; on_base = refl })
  | inr e ↦ rw e (
      Ensures-bind HasNoBuild _ _ _
        (Ensures-accept HasNoBuild _ (parse_release-HasNoBuild o.version))
        λ v h. Ensures-require _ (not (has_stage v)) _ λ q. Ensures-require _ (same_base v b) _ λ s.
          record {
            on_channel = channel-stable v (not-false (has_stage v) q);
            bare = h;
            on_base = same_base-base v b s;
          })
]

beta_version-Belongs :
    (o : Options) (b : Version) → Ensures (Belongs beta (base b)) (beta_version o b)
unfolding beta_version
beta_version-Belongs o b = Ensures-require _ (not (is_empty (trim_space o.version))) _ λ e.
    Ensures-bind HasNoBuild _ _ _
      (Ensures-accept HasNoBuild _ (parse_release-HasNoBuild (trim_space o.version)))
      λ v h. Ensures-require _ (is_beta v) _ λ q.
        Ensures-require _ (same_base v b) _
          λ s. record { on_channel = channel-beta v q; bare = h; on_base = same_base-base v b s }

is_calendar_date-digits : (s : Text) → is_calendar_date s ≡ true → all_digits s ≡ true
unfolding is_calendar_date
is_calendar_date-digits s h = ground arith

pub normalise_date-digits : (s : Text) → Ensures (λ d. all_digits d ≡ true) (normalise_date s)
unfolding normalise_date
normalise_date-digits s = Ensures-require _ (not (is_empty (trim_space s))) _ λ e.
    Ensures-require _ (has_eight (without b'-' (trim_space s))) _ λ h.
      Ensures-require _ (is_calendar_date (without b'-' (trim_space s))) _
        λ c. is_calendar_date-digits (without b'-' (trim_space s)) c

pub nightly_version_text-IsPrinted :
    (v : Version) (date run : Text)
    → all_digits date ≡ true
    → all_digits run ≡ true
    → let s = nightly_version_text (base v) date run in
      Always (IsPrinted (v.major, v.minor, v.patch) s date run) (parse s)
unfolding nightly_version_text base
nightly_version_text-IsPrinted v date run = parse-IsPrinted v.major v.minor v.patch date run

nightly_version-Belongs :
    (v : Version) (raw date run : Text)
    → Belongs nightly (base v) (nightly_version (v.major, v.minor, v.patch) raw date run)
unfolding base channel plain is_empty
nightly_version-Belongs v raw date run = record { on_channel = refl; bare = refl; on_base = refl }

-- The version of a release belongs to its channel and its base, and the channel is the one asked for.
abbrev pub Agrees : Options → Release → Type 0
Agrees o r = Belongs o.channel r.base r.version × (r.channel ≡ o.channel)

windows_file_version-fits :
    (v : Version) (t : Text)
    → windows_file_version v ≡ ok t
    → (v.major ≤ windows_field_max) × (v.minor ≤ windows_field_max) × (v.patch ≤ windows_field_max)
unfolding windows_file_version windows_fields
windows_file_version-fits v t h = ground arith

accept-done : {A : Type 0} (r : Result A) (a : A) → accept r ≡ done a → r ≡ ok a
accept-done (ok b) a h = ground arith
accept-done (err e) a h = absurd (ground arith)

-- The numbers fit in 16 bits, and the file version is that of the version.
abbrev pub HasFields : Release → Type 0
HasFields r =
    (r.version.major ≤ windows_field_max)
    × (r.version.minor ≤ windows_field_max)
    × (r.version.patch ≤ windows_field_max)
    × (windows_file_version r.version ≡ ok r.file_version)

with_file_version-HasFields :
    (o : Options) (r : Release)
    → Agrees o r
    → Ensures (λ q. Agrees o q × HasFields q) (with_file_version r)
unfolding with_file_version
with_file_version-HasFields o r h =
    Ensures-then (λ q. Agrees o q × HasFields q) (accept (windows_file_version r.version)) _
      λ t e.
        let f = accept-done (windows_file_version r.version) t e in
        let w = windows_file_version-fits r.version t f in (h, (w.0, w.1, w.2, f))

module _ (semver_compare : Text → Text → Sign) where
  -- What a nightly release is made of.
  abbrev pub MadeFrom : Options → Version → Release → Type 0
  MadeFrom o b r =
      (x : Version × Text) × (nightly_base semver_compare o b ≡ done x)
      × (r.version
          ≡ nightly_version (x.0.major, x.0.minor, x.0.patch) r.version.raw r.date r.run_id)
      × (r.base ≡ base x.0)
      × (r.channel ≡ o.channel)
      × (r.last_stable_base ≡ x.1)

  pub nightly_release-MadeFrom :
      (o : Options) (b : Version) → Ensures (MadeFrom o b) (nightly_release semver_compare o b)
  unfolding nightly_release identified plain
  nightly_release-MadeFrom o b =
      Ensures-bind (λ d. all_digits d ≡ true) _ _ _ (normalise_date-digits o.date)
        λ date d. Ensures-require _ (is_run_id (trim_space o.run_id)) _ λ run.
          Ensures-require _ (is_empty (trim_space o.version)) _ λ e.
            Ensures-then _ (nightly_base semver_compare o b) _ λ x f.
              let text = nightly_version_text (base x.0) date (trim_space o.run_id) in
              let run_text = trim_space o.run_id in
              let P = IsPrinted (x.0.major, x.0.minor, x.0.patch) text date run_text in
              Ensures-bind P (MadeFrom o b) (must (parse text))
                (λ w. done (identified o w x.0 date run_text x.1))
                (Ensures-must P (parse text) (
                  nightly_version_text-IsPrinted x.0 date run_text d (all_digits-run run_text run)))
                λ w h. (x, f, rw h.0 refl, refl, refl, refl)

  MadeFrom-Agrees :
      (o : Options) (b : Version) (m : Outcome Release)
      → o.channel ≡ nightly
      → Ensures (MadeFrom o b) m
      → Ensures (Agrees o) m
  MadeFrom-Agrees o b (done r) c (x, f, v, e, k, l) = (
    subst (λ w. Belongs o.channel r.base w) (sym v)
        (rw (c, e) (nightly_version-Belongs x.0 r.version.raw r.date r.run_id)),
    k,
  )
  MadeFrom-Agrees o b refused c h = tt
  MadeFrom-Agrees o b panics c h = tt

  release-Agrees :
      (o : Options) (b : Version) (c : Channel)
      → has_stage b ≡ false
      → is_empty b.build ≡ true
      → o.channel ≡ c
      → Ensures (Agrees o) (channel_release semver_compare o b c)
  unfolding channel_release identified
  release-Agrees o b stable p n e =
      Ensures-bind (Belongs stable (base b)) (Agrees o) (stable_version o b) _
        (stable_version-Belongs o b p n) λ v h. (subst (λ c. Belongs c (base b) v) (sym e) h, refl)
  release-Agrees o b beta p n e =
      Ensures-bind (Belongs beta (base b)) (Agrees o) (beta_version o b) _
        (beta_version-Belongs o b) λ v h. (subst (λ c. Belongs c (base b) v) (sym e) h, refl)
  release-Agrees o b nightly p n e =
      MadeFrom-Agrees o b (nightly_release semver_compare o b) e (nightly_release-MadeFrom o b)
  release-Agrees o b (other_channel s) p n e = tt

  compute-Ensures :
      (o : Options) → Ensures (λ r. Agrees o r × HasFields r) (compute semver_compare o)
  unfolding compute
  compute-Ensures o =
      let Q = λ (r : Release). Agrees o r × HasFields r in
      Ensures-require Q (is_valid o.channel) _ λ valid.
        Ensures-then Q (accept (parse o.base)) _ λ b e. Ensures-require Q (not (has_stage b)) _ λ p.
          Ensures-require Q (is_empty b.build) _ λ n.
            Ensures-bind (Agrees o) Q (channel_release semver_compare o b o.channel) _
              (release-Agrees o b o.channel (not-false (has_stage b) p) n refl)
              λ r h. with_file_version-HasFields o r h

  -- If `Compute` returns a release, whatever the comparison of semver says: its channel is the one
  -- asked for and that of its version, its base is the base of its version, which carries no build
  -- metadata, its three numbers fit in 16 bits, and its file version is the version's.
  pub compute-Agrees :
      (o : Options) (r : Release) → compute semver_compare o ≡ done r → Agrees o r × HasFields r
  compute-Agrees o r h = subst (Ensures (λ q. Agrees o q × HasFields q)) h (compute-Ensures o)
