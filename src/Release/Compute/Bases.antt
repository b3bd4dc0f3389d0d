-- ===== src/Release/Compute/Bases.antt =====
-- internal/release/compute.go: the base of a nightly release, and the inputs that `MustParse` meets.
use dsh_work.Prelude.{
  ℕ, ◌+◌, ◌%◌, ◌^◌, ◌≤◌, ◌<◌, ◌≡◌, refl, ap, ◌∙◌, sym, subst, true, false, not, ◌||◌, ◌↔◌, ◌⊎◌, [],
  ◌∷◌, ◌++◌, arith, Bool-cases, inl, inr,
}
use dsh_work.Release.Text.{Text, is_empty, trim_space, decimal}
use dsh_work.Release.Text.Reading.{is_empty-decimal}
use dsh_work.Release.Version.{Version, base, is_zero, has_stage, Result, ok, err, nightly}
use dsh_work.Release.Version.Parse.{parse, plain, max_numeric_identifier}
use dsh_work.Release.Version.Parse.Shape.{Always, Fits, parse-WellFormed}
use dsh_work.Release.Version.Parse.RoundTrip.{triple, is_empty-digits}
use dsh_work.Release.Version.Parse.Printed.{triple-Always}
use dsh_work.Release.Compute.{
  Sign, is_positive, done, accept, Options, Release, compute, channel_release, nightly_release,
  nightly_base, next_base, next_patch_text, base_supersedes, supersedes_read, compare_versions,
  canonical, with_file_version, is_valid, windows_file_version,
}
use dsh_work.Release.Compute.Identity.{MadeFrom, nightly_release-MadeFrom}
use dsh_work.Release.Compute.Outcomes.{
  Ensures, Ensures-bind, Ensures-then, Ensures-require, Ensures-must, Ensures-weaken,
}

-- One base comes after another.
abbrev pub Above : ℕ × ℕ × ℕ → ℕ × ℕ × ℕ → Type 0
Above (a, b, c) (a', b', c') = (a' < a) ⊎ ((a ≡ a') × ((b' < b) ⊎ ((b ≡ b') × (c' < c))))

abbrev pub numbers : Version → ℕ × ℕ × ℕ
numbers v = (v.major, v.minor, v.patch)

-- The documented behaviour of semver's comparison on versions of three numbers.
abbrev pub OrdersBases : (Text → Text → Sign) → Type 0
OrdersBases semver_compare =
    (a b c a' b' c' : ℕ)
    → (is_positive (semver_compare (b'v' ∷ triple a b c) (b'v' ∷ triple a' b' c')) ≡ true)
      ↔ Above (a, b, c) (a', b', c')

Always-weaken :
    {A : Type 0} (P Q : A → Type 0) (r : Result A) → Always P r → ((a : A) → P a → Q a) → Always Q r
Always-weaken P Q (ok a) h k = k a h
Always-weaken P Q (err e) h k = tt

Above-next :
    (v : Version) (a b c : ℕ)
    → v ≡ plain (triple a b (c + 1)) [] (a, b, c + 1)
    → Above (numbers v) (a, b, c)
unfolding plain
Above-next v a b c h = rw h (inr (refl, inr (refl, omega arith)))

ok-injective : {A : Type 0} (a b : A) → Result.ok a ≡ ok b → a ≡ b
ok-injective a b h = ground arith

next-Above : (a b c : ℕ) → Always (λ v. Above (numbers v) (a, b, c)) (parse (triple a b (c + 1)))
next-Above a b c =
    Always-weaken (λ v. (v ≡ plain (triple a b (c + 1)) [] (a, b, c + 1)) × Fits (a, b, c + 1))
      (λ v. Above (numbers v) (a, b, c)) (parse (triple a b (c + 1))) (triple-Always a b (c + 1))
      λ v h. Above-next v a b c h.0

with_file_version-keeps :
    (P : Version → Type 0) (r : Release)
    → P r.version
    → Ensures (λ q. P q.version) (with_file_version r)
unfolding with_file_version
with_file_version-keeps P r h =
    Ensures-then (λ q. P q.version) (accept (windows_file_version r.version)) _ λ t e. h

module _ (semver_compare : Text → Text → Sign) (orders : OrdersBases semver_compare) where
  compare-plain :
      (a b c a' b' c' : ℕ)
      → compare_versions semver_compare
          (plain (triple a b c) [] (a, b, c))
          (plain (triple a' b' c') [] (a', b', c'))
        ≡ semver_compare (b'v' ∷ triple a b c) (b'v' ∷ triple a' b' c')
  unfolding compare_versions canonical is_zero plain is_empty
  compare-plain a b c a' b' c' =
      rw
        (
          is_empty-digits (decimal a) (b'.' ∷ (decimal b ++ b'.' ∷ decimal c)) (is_empty-decimal a),
          is_empty-digits (decimal a') (b'.' ∷ (decimal b' ++ b'.' ∷ decimal c'))
              (is_empty-decimal a'),
        )
        refl

  supersedes_read-Above :
      (a b c a' b' c' : ℕ) (x y : Result Version)
      → Always (λ v. (v ≡ plain (triple a b c) [] (a, b, c)) × Fits (a, b, c)) x
      → Always (λ v. (v ≡ plain (triple a' b' c') [] (a', b', c')) × Fits (a', b', c')) y
      → supersedes_read semver_compare x y ≡ true
      → Above (a, b, c) (a', b', c')
  unfolding supersedes_read
  supersedes_read-Above a b c a' b' c' (ok v) (ok w) (p, f) (q, g) h =
      (orders a b c a' b' c').0
        (ap is_positive (sym (compare-plain a b c a' b' c')) ∙ (rw (p, q) at h))
  supersedes_read-Above a b c a' b' c' (ok v) (err e) p q h = absurd (ground arith)
  supersedes_read-Above a b c a' b' c' (err e) y p q h = absurd (ground arith)

  base_supersedes-Above :
      (v w : Version) → base_supersedes semver_compare v w ≡ true → Above (numbers v) (numbers w)
  unfolding base_supersedes base
  base_supersedes-Above v w h = elim (Bool-cases (is_zero v || is_zero w)) [
    | inl z ↦ absurd (ground arith)
    | inr z ↦
        supersedes_read-Above v.major v.minor v.patch w.major w.minor w.patch _ _
          (triple-Always v.major v.minor v.patch) (triple-Always w.major w.minor w.patch)
          (rw z at h)
  ]

  next_base-Above :
      (b last : Version)
      → last.patch ≤ max_numeric_identifier
      → Ensures (λ v. Above (numbers v) (numbers last)) (next_base semver_compare b last)
  unfolding next_base next_patch_text
  next_base-Above b last fits = elim (Bool-cases (base_supersedes semver_compare b last)) [
    | inl above ↦ rw above (base_supersedes-Above b last above)
    | inr below ↦
        let n : (last.patch + 1) % 2 ^ 64 ≡ last.patch + 1 = grind arith in
        rw (below, n)
          (Ensures-must (λ v. Above (numbers v) (numbers last))
            (parse (triple last.major last.minor (last.patch + 1)))
            (next-Above last.major last.minor last.patch))
  ]

  nightly_base-Above :
      (o : Options) (b last : Version)
      → is_empty (trim_space o.last_stable_version) ≡ false
      → parse (trim_space o.last_stable_version) ≡ ok last
      → Ensures
          (λ x. Above (numbers x.0) (numbers last) × (x.1 ≡ base last))
          (nightly_base semver_compare o b)
  unfolding nightly_base
  nightly_base-Above o b last e f =
      rw (e, f)
        (Ensures-require _ (not (has_stage last)) _ λ p.
          Ensures-bind (λ v. Above (numbers v) (numbers last))
            (λ x. Above (numbers x.0) (numbers last) × (x.1 ≡ base last))
            (next_base semver_compare b last) (λ v. done (v, base last))
            (next_base-Above b last
              (parse-WellFormed (trim_space o.last_stable_version) last f).patch_fits)
            λ v h. (h, refl))

  MadeFrom-Above :
      (o : Options) (b last : Version) (r : Release)
      → is_empty (trim_space o.last_stable_version) ≡ false
      → parse (trim_space o.last_stable_version) ≡ ok last
      → MadeFrom semver_compare o b r
      → Above (numbers r.version) (numbers last)
  unfolding plain
  MadeFrom-Above o b last r e f (x, g, v, _, _, _) =
      rw v
        (subst (Ensures (λ x. Above (numbers x.0) (numbers last) × (x.1 ≡ base last))) g
          (nightly_base-Above o b last e f)).0

  nightly_release-Above :
      (o : Options) (b last : Version)
      → is_empty (trim_space o.last_stable_version) ≡ false
      → parse (trim_space o.last_stable_version) ≡ ok last
      → Ensures (λ r. Above (numbers r.version) (numbers last)) (nightly_release semver_compare o b)
  nightly_release-Above o b last e f =
      Ensures-weaken (MadeFrom semver_compare o b) (λ r. Above (numbers r.version) (numbers last))
        (nightly_release semver_compare o b) (nightly_release-MadeFrom semver_compare o b)
        λ r h. MadeFrom-Above o b last r e f h

  compute-Above :
      (o : Options) (last : Version)
      → o.channel ≡ nightly
      → is_empty (trim_space o.last_stable_version) ≡ false
      → parse (trim_space o.last_stable_version) ≡ ok last
      → Ensures (λ r. Above (numbers r.version) (numbers last)) (compute semver_compare o)
  unfolding compute channel_release
  compute-Above o last n e f =
      let P = λ (v : Version). Above (numbers v) (numbers last) in
      let Q = λ (r : Release). P r.version in
      Ensures-require Q (is_valid o.channel) _ λ valid.
        Ensures-then Q (accept (parse o.base)) _ λ b h. Ensures-require Q (not (has_stage b)) _ λ p.
          Ensures-require Q (is_empty b.build) _ λ q.
            Ensures-bind Q Q (channel_release semver_compare o b o.channel) with_file_version
              (subst (λ c. Ensures Q (channel_release semver_compare o b c)) (sym n)
                (nightly_release-Above o b last e f))
              λ r k. with_file_version-keeps P r k

  -- If semver orders versions of three numbers as its documentation says, and the text of the last
  -- stable version is not blank and is read as a version, then the numbers of a computed nightly
  -- version are above those of the last stable version, in lexicographic order.
  pub nightly-Above_stable :
      (o : Options) (last : Version) (r : Release)
      → o.channel ≡ nightly
      → is_empty (trim_space o.last_stable_version) ≡ false
      → parse (trim_space o.last_stable_version) ≡ ok last
      → compute semver_compare o ≡ done r
      → Above (numbers r.version) (numbers last)
  nightly-Above_stable o last r n e f h =
      subst (Ensures (λ q. Above (numbers q.version) (numbers last))) h (compute-Above o last n e f)
