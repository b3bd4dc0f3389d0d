-- ===== src/Release/Version/Parse/Printed.antt =====
-- internal/release: what `Parse` makes of the texts that `Compute` prints.
use dsh_work.Prelude.{
  ℕ, ◌≤◌, ◌≡◌, refl, ap, ◌∙◌, sym, true, false, [], ◌∷◌, ◌++◌, arith, append_assoc,
}
use dsh_work.Prelude.Space.{is_space}
use dsh_work.Release.Text.{
  Text, all_digits, is_digit, is_empty, split, same, decimal, has_leading_zero,
}
use dsh_work.Release.Text.Reading.{value-decimal}
use dsh_work.Release.Text.Parts.{
  lacks, lacks_space, lacks-append, lacks_space-append, lacks-digits, lacks_space-digits, cut-lacks,
  cut-append, split-lacks, split-append,
}
use dsh_work.Release.Version.{
  Version, within, nightly_stage, nightly_text, bad_number, bad_date, bad_run_id,
}
use dsh_work.Release.Version.Parse.{
  parse, parse_raw, parse_parts, read_build, read_prerelease, read_core, read_pre, read_stage,
  read_nightly, plain, parse_numeric_identifier, parse_uint, max_numeric_identifier, has_eight,
  is_run_id, valid_identifiers,
}
use dsh_work.Release.Version.Parse.Shape.{
  Always, Always-bind, Always-check, Always-within, Always-then, Fits,
}
use dsh_work.Release.Version.Parse.RoundTrip.{
  triple, split-triple, lacks-triple, lacks_space-triple, parse-raw,
}

abbrev Is : ℕ → ℕ → Type 0
Is n m = (m ≡ n) × (n ≤ max_numeric_identifier)

parse_numeric_identifier-Is : (n : ℕ) → Always (Is n) (parse_numeric_identifier (decimal n))
unfolding parse_numeric_identifier parse_uint
parse_numeric_identifier-Is n = ground (arith, value-decimal n)

read-Is : (n : ℕ) → Always (Is n) (within bad_number (parse_numeric_identifier (decimal n)))
read-Is n = Always-within (Is n) bad_number _ (parse_numeric_identifier-Is n)

abbrev pub AreRead : ℕ × ℕ × ℕ → ℕ × ℕ × ℕ → Type 0
AreRead n m = (m ≡ n) × Fits n

read_core-AreRead :
    (a b c : ℕ) → Always (AreRead (a, b, c)) (read_core (decimal a ∷ decimal b ∷ decimal c ∷ []))
unfolding read_core
read_core-AreRead a b c = Always-bind (Is a) (AreRead (a, b, c)) _ _ (read-Is a) λ x p.
    Always-bind (Is b) (AreRead (a, b, c)) _ _ (read-Is b) λ y q.
      Always-bind (Is c) (AreRead (a, b, c)) _ _ (read-Is c)
        λ z r. (rw (p.0, q.0, r.0) refl, (p.1, q.1, r.1))

AreRead-triple : (a b c : ℕ) → Always (AreRead (a, b, c)) (read_core (split b'.' (triple a b c)))
AreRead-triple a b c = rw (split-triple a b c) (read_core-AreRead a b c)

-- A printed base is refused, or read as what it prints.
pub triple-Always :
    (a b c : ℕ)
    → Always (λ v. (v ≡ plain (triple a b c) [] (a, b, c)) × Fits (a, b, c)) (parse (triple a b c))
unfolding parse_raw parse_parts read_build read_prerelease read_pre is_empty
triple-Always a b c =
    rw
      (
        parse-raw a (b'.' ∷ (decimal b ++ b'.' ∷ decimal c)) (lacks_space-triple a b c),
        cut-lacks b'+' (triple a b c) (lacks-triple b'+' a b c (unfold is_digit in refl) refl),
        cut-lacks b'-' (triple a b c) (lacks-triple b'-' a b c (unfold is_digit in refl) refl),
      )
      (Always-bind (AreRead (a, b, c)) _ _ _ (AreRead-triple a b c)
        λ n h. (ap (plain (triple a b c) []) h.0, h.1))

abbrev nightly_part : Text → Text → Text
nightly_part date run = nightly_text ++ b'.' ∷ (date ++ b'.' ∷ run)

abbrev pub nightly_version : ℕ × ℕ × ℕ → Text → Text → Text → Version
nightly_version n raw date run = record (plain raw [] n) {
  stage = nightly_stage;
  date = date;
  run_id = run;
}

pub all_digits-run : (s : Text) → is_run_id s ≡ true → all_digits s ≡ true
unfolding is_run_id all_digits is_digit
all_digits-run [] h = refl
all_digits-run (c ∷ s) h = ground arith

split-nightly_part :
    (date run : Text)
    → all_digits date ≡ true
    → all_digits run ≡ true
    → split b'.' (nightly_part date run) ≡ nightly_text ∷ date ∷ run ∷ []
split-nightly_part date run d r =
    rw
      (
        split-append b'.' nightly_text (date ++ b'.' ∷ run) refl,
        split-append b'.' date run (lacks-digits b'.' date (unfold is_digit in refl) d),
        split-lacks b'.' run (lacks-digits b'.' run (unfold is_digit in refl) r),
      )
      refl

lacks_plus-nightly_part :
    (date run : Text)
    → all_digits date ≡ true
    → all_digits run ≡ true
    → lacks b'+' (nightly_part date run) ≡ true
lacks_plus-nightly_part date run d r =
    rw
      (
        lacks-append b'+' date (b'.' ∷ run),
        lacks-digits b'+' date (unfold is_digit in refl) d,
        lacks-digits b'+' run (unfold is_digit in refl) r,
      )
      refl

lacks_space-nightly_part :
    (date run : Text)
    → all_digits date ≡ true
    → all_digits run ≡ true
    → lacks_space (nightly_part date run) ≡ true
unfolding is_space
lacks_space-nightly_part date run d r =
    rw (lacks_space-append date (b'.' ∷ run), lacks_space-digits date d, lacks_space-digits run r)
      refl

abbrev pub IsPrinted : ℕ × ℕ × ℕ → Text → Text → Text → Version → Type 0
IsPrinted n raw date run v = (v ≡ nightly_version n raw date run) × (has_leading_zero date ≡ false)

HasNoLeadingZero : Text → ℕ → Type 0
HasNoLeadingZero s n = has_leading_zero s ≡ false

parse_numeric_identifier-HasNoLeadingZero :
    (s : Text) → Always (HasNoLeadingZero s) (parse_numeric_identifier s)
unfolding parse_numeric_identifier parse_uint HasNoLeadingZero
parse_numeric_identifier-HasNoLeadingZero s = ground arith

read_nightly-IsPrinted :
    (n : ℕ × ℕ × ℕ) (raw date run : Text)
    → Always
        (IsPrinted n raw date run)
        (read_stage (plain raw [] n) (nightly_text ∷ date ∷ run ∷ []))
unfolding read_stage read_nightly same
read_nightly-IsPrinted n raw date run =
    Always-check (IsPrinted n raw date run) (has_eight date) bad_date _ λ eight.
      Always-bind (HasNoLeadingZero date) (IsPrinted n raw date run)
        (within bad_date (parse_numeric_identifier date)) _
        (Always-within (HasNoLeadingZero date) bad_date (parse_numeric_identifier date)
          (parse_numeric_identifier-HasNoLeadingZero date))
        λ k h.
          Always-check (IsPrinted n raw date run) (is_run_id run) bad_run_id _
            λ r. (refl, unfold HasNoLeadingZero in h)

-- The printed text of a nightly version is refused, or read as what it prints.
pub parse-IsPrinted :
    (a b c : ℕ) (date run : Text)
    → all_digits date ≡ true
    → all_digits run ≡ true
    → let s = triple a b c ++ b'-' ∷ nightly_part date run in
      Always (IsPrinted (a, b, c) s date run) (parse s)
unfolding parse_raw parse_parts read_build read_prerelease read_pre is_empty
parse-IsPrinted a b c date run d r =
    let s = triple a b c ++ b'-' ∷ nightly_part date run in
    let front : s
        ≡ decimal a ++ (b'.' ∷ (decimal b ++ b'.' ∷ decimal c) ++ b'-' ∷ nightly_part date run) =
      append_assoc (decimal a) (b'.' ∷ (decimal b ++ b'.' ∷ decimal c))
        (b'-' ∷ nightly_part date run) in
    let spaces : lacks_space s ≡ true =
      lacks_space-append (triple a b c) (b'-' ∷ nightly_part date run)
      ∙ rw (lacks_space-triple a b c) (unfold is_space in lacks_space-nightly_part date run d r) in
    let plus : lacks b'+' s ≡ true =
      lacks-append b'+' (triple a b c) (b'-' ∷ nightly_part date run)
      ∙ rw (lacks-triple b'+' a b c (unfold is_digit in refl) refl)
          (lacks_plus-nightly_part date run d r) in
    let raw : parse s ≡ parse_raw s =
      ap parse front
      ∙ parse-raw a _ (ap lacks_space (sym front) ∙ spaces)
      ∙ ap parse_raw (sym front) in
    rw
      (
        raw,
        cut-lacks b'+' s plus,
        cut-append b'-' (triple a b c) (nightly_part date run)
            (lacks-triple b'-' a b c (unfold is_digit in refl) refl),
      )
      (Always-bind (AreRead (a, b, c)) _ _ _ (AreRead-triple a b c) λ n h.
        Always-then _ (valid_identifiers true (nightly_part date run)) _ λ u.
          rw (h.0, split-nightly_part date run d r) (read_nightly-IsPrinted (a, b, c) s date run))
