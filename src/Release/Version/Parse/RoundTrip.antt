-- ===== src/Release/Version/Parse/RoundTrip.antt =====
-- internal/release/version.go: the base of a version is a version, and tells its numbers.
use dsh_work.Prelude.{
  ℕ, ◌≤◌, ◌≡◌, refl, ap, ◌∙◌, sym, true, false, List, [], ◌∷◌, ◌++◌, eqb, arith, ◌↔◌, suc, zero,
}
use dsh_work.Prelude.Space.{is_space}
use dsh_work.Release.Text.{Text, all_digits, is_digit, is_empty, split, trim_prefix, value, decimal}
use dsh_work.Release.Text.Reading.{
  value-decimal, all_digits-decimal, has_leading_zero-decimal, is_empty-decimal,
}
use dsh_work.Release.Text.Parts.{
  lacks, lacks_space, lacks-append, lacks_space-append, lacks-digits, lacks_space-digits, cut-lacks,
  split-lacks, split-append, trim_space-lacks_space, same_refl, same-eq,
}
use dsh_work.Release.Version.{Version, base, same_base, is_zero, ok}
use dsh_work.Release.Version.Parse.{
  parse, parse_raw, parse_parts, read_build, read_prerelease, read_core, read_pre, plain,
  parse_numeric_identifier, parse_uint, max_numeric_identifier,
}

-- A number in range is read back from its decimal print.
pub parse_numeric_identifier-decimal :
    (n : ℕ) → n ≤ max_numeric_identifier → parse_numeric_identifier (decimal n) ≡ ok n
unfolding parse_numeric_identifier parse_uint
parse_numeric_identifier-decimal n h =
    rw (is_empty-decimal n, all_digits-decimal n, has_leading_zero-decimal n, value-decimal n)
      (ground arith)

abbrev pub triple : ℕ → ℕ → ℕ → Text
triple a b c = decimal a ++ b'.' ∷ (decimal b ++ b'.' ∷ decimal c)

pub lacks-triple :
    (d a b c : ℕ) → is_digit d ≡ false → eqb b'.' d ≡ false → lacks d (triple a b c) ≡ true
lacks-triple d a b c n p =
    rw
      (
        lacks-append d (decimal a) (b'.' ∷ (decimal b ++ b'.' ∷ decimal c)),
        lacks-append d (decimal b) (b'.' ∷ decimal c),
        lacks-digits d (decimal a) n (all_digits-decimal a),
        lacks-digits d (decimal b) n (all_digits-decimal b),
        lacks-digits d (decimal c) n (all_digits-decimal c),
        p,
      )
      refl

pub lacks_space-triple : (a b c : ℕ) → lacks_space (triple a b c) ≡ true
lacks_space-triple a b c =
    rw
      (
        lacks_space-append (decimal a) (b'.' ∷ (decimal b ++ b'.' ∷ decimal c)),
        lacks_space-append (decimal b) (b'.' ∷ decimal c),
        lacks_space-digits (decimal a) (all_digits-decimal a),
        lacks_space-digits (decimal b) (all_digits-decimal b),
        lacks_space-digits (decimal c) (all_digits-decimal c),
      )
      (unfold is_space in refl)

pub lacks_dot-decimal : (a : ℕ) → lacks b'.' (decimal a) ≡ true
lacks_dot-decimal a = lacks-digits b'.' (decimal a) (unfold is_digit in refl) (all_digits-decimal a)

pub split-triple : (a b c : ℕ) → split b'.' (triple a b c) ≡ decimal a ∷ decimal b ∷ decimal c ∷ []
split-triple a b c =
    rw
      (
        split-append b'.' (decimal a) (decimal b ++ b'.' ∷ decimal c) (lacks_dot-decimal a),
        split-append b'.' (decimal b) (decimal c) (lacks_dot-decimal b),
        split-lacks b'.' (decimal c) (lacks_dot-decimal c),
      )
      refl

pub read_core-triple :
    (a b c : ℕ)
    → a ≤ max_numeric_identifier
    → b ≤ max_numeric_identifier
    → c ≤ max_numeric_identifier
    → read_core (split b'.' (triple a b c)) ≡ ok (a, b, c)
unfolding read_core
read_core-triple a b c ha hb hc =
    rw
      (
        split-triple a b c,
        parse_numeric_identifier-decimal a ha,
        parse_numeric_identifier-decimal b hb,
        parse_numeric_identifier-decimal c hc,
      )
      refl

-- A text of digits in front keeps what follows from being trimmed.
pub trim_prefix-digits :
    (d : ℕ) (s t : Text)
    → is_digit d ≡ false
    → all_digits s ≡ true
    → is_empty s ≡ false
    → trim_prefix d (s ++ t) ≡ s ++ t
unfolding trim_prefix all_digits is_empty is_digit
trim_prefix-digits d [] t n h e = ground arith
trim_prefix-digits d (c ∷ s) t n h e = ground arith

pub is_empty-digits : (s t : Text) → is_empty s ≡ false → is_empty (s ++ t) ≡ false
unfolding is_empty
is_empty-digits [] t e = ground arith
is_empty-digits (c ∷ s) t e = refl

pub parse-raw :
    (a : ℕ) (t : Text)
    → lacks_space (decimal a ++ t) ≡ true
    → parse (decimal a ++ t) ≡ parse_raw (decimal a ++ t)
unfolding parse
parse-raw a t h =
    rw
      (
        trim_space-lacks_space (decimal a ++ t) h,
        is_empty-digits (decimal a) t (is_empty-decimal a),
        trim_prefix-digits b'v' (decimal a) t (unfold is_digit in refl) (all_digits-decimal a)
            (is_empty-decimal a),
        trim_prefix-digits b'V' (decimal a) t (unfold is_digit in refl) (all_digits-decimal a)
            (is_empty-decimal a),
      )
      refl

pub parse-triple :
    (a b c : ℕ)
    → a ≤ max_numeric_identifier
    → b ≤ max_numeric_identifier
    → c ≤ max_numeric_identifier
    → parse (triple a b c) ≡ ok (plain (triple a b c) [] (a, b, c))
unfolding parse_raw parse_parts read_build read_prerelease read_pre is_empty
parse-triple a b c ha hb hc =
    parse-raw a (b'.' ∷ (decimal b ++ b'.' ∷ decimal c)) (lacks_space-triple a b c)
    ∙ rw
        (
          cut-lacks b'+' (triple a b c) (lacks-triple b'+' a b c (unfold is_digit in refl) refl),
          cut-lacks b'-' (triple a b c) (lacks-triple b'-' a b c (unfold is_digit in refl) refl),
          read_core-triple a b c ha hb hc,
        )
        refl

-- The base of a version whose numbers are in range is read as the version without a stage and
-- without build metadata that has these numbers.
pub parse-base :
    (v : Version)
    → v.major ≤ max_numeric_identifier
    → v.minor ≤ max_numeric_identifier
    → v.patch ≤ max_numeric_identifier
    → parse (base v) ≡ ok (plain (base v) [] (v.major, v.minor, v.patch))
unfolding base
parse-base v ha hb hc = parse-triple v.major v.minor v.patch ha hb hc

abbrev part : ℕ → List Text → ℕ
part n [] = 0
part zero (s ∷ rest) = value 0 s
part (suc n) (s ∷ rest) = part n rest

triple-numbers :
    (a b c a' b' c' : ℕ) → triple a b c ≡ triple a' b' c' → (a ≡ a') × (b ≡ b') × (c ≡ c')
triple-numbers a b c a' b' c' e =
    let l = sym (split-triple a b c) ∙ ap (split b'.') e ∙ split-triple a' b' c' in
    (
      sym (value-decimal a) ∙ ap (part 0) l ∙ value-decimal a',
      sym (value-decimal b) ∙ ap (part 1) l ∙ value-decimal b',
      sym (value-decimal c) ∙ ap (part 2) l ∙ value-decimal c',
    )

-- Two versions with a text have the same base exactly if their three numbers agree.
pub same_base_iff :
    (v w : Version)
    → is_zero v ≡ false
    → is_zero w ≡ false
    → (same_base v w ≡ true) ↔ ((v.major ≡ w.major) × (v.minor ≡ w.minor) × (v.patch ≡ w.patch))
unfolding same_base base
same_base_iff v w hv hw = (
  λ h.
      triple-numbers v.major v.minor v.patch w.major w.minor w.patch
        (same-eq _ _ (rw (hv, hw) at h)),
  λ (p, q, r). rw (hv, hw, p, q, r) (same_refl (triple w.major w.minor w.patch)),
)
