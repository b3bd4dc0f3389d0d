-- ===== src/SelfUpdate/Bytes/Outcomes.antt =====
-- internal/selfupdate/pe.go: which reads of a slice do not panic.
use dsh_work.Prelude.{
  ℕ, zero, suc, ◌+◌, ◌-◌, ◌%◌, ◌^◌, ◌∙◌, ◌≤◌, ◌<◌, ◌≡◌, refl, ap, ◌⊎◌, inl, inr, Bool, true, false,
  ◌&&◌, Option, none, some, List, [], ◌∷◌, ltb, leb, length, get_elem?, arith, if◌then◌else◌,
}
use dsh_work.SelfUpdate.Bytes.{
  Slice, Read, got, bad, crashed, unfinished, ◌>>=◌, ◌>>◌, demand, attempt, contents, cut, cut_from,
  byte_at, present, u16, u32, u16_between, u32_between, u32_from, Rejection, drop_bytes,
}
use dsh_work.SelfUpdate.Version.{key_end}
use native.Mathlib.Numerals.{unary_clauses}

-- What holds of a result: a loop has not run out of its rounds, and a panic comes with a `C`.
abbrev pub Ensures : {A : Type 0} → Type 0 → (A → Type 0) → Read A → Type 0
Ensures C P (got x) = P x
Ensures C P (bad why) = Unit
Ensures C P crashed = C
Ensures C P unfinished = ⊥

abbrev pub Any : {A : Type 0} → A → Type 0
Any x = Unit

abbrev pub AllSome : {A : Type 0} → (A → Type 0) → Option A → Type 0
AllSome P none = Unit
AllSome P (some x) = P x

module _ (C : Type 0) where
  pub Ensures-bind :
      {A B : Type 0} (P : A → Type 0) (Q : B → Type 0) (first : Read A) (next : A → Read B)
      → Ensures C P first
      → ((x : A) → P x → Ensures C Q (next x))
      → Ensures C Q (first >>= next)
  Ensures-bind P Q (got x) next h k = k x h
  Ensures-bind P Q (bad why) next h k = tt
  Ensures-bind P Q crashed next h k = h
  Ensures-bind P Q unfinished next h k = h

  pub Ensures-demand :
      {B : Type 0} (Q : B → Type 0) (t : Bool) (why : Rejection) (next : Read B)
      → (t ≡ true → Ensures C Q next)
      → Ensures C Q (demand t why >> next)
  Ensures-demand Q true why next k = k refl
  Ensures-demand Q false why next k = tt

  pub Ensures-test : (t : Bool) (why : Rejection) → Ensures C Any (demand t why)
  Ensures-test true why = tt
  Ensures-test false why = tt

  pub Ensures-attempt :
      {A : Type 0} (P : A → Type 0) (first : Read A)
      → Ensures C P first
      → Ensures C (AllSome P) (attempt first)
  Ensures-attempt P (got x) h = h
  Ensures-attempt P (bad why) h = tt
  Ensures-attempt P crashed h = h
  Ensures-attempt P unfinished h = h

  pub Ensures-if :
      {B : Type 0} (Q : B → Type 0) (t : Bool) (x y : Read B)
      → (t ≡ true → Ensures C Q x)
      → (t ≡ false → Ensures C Q y)
      → Ensures C Q (if t then x else y)
  Ensures-if Q true x y h k = h refl
  Ensures-if Q false x y h k = k refl

  pub Ensures-Any :
      {A : Type 0} (P : A → Type 0) (first : Read A) → Ensures C P first → Ensures C Any first
  Ensures-Any P (got x) h = tt
  Ensures-Any P (bad why) h = tt
  Ensures-Any P crashed h = h
  Ensures-Any P unfinished h = h

-- The slice stands in its array.
abbrev pub Held : Slice → Type 0
Held s = s.size ≤ length s.array

pub length-drop_bytes : (n : ℕ) (bs : List ℕ) → length (drop_bytes n bs) ≡ length bs - n
unfolding drop_bytes
length-drop_bytes zero bs = omega arith
length-drop_bytes (suc n) [] = omega arith
length-drop_bytes (suc n) (b ∷ bs) = omega (arith, length-drop_bytes n bs)

drop_bytes-add : (m n : ℕ) (bs : List ℕ) → drop_bytes m (drop_bytes n bs) ≡ drop_bytes (n + m) bs
unfolding drop_bytes
drop_bytes-add m zero bs = let e : m ≡ 0 + m = omega arith in ap (λ (k : ℕ). drop_bytes k bs) e
drop_bytes-add zero (suc n) [] = simp unary_clauses refl
drop_bytes-add (suc m) (suc n) [] = simp unary_clauses refl
drop_bytes-add m (suc n) (b ∷ bs) =
    let e : suc (n + m) ≡ suc n + m = omega arith in
    drop_bytes-add m n bs ∙ ap (λ (k : ℕ). drop_bytes k (b ∷ bs)) e

-- A block of at least six bytes whose key is cut behind the end of the array.
pub record RunsOut (block : Slice) : Type 0 where
  pub long : 6 ≤ block.size
  pub behind : length block.array < key_end 6 (drop_bytes 6 (contents block)) + 2

-- `t` is what the slice sees from its byte `k` on, or a beginning of it.
pub record Stands (s : Slice) (k : ℕ) (t : Slice) : Type 0 where
  pub same : t.array ≡ drop_bytes k s.array
  pub inside : k + t.size ≤ s.size

-- The slice stands in its array, and a block in it whose key runs out comes with a `C`.
pub record Roomy (C : Type 0) (s : Slice) : Type 0 where
  pub within : Held s
  pub blame : (k : ℕ) (t : Slice) → Stands s k t → RunsOut t → C

pub record IsWhole (C : Type 0) (s : Slice) : Type 0 where
  pub held : Held s
  pub roomy : Roomy C s

-- What a part of a slice is.
pub record IsPart (C : Type 0) (s : Slice) (a b : ℕ) (t : Slice) : Type 0 where
  pub size : t.size ≡ b - a
  pub held : Held t
  pub roomy : b ≤ s.size → Roomy C t

pub IsPart-cut :
    (C : Type 0) (s : Slice) (a b : ℕ)
    → Roomy C s
    → a ≤ b
    → b ≤ length s.array
    → IsPart C s a b (record { array = drop_bytes a s.array; size = b - a })
IsPart-cut C s a b r h k = record {
  size = refl;
  held = omega (arith, length-drop_bytes a s.array);
  roomy = λ l. record {
    within = omega (arith, length-drop_bytes a s.array);
    blame = λ n t p.
        r.blame (a + n) t
          (record { same = p.same ∙ drop_bytes-add n a s.array; inside = omega (arith, p.inside) });
  };
}

pub Ensures-cut :
    (C : Type 0) (s : Slice) (a b : ℕ)
    → Roomy C s
    → a ≤ b
    → b ≤ s.size
    → Ensures C (IsPart C s a b) (cut s a b)
unfolding cut
Ensures-cut C s a b r h k =
    Ensures-if C (IsPart C s a b) (leb a b && leb b (length s.array)) _ _
      (λ e. IsPart-cut C s a b r h (ground arith)) (λ e. ground (arith, r.within))

-- The key of a block is cut, or runs out.
pub Ensures-cut_key :
    (C : Type 0) (s : Slice)
    → Roomy C s
    → 6 ≤ s.size
    → 6 ≤ key_end 6 (drop_bytes 6 (contents s))
    → Ensures C Any (cut s 6 (key_end 6 (drop_bytes 6 (contents s)) + 2))
unfolding cut
Ensures-cut_key C s r h k =
    let last = key_end 6 (drop_bytes 6 (contents s)) + 2 in
    Ensures-if C Any (leb 6 last && leb last (length s.array)) _ _ (λ e. tt)
      λ e.
        r.blame 0 s (record { same = unfold drop_bytes in refl; inside = omega arith })
          (record { long = h; behind = ground arith })

-- An end that is a sum of 32 bits, which does not wrap unless there is a `C`.
pub Ensures-cut_wrapped :
    (C : Type 0) (s : Slice) (a n : ℕ)
    → Roomy C s
    → a + n ≤ s.size
    → C ⊎ (s.size < 2 ^ 32)
    → Ensures C (Roomy C) (cut s a ((a + n) % 2 ^ 32))
unfolding cut
Ensures-cut_wrapped C s a n r h w =
    let b = (a + n) % 2 ^ 32 in
    Ensures-if C (Roomy C) (leb a b && leb b (length s.array)) _ _
      (λ e. (IsPart-cut C s a b r (ground arith) (ground arith)).roomy (omega arith))
      (λ e. elim w [
        | inl c ↦ c
        | inr l ↦
            let small : a + n < 2 ^ 32 = omega (arith, h, l) in
            let same : b ≡ a + n = omega (arith, small) in ground (arith, same, r.within)
      ])

pub Ensures-cut_from :
    (C : Type 0) (s : Slice) (a : ℕ)
    → Roomy C s
    → a ≤ s.size
    → Ensures C (IsPart C s a s.size) (cut_from s a)
unfolding cut_from
Ensures-cut_from C s a r h = Ensures-cut C s a s.size r h (omega arith)

Ensures-present :
    (C : Type 0) (bs : List ℕ) (i : ℕ) → i < length bs → Ensures C Any (present (get_elem? bs i))
unfolding present
Ensures-present C [] i h = ground arith
Ensures-present C (b ∷ bs) zero h = tt
Ensures-present C (b ∷ bs) (suc i) h = Ensures-present C bs i (omega arith)

pub Ensures-byte_at :
    (C : Type 0) (s : Slice) (i : ℕ) → Held s → i < s.size → Ensures C Any (byte_at s i)
unfolding byte_at
Ensures-byte_at C s i h k =
    Ensures-if C Any (ltb i s.size) _ _ (λ e. Ensures-present C s.array i (omega arith))
      (λ e. ground arith)

Ensures-u16 : (C : Type 0) (s : Slice) → Held s → 2 ≤ s.size → Ensures C Any (u16 s)
unfolding u16
Ensures-u16 C s h k =
    Ensures-bind C Any Any (byte_at s 0) _ (Ensures-byte_at C s 0 h (omega arith)) λ low i.
      Ensures-bind C Any Any (byte_at s 1) _ (Ensures-byte_at C s 1 h (omega arith)) λ high j. tt

Ensures-u32 : (C : Type 0) (s : Slice) → Held s → 4 ≤ s.size → Ensures C Any (u32 s)
unfolding u32
Ensures-u32 C s h k =
    Ensures-bind C Any Any (byte_at s 0) _ (Ensures-byte_at C s 0 h (omega arith)) λ a i.
      Ensures-bind C Any Any (byte_at s 1) _ (Ensures-byte_at C s 1 h (omega arith)) λ b i'.
        Ensures-bind C Any Any (byte_at s 2) _ (Ensures-byte_at C s 2 h (omega arith)) λ c i''.
          Ensures-bind C Any Any (byte_at s 3) _ (Ensures-byte_at C s 3 h (omega arith)) λ d j. tt

pub Ensures-u16_between :
    (C : Type 0) (s : Slice) (a b : ℕ)
    → Roomy C s
    → a + 2 ≤ b
    → b ≤ s.size
    → Ensures C Any (u16_between s a b)
unfolding u16_between
Ensures-u16_between C s a b r h k =
    Ensures-bind C (IsPart C s a b) Any (cut s a b) _ (Ensures-cut C s a b r (omega arith) k)
      λ t p. Ensures-u16 C t p.held (omega (arith, p.size))

-- Two bytes that may stand behind the slice are read from the array.
pub Ensures-u16_behind :
    (C : Type 0) (s : Slice) (a : ℕ)
    → (length s.array < a + 2 → C)
    → Ensures C Any (u16_between s a (a + 2))
unfolding u16_between cut
Ensures-u16_behind C s a c =
    let P = λ (t : Slice). Held t × (2 ≤ t.size) in
    Ensures-bind C P Any (cut s a (a + 2)) _
      (Ensures-if C P (leb a (a + 2) && leb (a + 2) (length s.array)) _ _
        (λ e. (ground (arith, length-drop_bytes a s.array), omega arith)) (λ e. c (ground arith)))
      λ t p. Ensures-u16 C t p.0 p.1

-- A result is what the reading gives.
pub Ensures-same :
    {A : Type 0} (C : Type 0) (P : A → Type 0) (m : Read A)
    → Ensures C P m
    → Ensures C (λ x. P x × (m ≡ got x)) m
Ensures-same C P (got x) h = (h, refl)
Ensures-same C P (bad why) h = tt
Ensures-same C P crashed h = h
Ensures-same C P unfinished h = h

pub Ensures-u32_between :
    (C : Type 0) (s : Slice) (a b : ℕ)
    → Roomy C s
    → a + 4 ≤ b
    → b ≤ s.size
    → Ensures C Any (u32_between s a b)
unfolding u32_between
Ensures-u32_between C s a b r h k =
    Ensures-bind C (IsPart C s a b) Any (cut s a b) _ (Ensures-cut C s a b r (omega arith) k)
      λ t p. Ensures-u32 C t p.held (omega (arith, p.size))

pub Ensures-u32_from :
    (C : Type 0) (s : Slice) (a : ℕ) → Roomy C s → a + 4 ≤ s.size → Ensures C Any (u32_from s a)
unfolding u32_from
Ensures-u32_from C s a r h =
    Ensures-bind C (IsPart C s a s.size) Any (cut_from s a) _
      (Ensures-cut_from C s a r (omega arith)) λ t p. Ensures-u32 C t p.held (omega (arith, p.size))

pub IsWhole-IsPart :
    (C : Type 0) (s t : Slice) (a b : ℕ) → IsPart C s a b t → b ≤ s.size → IsWhole C t
IsWhole-IsPart C s t a b p h = record { held = p.held; roomy = p.roomy h }
