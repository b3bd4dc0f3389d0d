-- ===== src/SelfUpdate/Blocks/Values.antt =====
-- internal/selfupdate/pe.go: the value of a block is read inside of it.
use dsh_work.Prelude.{ℕ, zero, suc, ◌+◌, ◌≤◌, ◌&&◌, List, [], ◌∷◌, ltb, leb, eqb, length, arith}
use dsh_work.Release.Text.{Text, same}
use dsh_work.SelfUpdate.Bytes.{
  Slice, cut, cut_from, contents, u16_between, u32_between, Rejection, take_bytes,
}
use dsh_work.SelfUpdate.Bytes.Outcomes.{
  Ensures, Any, Ensures-bind, Ensures-demand, Ensures-if, Roomy, IsPart, Ensures-cut,
  Ensures-cut_from, Ensures-u16_between, Ensures-u32_between,
}
use dsh_work.SelfUpdate.Version.{
  version_text_type, version_fixed_size, fixed_signature, version_key, text_value_length,
  value_length_from, Named,
}
use dsh_work.SelfUpdate.Blocks.{fixed_info, read_fixed, read_text}

length-take_bytes : (n : ℕ) (bs : List ℕ) → length (take_bytes n bs) ≤ n
unfolding take_bytes
length-take_bytes zero bs = omega arith
length-take_bytes (suc n) [] = omega arith
length-take_bytes (suc n) (b ∷ bs) = omega (arith, length-take_bytes n bs)

pub length-contents : (s : Slice) → length (contents s) ≤ s.size
unfolding contents
length-contents s = length-take_bytes s.size s.array

value_length_from-le : (n : ℕ) (bs : List ℕ) → value_length_from n bs ≤ n + length bs
unfolding value_length_from
value_length_from-le n [] = omega arith
value_length_from-le n (a ∷ []) = omega arith
value_length_from-le n (a ∷ b ∷ rest) = ground (arith, value_length_from-le (n + 2) rest)

text_value_length-le : (s : Slice) → text_value_length s ≤ s.size
unfolding text_value_length
text_value_length-le s = omega (arith, value_length_from-le 0 (contents s), length-contents s)

Ensures-fixed_info :
    (C : Type 0) (block : Slice) (start : ℕ)
    → Roomy C block
    → start + version_fixed_size ≤ block.size
    → Ensures C Any (fixed_info block start)
unfolding fixed_info
Ensures-fixed_info C block start r h =
    Ensures-bind C (IsPart C block start block.size) Any (cut_from block start) _
      (Ensures-cut_from C block start r (omega arith))
      λ fixed p.
        let q = p.roomy (omega arith) in
        Ensures-bind C Any Any (u32_between fixed 0 4) _
          (Ensures-u32_between C fixed 0 4 q (omega arith) (omega (arith, p.size)))
          λ signature i.
            Ensures-demand C Any (eqb signature fixed_signature) Rejection.no_fixed_info _ λ e.
              Ensures-bind C Any Any (u16_between fixed 10 12) _
                (Ensures-u16_between C fixed 10 12 q (omega arith) (omega (arith, p.size)))
                λ a j.
                  Ensures-bind C Any Any (u16_between fixed 8 10) _
                    (Ensures-u16_between C fixed 8 10 q (omega arith) (omega (arith, p.size)))
                    λ b j'.
                      Ensures-bind C Any Any (u16_between fixed 14 16) _
                        (Ensures-u16_between C fixed 14 16 q (omega arith) (omega (arith, p.size)))
                        λ c j''.
                          Ensures-bind C Any Any (u16_between fixed 12 14) _
                            (Ensures-u16_between C fixed 12 14 q (omega arith)
                              (omega (arith, p.size)))
                            λ d k. tt

pub Ensures-read_fixed :
    (C : Type 0) (key : Text) (n : ℕ) (block : Slice) (start : ℕ)
    → Roomy C block
    → Ensures C Any (read_fixed key n block start)
unfolding read_fixed
Ensures-read_fixed C key n block start r =
    Ensures-if C Any
      (same key version_key
        && leb version_fixed_size n
        && leb (start + version_fixed_size) block.size)
      _ _ (λ e. Ensures-fixed_info C block start r (ground arith)) (λ e. tt)

-- A value ends behind its start.
unfoldable pub EndsBehind : ℕ → Named × ℕ → Type 0
EndsBehind start t = start ≤ t.1

pub Ensures-read_text :
    (C : Type 0) (key : Text) (t n : ℕ) (block : Slice) (start : ℕ)
    → Roomy C block
    → Ensures C (EndsBehind start) (read_text key t n block start)
unfolding read_text EndsBehind
Ensures-read_text C key t n block start r =
    let P = EndsBehind start in
    Ensures-if C P (eqb t version_text_type && ltb 0 n && ltb start block.size) _ _
      (λ e.
        Ensures-bind C (IsPart C block start block.size) P (cut_from block start) _
          (Ensures-cut_from C block start r (ground arith))
          λ behind p.
            let m = text_value_length behind in
            Ensures-bind C (IsPart C block start (start + m)) P (cut block start (start + m)) _
              (Ensures-cut C block start (start + m) r (omega arith)
                (ground (arith, text_value_length-le behind, p.size)))
              λ value q. omega arith)
      (λ e. omega arith)
