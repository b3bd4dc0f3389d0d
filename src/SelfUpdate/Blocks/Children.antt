-- ===== src/SelfUpdate/Blocks/Children.antt =====
-- internal/selfupdate/pe.go: the blocks inside a block are shorter than it is, and the rounds of
-- the loop over them are enough.
use dsh_work.Prelude.{ℕ, zero, suc, ◌+◌, ◌≤◌, ◌<◌, ◌||◌, List, ltb, All, All-weaken, arith}
use dsh_work.SelfUpdate.Bytes.{Slice, Read, cut, u16_between}
use dsh_work.SelfUpdate.Bytes.Outcomes.{
  Ensures, Any, Ensures-bind, Ensures-if, Roomy, IsWhole, IsPart, IsWhole-IsPart, Ensures-cut,
  Ensures-u16_between,
}
use dsh_work.SelfUpdate.Version.{align_to32}
use dsh_work.SelfUpdate.Blocks.{prepend, child_at, child_blocks}

pub le-align_to32 : (n : ℕ) → n ≤ align_to32 n
unfolding align_to32
le-align_to32 n = omega arith

-- A block inside another one, behind its first `index` bytes.
pub record IsChild (C : Type 0) (block : Slice) (index : ℕ) (child : Slice) : Type 0 where
  pub whole : IsWhole C child
  pub shorter : child.size + index ≤ block.size

IsChild-later :
    (C : Type 0) (block : Slice) (i j : ℕ) (child : Slice)
    → i ≤ j
    → IsChild C block j child
    → IsChild C block i child
IsChild-later C block i j child h p = record { whole = p.whole; shorter = omega (arith, p.shorter) }

unfoldable pub Children : Type 0 → Slice → ℕ → List Slice → Type 0
Children C block index = All (IsChild C block index)

Ensures-prepend :
    (C : Type 0) (block : Slice) (i j : ℕ) (child : Slice) (rest : Read (List Slice))
    → i ≤ j
    → IsChild C block i child
    → Ensures C (Children C block j) rest
    → Ensures C (Children C block i) (prepend child rest)
unfolding prepend Children
Ensures-prepend C block i j child rest h p r =
    Ensures-bind C (Children C block j) (Children C block i) rest _ r
      λ xs ps. (p, All-weaken (λ x. IsChild-later C block i j x h) xs ps)

-- The rounds that are left are enough for the bytes that are left.
pub record Enough (fuel index size : ℕ) : Type 0 where
  pub some_left : 1 ≤ fuel
  pub enough : size < index + fuel

child_lem :
    (C : Type 0) (block : Slice) (index n : ℕ) (child : Slice)
    → IsPart C block index (index + n) child
    → index + n ≤ block.size
    → IsChild C block index child
child_lem C block index n child p h = record {
  whole = IsWhole-IsPart C block child index (index + n) p h;
  shorter = omega (arith, p.size);
}

Enough-next :
    (fuel index n size : ℕ)
    → Enough (suc fuel) index size
    → 6 ≤ n
    → index + n ≤ size
    → Enough fuel (index + align_to32 n) size
Enough-next fuel index n size f h k = record {
  some_left = omega (arith, f.enough);
  enough = omega (arith, f.enough, le-align_to32 n);
}

pub Ensures-child_blocks :
    (C : Type 0) (fuel : ℕ) (block : Slice) (index : ℕ)
    → Roomy C block
    → Enough fuel index block.size
    → Ensures C (Children C block index) (child_blocks fuel block index)
unfolding child_blocks child_at Children
Ensures-child_blocks C zero block index r f = ground (arith, f.some_left)
Ensures-child_blocks C (suc fuel) block index r f =
    let P = Children C block index in
    Ensures-if C P (ltb block.size (index + 6)) _ _ (λ e. tt)
      λ e.
        Ensures-bind C Any P (u16_between block index (index + 2)) _
          (Ensures-u16_between C block index (index + 2) r (omega arith) (ground arith))
          λ n i.
            Ensures-if C P (ltb n 6 || ltb block.size (index + n)) _ _ (λ e'. tt)
              λ e'.
                Ensures-bind C (IsPart C block index (index + n)) P (cut block index (index + n)) _
                  (Ensures-cut C block index (index + n) r (omega arith) (ground arith))
                  λ child p.
                    Ensures-prepend C block index (index + align_to32 n) child _ (omega arith)
                      (child_lem C block index n child p (ground arith))
                      (Ensures-child_blocks C fuel block (index + align_to32 n) r
                        (Enough-next fuel index n block.size f (ground arith) (ground arith)))
