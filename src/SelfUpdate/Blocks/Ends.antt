-- ===== src/SelfUpdate/Blocks/Ends.antt =====
-- internal/selfupdate/pe.go: the blocks inside a block are shorter than it is, so that the descent into
-- them ends.
use dsh_work.Prelude.{
  ℕ, zero, suc, ◌+◌, ◌-◌, ◌≤◌, ◌<◌, Option, List, [], ◌∷◌, map, leb, length, arith, leb→le,
}
use dsh_work.SelfUpdate.Bytes.{
  Slice, Read, ◌>>=◌, attempt, cut, contents, u16_between, Rejection, drop_bytes,
}
use dsh_work.SelfUpdate.Bytes.Outcomes.{
  Ensures, Any, AllSome, Ensures-bind, Ensures-demand, Ensures-attempt, Roomy, IsWhole, IsPart,
  Ensures-cut, Ensures-cut_key, Ensures-u16_between, length-drop_bytes,
}
use dsh_work.SelfUpdate.Version.{align_to32, key_end, decode_utf16, Named, Fixed, ExecutableVersion}
use dsh_work.SelfUpdate.Blocks.{
  child_blocks, declared_length, read_fixed, read_text, merge_children, merge_read, parse_block,
  parse_version_info, version_info,
}
use dsh_work.SelfUpdate.Blocks.Children.{Children, Ensures-child_blocks, le-align_to32}
use dsh_work.SelfUpdate.Blocks.Values.{
  EndsBehind, length-contents, Ensures-read_fixed, Ensures-read_text,
}

-- The key ends between its start and the end of the bytes.
key_end-between : (k : ℕ) (bs : List ℕ) → (k ≤ key_end k bs) × (key_end k bs ≤ k + length bs)
unfolding key_end
key_end-between k [] = (omega arith, omega arith)
key_end-between k (a ∷ []) = (omega arith, omega arith)
key_end-between k (a ∷ b ∷ rest) = ground (arith, key_end-between (k + 2) rest)

declared_length-between :
    (total size : ℕ)
    → 6 ≤ size
    → (6 ≤ declared_length total size) × (declared_length total size ≤ size)
unfolding declared_length
declared_length-between total size h = ground arith

Parses : Type 0 → (Slice → Read ExecutableVersion) → ℕ → Type 0
Parses C parse size = (s : Slice) → IsWhole C s → s.size < size → Ensures C Any (parse s)

Ensures-merge_children :
    (C : Type 0) (parse : Slice → Read ExecutableVersion) (block : Slice) (index : ℕ)
    (xs : List Slice) (v : ExecutableVersion)
    → Parses C parse block.size
    → 1 ≤ index
    → Children C block index xs
    → Ensures C Any (merge_children parse xs v)
unfolding merge_children Parses Children
Ensures-merge_children C parse block index [] v f h ps = tt
Ensures-merge_children C parse block index (x ∷ xs) v f h (p, ps) =
    Ensures-bind C (AllSome Any) Any (attempt (parse x)) _
      (Ensures-attempt C Any (parse x) (f x p.whole (omega (arith, p.shorter))))
      λ o i. Ensures-merge_children C parse block index xs (merge_read v o) f h ps

key_end-block :
    (block : Slice)
    → 6 ≤ block.size
    → (6 ≤ key_end 6 (drop_bytes 6 (contents block)))
      × (key_end 6 (drop_bytes 6 (contents block)) ≤ block.size)
key_end-block block h = (
  (key_end-between 6 (drop_bytes 6 (contents block))).0,
  omega (
    arith,
    (key_end-between 6 (drop_bytes 6 (contents block))).1,
    length-drop_bytes 6 (contents block),
    length-contents block,
  ),
)

-- The part of a block behind its value.
Ensures-parse_children :
    (C : Type 0) (parse : Slice → Read ExecutableVersion) (block : Slice) (start end : ℕ)
    (fixed : Option Fixed) (named : Named)
    → Roomy C block
    → Parses C parse block.size
    → 1 ≤ start
    → start ≤ end
    → Ensures C Any (
        child_blocks (suc block.size) block (align_to32 end) >>= λ children.
        merge_children parse children (record { fixed = fixed; named = named }))
Ensures-parse_children C parse block start end fixed named r f h k =
    let index = align_to32 end in
    Ensures-bind C (Children C block index) Any (child_blocks (suc block.size) block index) _
      (Ensures-child_blocks C (suc block.size) block index r
        (record { some_left = omega arith; enough = omega arith }))
      λ xs ps.
        Ensures-merge_children C parse block index xs _ f (omega (arith, h, k, le-align_to32 end))
          ps

module _ (upper : ℕ → ℕ) where
  Ensures-parse_block :
      (C : Type 0) (parse : Slice → Read ExecutableVersion) (block : Slice) (n t : ℕ)
      → Roomy C block
      → 6 ≤ block.size
      → Parses C parse block.size
      → Ensures C Any (parse_block upper parse block n t)
  unfolding parse_block EndsBehind
  Ensures-parse_block C parse block n t r h f =
      let last = key_end 6 (drop_bytes 6 (contents block)) in
      let start = align_to32 (6 + (last + 2 - 6)) in
      let between = key_end-block block h in
      Ensures-bind C Any Any (cut block 6 (last + 2)) _ (Ensures-cut_key C block r h (between.0))
        λ key_bytes p.
          let key = map upper (decode_utf16 key_bytes) in
          Ensures-demand C Any (leb start block.size) Rejection.truncated_version _ λ e.
            Ensures-bind C Any Any (read_fixed key n block start) _
              (Ensures-read_fixed C key n block start r)
              λ fixed i.
                Ensures-bind C (EndsBehind start) Any (read_text key t n block start) _
                  (Ensures-read_text C key t n block start r)
                  λ text behind.
                    Ensures-parse_children C parse block start text.1 fixed text.0 r f
                      (omega (arith, between.0, le-align_to32 (6 + (last + 2 - 6)))) behind

  Ensures-parse_version_info :
      (C : Type 0) (fuel : ℕ) (raw : Slice)
      → IsWhole C raw
      → raw.size < fuel
      → Ensures C Any (parse_version_info upper fuel raw)
  unfolding parse_version_info Parses
  Ensures-parse_version_info C zero raw w h = ground arith
  Ensures-parse_version_info C (suc fuel) raw w h =
      Ensures-demand C Any (leb 6 raw.size) Rejection.truncated_version _ λ e.
        Ensures-bind C Any Any (u16_between raw 0 2) _
          (Ensures-u16_between C raw 0 2 w.roomy (omega arith) (ground arith))
          λ total i.
            Ensures-bind C Any Any (u16_between raw 2 4) _
              (Ensures-u16_between C raw 2 4 w.roomy (omega arith) (ground arith))
              λ n i'.
                Ensures-bind C Any Any (u16_between raw 4 6) _
                  (Ensures-u16_between C raw 4 6 w.roomy (omega arith) (ground arith))
                  λ t i''.
                    let size = declared_length total raw.size in
                    let between = declared_length-between total raw.size (leb→le 6 raw.size e) in
                    Ensures-bind C (IsPart C raw 0 size) Any (cut raw 0 size) _
                      (Ensures-cut C raw 0 size w.roomy (omega arith) (omega (arith, between.1)))
                      λ block p.
                        Ensures-parse_block C (parse_version_info upper fuel) block n t
                          (p.roomy between.1) (omega (arith, p.size, between.0))
                          (λ s w' l.
                            Ensures-parse_version_info C fuel s w'
                              (omega (arith, h, p.size, between.1, l)))

  -- With one round more than the bytes of the resource, the parser never runs out of rounds.
  pub Ensures-version_info :
      (C : Type 0) (raw : Slice) → IsWhole C raw → Ensures C Any (version_info upper raw)
  unfolding version_info
  Ensures-version_info C raw w = Ensures-parse_version_info C (suc raw.size) raw w (omega arith)
