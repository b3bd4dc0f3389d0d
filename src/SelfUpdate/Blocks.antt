-- ===== src/SelfUpdate/Blocks.antt =====
-- internal/selfupdate/pe.go: a version resource is a block that holds blocks. The rounds of a loop and
-- the depth of the blocks are bounded by fuel. The upper case of a character is a parameter.
pub mod Children
pub mod Values
pub mod Ends
pub mod RoundTrip
use dsh_work.Prelude.{
  ℕ, zero, suc, ◌+◌, ◌-◌, Bool, true, false, not, ◌&&◌, ◌||◌, Option, none, some, List, [], ◌∷◌,
  map, ltb, leb, eqb, if◌then◌else◌,
}
use dsh_work.Release.Text.{Text, same, is_empty}
use dsh_work.SelfUpdate.Bytes.{
  Slice, Read, got, bad, crashed, unfinished, ◌>>=◌, ◌>>◌, demand, attempt, cut, cut_from, contents,
  u16_between, u32_between, Rejection, drop_bytes,
}
use dsh_work.SelfUpdate.Version.{
  version_text_type, version_fixed_size, fixed_signature, version_key, align_to32, key_end,
  text_value_length, decode_utf16, Named, put, Fixed, ExecutableVersion, merge_version_info,
}

prepend : Slice → Read (List Slice) → Read (List Slice)
prepend child rest = rest >>= λ children. got (child ∷ children)

-- One round of the loop of `childBlocks`, given the rounds after it.
child_at : Slice → ℕ → (ℕ → Read (List Slice)) → Read (List Slice)
unfolding prepend
child_at block index onward = if ltb block.size (index + 6) then got [] else (do
  length ← u16_between block index (index + 2)
  if ltb length 6 || ltb block.size (index + length) then got [] else (do
    child ← cut block index (index + length)
    prepend child (onward (index + align_to32 length))))

-- `childBlocks`, from `index` on.
unfoldable pub child_blocks : ℕ → Slice → ℕ → Read (List Slice)
unfolding child_at
child_blocks zero block index = unfinished
child_blocks (suc fuel) block index = child_at block index (child_blocks fuel block)

-- The length that a block declares, or all that there is.
declared_length : ℕ → ℕ → ℕ
declared_length total size = if ltb total 6 || ltb size total then size else total

-- The fixed file info behind the key.
fixed_info : Slice → ℕ → Read (Option Fixed)
fixed_info block start = do
  fixed ← cut_from block start
  signature ← u32_between fixed 0 4
  demand (eqb signature fixed_signature) Rejection.no_fixed_info
  major ← u16_between fixed 10 12
  minor ← u16_between fixed 8 10
  build ← u16_between fixed 14 16
  revision ← u16_between fixed 12 14
  got (some (record { major = major; minor = minor; build = build; revision = revision }))

pub read_fixed : Text → ℕ → Slice → ℕ → Read (Option Fixed)
unfolding fixed_info
read_fixed key value_length block start =
    if same key version_key
      && leb version_fixed_size value_length
      && leb (start + version_fixed_size) block.size
    then fixed_info block start
    else got none

named_by : Text → Text → Named
named_by key value = if is_empty value then [] else put key value []

-- The string that the block holds, and where its value ends.
pub read_text : Text → ℕ → ℕ → Slice → ℕ → Read (Named × ℕ)
unfolding named_by
read_text key value_type value_length block start =
    if eqb value_type version_text_type && ltb 0 value_length && ltb start block.size
    then (do
      behind ← cut_from block start
      value ← cut block start (start + text_value_length behind)
      got (named_by key (decode_utf16 value), start + text_value_length behind))
    else got ([], start + value_length)

merge_read : ExecutableVersion → Option ExecutableVersion → ExecutableVersion
merge_read parsed none = parsed
merge_read parsed (some nested) = merge_version_info parsed nested

-- The loop over the children; one that cannot be parsed is passed over.
merge_children :
    (Slice → Read ExecutableVersion) → List Slice → ExecutableVersion → Read ExecutableVersion
unfolding merge_read
merge_children parse [] parsed = got parsed
merge_children parse (child ∷ rest) parsed =
    attempt (parse child) >>= λ nested. merge_children parse rest (merge_read parsed nested)

module _ (upper : ℕ → ℕ) where
  -- The block behind its header, given what parses a child.
  parse_block : (Slice → Read ExecutableVersion) → Slice → ℕ → ℕ → Read ExecutableVersion
  unfolding read_fixed read_text child_blocks merge_children
  parse_block parse block value_length value_type = do
    let last = key_end 6 (drop_bytes 6 (contents block))
    key_bytes ← cut block 6 (last + 2)
    let key = map upper (decode_utf16 key_bytes)
    let start = align_to32 (6 + (last + 2 - 6))
    demand (leb start block.size) Rejection.truncated_version
    fixed ← read_fixed key value_length block start
    text ← read_text key value_type value_length block start
    children ← child_blocks (suc block.size) block (align_to32 text.1)
    merge_children parse children (record { fixed = fixed; named = text.0 })

  -- `parseVersionInfo`
  unfoldable pub parse_version_info : ℕ → Slice → Read ExecutableVersion
  unfolding declared_length parse_block
  parse_version_info zero raw = unfinished
  parse_version_info (suc fuel) raw = do
    demand (leb 6 raw.size) Rejection.truncated_version
    total ← u16_between raw 0 2
    value_length ← u16_between raw 2 4
    value_type ← u16_between raw 4 6
    block ← cut raw 0 (declared_length total raw.size)
    parse_block (parse_version_info fuel) block value_length value_type

  -- With the fuel that is always enough.
  unfoldable pub version_info : Slice → Read ExecutableVersion
  unfolding parse_version_info
  version_info raw = parse_version_info (suc raw.size) raw
