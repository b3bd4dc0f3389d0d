-- ===== src/SelfUpdate/Resource.antt =====
-- internal/selfupdate/pe.go: the resource directory, walked for the version resource.
pub mod Ends
use dsh_work.Prelude.{
  ℕ, zero, suc, ◌+◌, ◌*◌, ◌%◌, ◌^◌, Bool, true, false, not, ◌&&◌, ◌||◌, Option, none, some, List,
  [], ◌∷◌, ltb, leb, eqb, if◌then◌else◌,
}
use dsh_work.SelfUpdate.Bytes.{
  Slice, Read, got, bad, crashed, unfinished, ◌>>=◌, ◌>>◌, demand, attempt, cut, cut_from,
  u16_between, u32_between, u32_from, Rejection,
}
use dsh_work.SelfUpdate.Image.{PeLayout, file_offset, add32}
use dsh_work.SelfUpdate.Version.{ExecutableVersion}
use dsh_work.SelfUpdate.Blocks.{version_info}

abbrev pub version_resource_type : ℕ
version_resource_type = 16

-- `directoryEntries`
unfoldable pub directory_entries : Slice → Read ℕ
directory_entries directory = if ltb directory.size 16 then got 0 else (do
  named ← u16_between directory 12 14
  numbered ← u16_between directory 14 16
  got (named + numbered))

-- `directoryEntryID`
unfoldable pub directory_entry_id : Slice → ℕ → Read ℕ
directory_entry_id directory index = do
  demand (leb (16 + index * 8 + 8) directory.size) Rejection.truncated_directory
  name ← u32_from directory (16 + index * 8)
  got (if leb (2 ^ 31) name then 0 else name % 2 ^ 31)

-- `directoryEntry`
unfoldable pub directory_entry : Slice → ℕ → Read (ℕ × Bool)
directory_entry directory index = do
  demand (leb (16 + index * 8 + 8) directory.size) Rejection.truncated_directory
  offset ← u32_from directory (16 + index * 8 + 4)
  got (offset % 2 ^ 31, leb (2 ^ 31) offset)

level_at : Slice → ℕ × Bool → Read (Option Slice)
level_at root (offset, is_directory) = if not is_directory then got none else (do
  demand (leb (offset + 16) root.size) Rejection.outside_level
  below ← cut_from root offset
  got (some below))

-- `subdirectory`
unfoldable pub subdirectory : Slice → Slice → ℕ → Read (Option Slice)
unfolding directory_entry level_at
subdirectory root level index = directory_entry level index >>= level_at root

entry_at : Slice → ℕ × Bool → Read (Option Slice)
entry_at directory (offset, is_directory) = if is_directory then got none else (do
  demand (leb (offset + 16) directory.size) Rejection.outside_entry
  entry ← cut directory offset (offset + 16)
  got (some entry))

-- `resourceDataEntry`
unfoldable pub resource_data_entry : Slice → Slice → ℕ → Read (Option Slice)
unfolding directory_entry entry_at
resource_data_entry directory languages index =
    directory_entry languages index >>= entry_at directory

abbrev Found : Type 0
Found = Read (Option ExecutableVersion)

-- The version found, or else what comes after.
or_else : Found → Found → Found
or_else first next = first >>= λ found. elim found [ none ↦ next | some v ↦ got (some v) ]

module _ (upper : ℕ → ℕ) (raw : Slice) (layout : PeLayout) where
  parse_at : Option ℕ → Found
  parse_at none = got none
  parse_at (some offset) = cut_from raw offset >>= λ block. attempt (version_info upper block)

  -- The version that a data entry points at; none where it cannot be read.
  parse_entry : Option Slice → Found
  unfolding parse_at
  parse_entry none = got none
  parse_entry (some entry) = do
    rva ← u32_between entry 0 4
    size ← u32_between entry 4 8
    offset ← attempt (file_offset layout raw rva size)
    parse_at offset

  -- The loop over the languages, from number `k` on.
  walk_languages : ℕ → Slice → Slice → ℕ → Found
  unfolding parse_entry or_else resource_data_entry
  walk_languages zero directory languages k = got none
  walk_languages (suc n) directory languages k =
      or_else (resource_data_entry directory languages k >>= parse_entry)
        (walk_languages n directory languages (k + 1))

  walk_level : Slice → Option Slice → Found
  unfolding walk_languages directory_entries
  walk_level directory none = got none
  walk_level directory (some languages) =
      directory_entries languages >>= λ n. walk_languages n directory languages 0

  -- The loop over the names, from number `j` on.
  walk_names : ℕ → Slice → Slice → ℕ → Found
  unfolding walk_level or_else subdirectory
  walk_names zero directory names j = got none
  walk_names (suc n) directory names j =
      or_else (subdirectory directory names j >>= walk_level directory)
        (walk_names n directory names (j + 1))

  walk_type : Slice → Option Slice → Found
  unfolding walk_names directory_entries
  walk_type directory none = got none
  walk_type directory (some names) = directory_entries names >>= λ n. walk_names n directory names 0

  walk_versions : Slice → ℕ → Bool → Found
  unfolding walk_type subdirectory
  walk_versions directory i false = got none
  walk_versions directory i true = subdirectory directory directory i >>= walk_type directory

  -- What is under one entry of the directory, if it is that of the versions.
  walk_entry : Slice → ℕ → Found
  unfolding walk_versions directory_entry_id
  walk_entry directory i = do
    id ← directory_entry_id directory i
    walk_versions directory i (eqb id version_resource_type)

  walk_entries : ℕ → Slice → ℕ → Found
  unfolding walk_entry or_else
  walk_entries zero directory i = got none
  walk_entries (suc n) directory i =
      or_else (walk_entry directory i) (walk_entries n directory (i + 1))

  some_version : Option ExecutableVersion → Read ExecutableVersion
  some_version none = bad Rejection.no_version
  some_version (some v) = got v

  -- `versionInfoResource`
  unfoldable pub version_info_resource : ℕ → ℕ → Read ExecutableVersion
  unfolding walk_entries some_version directory_entries
  version_info_resource offset size = do
    demand (leb (offset + size) raw.size) Rejection.outside_directory
    directory ← cut raw offset (add32 offset size)
    demand (leb 16 directory.size) Rejection.truncated_directory
    n ← directory_entries directory
    found ← walk_entries n directory 0
    some_version found
