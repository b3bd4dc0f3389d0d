-- ===== src/SelfUpdate/Image.antt =====
-- internal/selfupdate/pe.go: the headers of an executable and its section table.
pub mod Sound
use dsh_work.Prelude.{
  ℕ, zero, suc, ◌+◌, ◌-◌, ◌*◌, ◌^◌, ◌%◌, Bool, true, false, not, ◌&&◌, ◌||◌, List, [], ◌∷◌, ltb,
  leb, eqb, length, if◌then◌else◌,
}
use dsh_work.SelfUpdate.Bytes.{
  Slice, Read, got, bad, crashed, unfinished, ◌>>=◌, ◌>>◌, demand, cut, byte_at, u16_between,
  u32_between, u32_from, Rejection, take_bytes, drop_bytes,
}

abbrev pub min_dos_header_size : ℕ
min_dos_header_size = 0x40

-- `IMAGE_DIRECTORY_ENTRY_RESOURCE`
abbrev pub resource_dir_entry : ℕ
resource_dir_entry = 2

abbrev pub pe32_magic : ℕ
pe32_magic = 0x10b

abbrev pub pe32_plus_magic : ℕ
pe32_plus_magic = 0x20b

abbrev pub pe32_directory_offset : ℕ
pe32_directory_offset = 96

abbrev pub pe32_plus_directory_offset : ℕ
pe32_plus_directory_offset = 112

-- `ReadAt` into a buffer of `n` bytes: all of them, or the rejection.
pub read_at : List ℕ → ℕ → ℕ → Rejection → Read Slice
unfolding take_bytes drop_bytes
read_at file offset n why =
    if leb (offset + n) (length file)
    then got (record { array = take_bytes n (drop_bytes offset file); size = n })
    else bad why

-- `readMachine` of the bytes of an opened file.
unfoldable pub read_machine : List ℕ → Read ℕ
unfolding read_at
read_machine file = do
  header ← read_at file 0 min_dos_header_size Rejection.not_pe
  m ← byte_at header 0
  z ← byte_at header 1
  demand (eqb m b'M' && eqb z b'Z') Rejection.missing_dos_header
  pe_offset ← u32_between header 0x3c 0x40
  demand (ltb 0 pe_offset && leb pe_offset (2 ^ 24)) Rejection.invalid_offset
  signature ← read_at file pe_offset 4 Rejection.truncated_header
  p ← byte_at signature 0
  e ← byte_at signature 1
  third ← byte_at signature 2
  fourth ← byte_at signature 3
  demand (eqb p b'P' && eqb e b'E' && eqb third 0 && eqb fourth 0) Rejection.missing_signature
  machine ← read_at file (pe_offset + 4) 2 Rejection.truncated_header
  u16_between machine 0 2

pub record PeLayout : Type 0 where
  pub optional : ℕ
  pub optional_size : ℕ
  pub sections : ℕ

-- The test of the first two bytes.
starts_with : Slice → ℕ → ℕ → ℕ → Rejection → Read (Unit {0})
starts_with raw i first second why = do
  a ← byte_at raw i
  demand (eqb a first) why
  b ← byte_at raw (i + 1)
  demand (eqb b second) why

-- `parsePELayout` behind its tests of the offset of the PE header.
parse_behind : Slice → ℕ → Read PeLayout
unfolding starts_with
parse_behind raw pe_offset = do
  starts_with raw pe_offset b'P' b'E' Rejection.missing_signature
  optional_size ← u16_between raw (pe_offset + 4 + 16) (pe_offset + 4 + 18)
  sections ← u16_between raw (pe_offset + 4 + 2) (pe_offset + 4 + 4)
  demand (leb (pe_offset + 4 + 20 + optional_size) raw.size) Rejection.truncated_optional
  got (record { optional = pe_offset + 4 + 20; optional_size = optional_size; sections = sections })

unfoldable pub parse_pe_layout : Slice → Read PeLayout
unfolding starts_with parse_behind
parse_pe_layout raw = do
  demand (leb min_dos_header_size raw.size) Rejection.not_pe
  starts_with raw 0 b'M' b'Z' Rejection.not_pe
  pe_offset ← u32_between raw 0x3c 0x40
  demand (ltb 0 pe_offset && leb (pe_offset + 24) raw.size) Rejection.invalid_offset
  parse_behind raw pe_offset

directory_by_magic : PeLayout → ℕ → Read ℕ
directory_by_magic l magic =
    if eqb magic pe32_magic
    then got (l.optional + pe32_directory_offset)
    else if eqb magic pe32_plus_magic
    then got (l.optional + pe32_plus_directory_offset)
    else bad Rejection.unsupported_optional

unfoldable pub data_directory_offset : PeLayout → Slice → Read ℕ
unfolding directory_by_magic
data_directory_offset l raw = do
  magic ← u16_between raw l.optional (l.optional + 2)
  directory_by_magic l magic

-- `a + b` and `a - b` of `uint32`; in the latter the code has `b ≤ a`.
abbrev pub add32 : ℕ → ℕ → ℕ
add32 a b = (a + b) % 2 ^ 32

span_of : ℕ → ℕ → ℕ
span_of virtual_size raw_size = if eqb virtual_size 0 then raw_size else virtual_size

-- Whether the section does not hold the range.
outside : ℕ → ℕ → ℕ → ℕ → Bool
outside rva size virtual_address span =
    ltb rva virtual_address || ltb (add32 virtual_address span) (add32 rva size)

-- The offset of a range that the section holds, if it is inside the file.
located : Slice → ℕ → ℕ → Read ℕ
located raw size offset =
    if ltb raw.size (offset + size) then bad Rejection.outside_file else got offset

-- The loop over the section table, from the section at `entry` on.
unfoldable pub find_section : ℕ → ℕ → Slice → ℕ → ℕ → Read ℕ
unfolding span_of outside located
find_section zero entry raw rva size = bad Rejection.not_mapped
find_section (suc n) entry raw rva size = do
  demand (leb (entry + 40) raw.size) Rejection.truncated_sections
  virtual_size ← u32_from raw (entry + 8)
  virtual_address ← u32_from raw (entry + 12)
  raw_size ← u32_from raw (entry + 16)
  raw_pointer ← u32_from raw (entry + 20)
  let onward = find_section n (entry + 40) raw rva size in
      if outside rva size virtual_address (span_of virtual_size raw_size)
      then onward
      else located raw size (add32 raw_pointer (rva - virtual_address))

unfoldable pub file_offset : PeLayout → Slice → ℕ → ℕ → Read ℕ
unfolding find_section
file_offset l raw rva size = do
  demand (not (eqb rva 0)) Rejection.empty_rva
  find_section l.sections (l.optional + l.optional_size) raw rva size

-- The layout, and the offset and the size of the resource directory, both 0 if there is none.
unfoldable pub resource_directory : Slice → Read (PeLayout × ℕ × ℕ)
unfolding parse_pe_layout data_directory_offset file_offset
resource_directory raw = do
  layout ← parse_pe_layout raw
  directory ← data_directory_offset layout raw
  demand (leb (directory + resource_dir_entry * 8 + 8) (layout.optional + layout.optional_size))
      Rejection.missing_directory
  rva ← u32_from raw (directory + resource_dir_entry * 8)
  size ← u32_from raw (directory + resource_dir_entry * 8 + 4)
  if eqb rva 0 || eqb size 0
      then got (layout, 0, 0)
      else (do offset ← file_offset layout raw rva size; got (layout, offset, size))
