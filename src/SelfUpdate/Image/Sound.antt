-- ===== src/SelfUpdate/Image/Sound.antt =====
-- internal/selfupdate/pe.go: reading the headers stays within the file, and so does what they locate.
use dsh_work.Prelude.{
  ℕ, zero, suc, ◌+◌, ◌-◌, ◌*◌, ◌≤◌, ◌<◌, ◌≡◌, length, not, ◌&&◌, ◌||◌, ltb, leb, eqb, arith, leb→le,
}
use dsh_work.SelfUpdate.Bytes.{
  Slice, Read, got, ◌>>=◌, byte_at, u16_between, u32_between, u32_from, Rejection,
}
use dsh_work.SelfUpdate.Bytes.Outcomes.{
  Ensures, Any, Ensures-bind, Ensures-demand, Ensures-test, IsWhole, Ensures-if, Roomy, Held,
  Ensures-byte_at, Ensures-u16_between, Ensures-u16_behind, Ensures-same, Ensures-u32_between,
  Ensures-u32_from,
}
use dsh_work.SelfUpdate.Image.{
  PeLayout, parse_pe_layout, starts_with, parse_behind, pe32_magic, pe32_plus_magic,
  data_directory_offset, directory_by_magic, find_section, span_of, outside, located, file_offset,
  resource_directory, min_dos_header_size, resource_dir_entry, add32,
}

-- The optional header stands in the file.
abbrev pub HeaderFits : Slice → PeLayout → Type 0
HeaderFits raw l = l.optional + l.optional_size ≤ raw.size

Ensures-starts_with :
    (C : Type 0) (raw : Slice) (i a b : ℕ) (why : Rejection)
    → Held raw
    → i + 2 ≤ raw.size
    → Ensures C Any (starts_with raw i a b why)
unfolding starts_with
Ensures-starts_with C raw i a b why h k =
    Ensures-bind C Any Any (byte_at raw i) _ (Ensures-byte_at C raw i h (omega arith)) λ x j.
      Ensures-demand C Any (eqb x a) why _ λ e.
        Ensures-bind C Any Any (byte_at raw (i + 1)) _
          (Ensures-byte_at C raw (i + 1) h (omega arith)) λ y j'. Ensures-test C (eqb y b) why

-- The part of `parsePELayout` that reads behind the header's offset.
Ensures-behind :
    (C : Type 0) (raw : Slice) (pe : ℕ)
    → IsWhole C raw
    → pe + 24 ≤ raw.size
    → Ensures C (HeaderFits raw) (parse_behind raw pe)
unfolding parse_behind
Ensures-behind C raw pe w h =
    let P = HeaderFits raw in
    Ensures-bind C Any P (starts_with raw pe b'P' b'E' Rejection.missing_signature) _
      (Ensures-starts_with C raw pe b'P' b'E' Rejection.missing_signature w.held (omega arith))
      λ x i.
        Ensures-bind C Any P (u16_between raw (pe + 4 + 16) (pe + 4 + 18)) _
          (Ensures-u16_between C raw (pe + 4 + 16) (pe + 4 + 18) w.roomy (omega arith)
            (omega arith))
          λ size j.
            Ensures-bind C Any P (u16_between raw (pe + 4 + 2) (pe + 4 + 4)) _
              (Ensures-u16_between C raw (pe + 4 + 2) (pe + 4 + 4) w.roomy (omega arith)
                (omega arith))
              λ n j'.
                Ensures-demand C P (leb (pe + 4 + 20 + size) raw.size) Rejection.truncated_optional
                  _ λ e. leb→le _ _ e

Ensures-parse_pe_layout :
    (C : Type 0) (raw : Slice) → IsWhole C raw → Ensures C (HeaderFits raw) (parse_pe_layout raw)
unfolding parse_pe_layout
Ensures-parse_pe_layout C raw w =
    Ensures-demand C (HeaderFits raw) (leb min_dos_header_size raw.size) Rejection.not_pe _ λ e.
      Ensures-bind C Any (HeaderFits raw) (starts_with raw 0 b'M' b'Z' Rejection.not_pe) _
        (Ensures-starts_with C raw 0 b'M' b'Z' Rejection.not_pe w.held (ground arith))
        λ x i.
          Ensures-bind C Any (HeaderFits raw) (u32_between raw 0x3c 0x40) _
            (Ensures-u32_between C raw 0x3c 0x40 w.roomy (omega arith) (ground arith))
            λ pe j.
              Ensures-demand C (HeaderFits raw) (ltb 0 pe && leb (pe + 24) raw.size)
                Rejection.invalid_offset _ λ f. Ensures-behind C raw pe w (ground arith)

Ensures-directory_by_magic :
    (C : Type 0) (l : PeLayout) (magic : ℕ) → Ensures C Any (directory_by_magic l magic)
unfolding directory_by_magic
Ensures-directory_by_magic C l magic =
    Ensures-if C Any (eqb magic pe32_magic) _ _ (λ e. tt)
      (λ e. Ensures-if C Any (eqb magic pe32_plus_magic) _ _ (λ e'. tt) (λ e'. tt))

pub Ensures-data_directory_offset :
    (C : Type 0) (raw : Slice) (l : PeLayout)
    → (length raw.array < l.optional + 2 → C)
    → Ensures C Any (data_directory_offset l raw)
unfolding data_directory_offset
Ensures-data_directory_offset C raw l c =
    Ensures-bind C Any Any (u16_between raw l.optional (l.optional + 2)) _
      (Ensures-u16_behind C raw l.optional c) λ magic i. Ensures-directory_by_magic C l magic

-- The offset of a range in the file.
abbrev pub RangeFits : Slice → ℕ → ℕ → Type 0
RangeFits raw size offset = offset + size ≤ raw.size

Ensures-located :
    (C : Type 0) (raw : Slice) (size offset : ℕ)
    → Ensures C (RangeFits raw size) (located raw size offset)
unfolding located
Ensures-located C raw size offset =
    Ensures-if C (RangeFits raw size) (ltb raw.size (offset + size)) _ _ (λ e. tt)
      (λ e. ground arith)

Ensures-find_section :
    (C : Type 0) (n entry : ℕ) (raw : Slice) (rva size : ℕ)
    → Roomy C raw
    → Ensures C (RangeFits raw size) (find_section n entry raw rva size)
unfolding find_section
Ensures-find_section C zero entry raw rva size r = tt
Ensures-find_section C (suc n) entry raw rva size r =
    let P = RangeFits raw size in
    Ensures-demand C P (leb (entry + 40) raw.size) Rejection.truncated_sections _ λ e.
      Ensures-bind C Any P (u32_from raw (entry + 8)) _
        (Ensures-u32_from C raw (entry + 8) r (ground arith))
        λ virtual_size i.
          Ensures-bind C Any P (u32_from raw (entry + 12)) _
            (Ensures-u32_from C raw (entry + 12) r (ground arith))
            λ virtual_address i'.
              Ensures-bind C Any P (u32_from raw (entry + 16)) _
                (Ensures-u32_from C raw (entry + 16) r (ground arith))
                λ raw_size i''.
                  Ensures-bind C Any P (u32_from raw (entry + 20)) _
                    (Ensures-u32_from C raw (entry + 20) r (ground arith))
                    λ raw_pointer j.
                      Ensures-if C P
                        (outside rva size virtual_address (span_of virtual_size raw_size)) _ _
                        (λ f. Ensures-find_section C n (entry + 40) raw rva size r)
                        (λ f.
                          Ensures-located C raw size (add32 raw_pointer (rva - virtual_address)))

pub Ensures-file_offset :
    (C : Type 0) (l : PeLayout) (raw : Slice) (rva size : ℕ)
    → Roomy C raw
    → Ensures C (RangeFits raw size) (file_offset l raw rva size)
unfolding file_offset
Ensures-file_offset C l raw rva size r =
    Ensures-demand C (RangeFits raw size) (not (eqb rva 0)) Rejection.empty_rva _
      λ e. Ensures-find_section C l.sections (l.optional + l.optional_size) raw rva size r

-- The resource directory stands in the file.
abbrev pub DirectoryFits : Slice → PeLayout × ℕ × ℕ → Type 0
DirectoryFits raw (l, offset, size) = offset + size ≤ raw.size

Ensures-located_directory :
    (C : Type 0) (raw : Slice) (l : PeLayout) (size : ℕ) (m : Read ℕ)
    → Ensures C (RangeFits raw size) m
    → Ensures C (DirectoryFits raw) (m >>= λ offset. got (l, offset, size))
Ensures-located_directory C raw l size m h =
    Ensures-bind C (RangeFits raw size) (DirectoryFits raw) m _ h λ offset k. k

-- The optional header that the file declares has no room for its magic, nor has the array behind it.
pub record HasNoMagic (raw : Slice) : Type 0 where
  pub layout : PeLayout
  pub read : parse_pe_layout raw ≡ got layout
  pub short : length raw.array < layout.optional + 2

abbrev Parsed : Slice → PeLayout → Type 0
Parsed raw l = HeaderFits raw l × (parse_pe_layout raw ≡ got l)

pub Ensures-resource_directory :
    (C : Type 0) (raw : Slice)
    → IsWhole C raw
    → (HasNoMagic raw → C)
    → Ensures C (DirectoryFits raw) (resource_directory raw)
unfolding resource_directory
Ensures-resource_directory C raw w c =
    let P = DirectoryFits raw in
    Ensures-bind C (Parsed raw) P (parse_pe_layout raw) _
      (Ensures-same C (HeaderFits raw) (parse_pe_layout raw) (Ensures-parse_pe_layout C raw w))
      λ l parsed.
        let h = parsed.0 in
        Ensures-bind C Any P (data_directory_offset l raw) _
          (Ensures-data_directory_offset C raw l
            λ short. c (record { layout = l; read = parsed.1; short = short }))
          λ d i.
            Ensures-demand C P (leb (d + resource_dir_entry * 8 + 8) (l.optional + l.optional_size))
              Rejection.missing_directory _
              λ e.
                Ensures-bind C Any P (u32_from raw (d + resource_dir_entry * 8)) _
                  (Ensures-u32_from C raw (d + resource_dir_entry * 8) w.roomy (ground arith))
                  λ rva j.
                    Ensures-bind C Any P (u32_from raw (d + resource_dir_entry * 8 + 4)) _
                      (Ensures-u32_from C raw (d + resource_dir_entry * 8 + 4) w.roomy
                        (ground arith))
                      λ size j'.
                        Ensures-if C P (eqb rva 0 || eqb size 0) _ _ (λ f. omega arith)
                          (λ f.
                            Ensures-located_directory C raw l size (file_offset l raw rva size)
                              (Ensures-file_offset C l raw rva size w.roomy))
