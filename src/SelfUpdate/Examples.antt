-- ===== src/SelfUpdate/Examples.antt =====
-- Instances of the theorems of internal/selfupdate/pe.go at concrete inputs.
use dsh_work.Prelude.Space.{is_space}
use dsh_work.Prelude.{map, ◌≢◌, some}
use dsh_work.Release.Text.{Text, decimal, same, trim_space}
use dsh_work.SelfUpdate.Bytes.{crashed, unfinished, cut_from, contents, take_bytes}
use dsh_work.SelfUpdate.Image.{data_directory_offset, resource_directory, find_section}
use dsh_work.SelfUpdate.Version.{version_key, align_to32, key_end, decode_utf16, find}
use dsh_work.SelfUpdate.Blocks.{child_blocks, parse_version_info, version_info}
use dsh_work.SelfUpdate.Blocks.RoundTrip.{resource, version_info-resource}
use dsh_work.SelfUpdate.Resource.{
  version_info_resource, directory_entries, directory_entry_id, directory_entry, subdirectory,
  resource_data_entry,
}
use dsh_work.SelfUpdate.Identity.{read_payload_identity}
use dsh_work.SelfUpdate.Identity.Sound.{read_payload_identity-ends}
use dsh_work.Prelude.{ℕ, zero, suc, ◌≡◌, refl, List, [], ◌∷◌, ◌++◌, arith}
use dsh_work.SelfUpdate.Bytes.{
  Slice, got, cut, u16, u32, byte_at, u16_between, u32_between, u32_from, drop_bytes,
}
use dsh_work.SelfUpdate.Image.{PeLayout, parse_pe_layout, file_offset}
use dsh_work.SelfUpdate.Version.{Fixed}
use dsh_work.SelfUpdate.Blocks.RoundTrip.{resource_bytes, no_more}
use dsh_work.SelfUpdate.Resource.{}

abbrev zeros : ℕ → List ℕ → List ℕ
zeros zero rest = rest
zeros (suc n) rest = 0 ∷ zeros n rest

-- The headers of an image with one section of `total` bytes, which holds a resource directory with one
-- version of `size` bytes; the version resource comes behind them.
abbrev image_bytes : (total size : ℕ) → List ℕ → List ℕ
image_bytes total size rest =
    77
    ∷ 90
    ∷ zeros 58 (
        64
        ∷ 0
        ∷ 0
        ∷ 0
        ∷ 80
        ∷ 69
        ∷ 0
        ∷ 0
        ∷ 76
        ∷ 1
        ∷ 1
        ∷ zeros 13 (
            120
            ∷ 0
            ∷ 0
            ∷ 0
            ∷ 11
            ∷ 1
            ∷ zeros 111 (
                16
                ∷ 0
                ∷ 0
                ∷ 88
                ∷ zeros 11 (
                    total
                    ∷ 0
                    ∷ 0
                    ∷ 0
                    ∷ 0
                    ∷ 16
                    ∷ 0
                    ∷ 0
                    ∷ total
                    ∷ 0
                    ∷ 0
                    ∷ 0
                    ∷ 248
                    ∷ zeros 33 (
                        1
                        ∷ 0
                        ∷ 16
                        ∷ 0
                        ∷ 0
                        ∷ 0
                        ∷ 24
                        ∷ 0
                        ∷ 0
                        ∷ 128
                        ∷ zeros 14 (
                            1
                            ∷ 0
                            ∷ 1
                            ∷ 0
                            ∷ 0
                            ∷ 0
                            ∷ 48
                            ∷ 0
                            ∷ 0
                            ∷ 128
                            ∷ zeros 14 (
                                1
                                ∷ 0
                                ∷ 0
                                ∷ 0
                                ∷ 0
                                ∷ 0
                                ∷ 72
                                ∷ 0
                                ∷ 0
                                ∷ 0
                                ∷ 88
                                ∷ 16
                                ∷ 0
                                ∷ 0
                                ∷ size
                                ∷ zeros 11 (rest))))))))

abbrev numbers : Fixed
numbers = record { major = 1; minor = 2; build = 3; revision = 4 }

abbrev image : Slice
image = record {
  array = image_bytes 180 92 (resource_bytes numbers no_more) ++ 0 ∷ 0 ∷ [];
  size = 428;
}

abbrev upper : ℕ → ℕ
upper c = c

abbrev layout : PeLayout
layout = record { optional = 88; optional_size = 120; sections = 1 }

reads_layout : parse_pe_layout image ≡ got layout
unfolding parse_pe_layout u32_between u16_between cut byte_at u16 u32 drop_bytes
reads_layout = refl

finds_offset : file_offset layout image 0x1000 88 ≡ got 248
unfolding file_offset u32_from
finds_offset = refl

keeps_key : map upper version_key ≡ version_key
keeps_key = refl

version_info-resource_example :
    version_info upper (resource numbers) ≡ got (record { fixed = some numbers; named = [] })
version_info-resource_example = version_info-resource upper numbers keeps_key

read_payload_identity-ends_example : read_payload_identity upper image ≢ unfinished
read_payload_identity-ends_example = read_payload_identity-ends upper image (omega arith)

-- An image whose version resource is the last six bytes of the file, with one byte behind it.
abbrev short_image : Slice
short_image = record { array = image_bytes 94 6 (6 ∷ zeros 6 []); size = 342 }

-- The last six bytes of a file whose array goes on for one more: the key of the block is cut past it.
last_bytes_crash :
    version_info upper (record { array = 6 ∷ 0 ∷ 0 ∷ 0 ∷ 0 ∷ 0 ∷ 0 ∷ []; size = 6 }) ≡ crashed
unfolding version_info parse_version_info u16_between cut byte_at u16 drop_bytes contents take_bytes
    key_end
last_bytes_crash = refl

abbrev dotted_numbers : Text
dotted_numbers = b'1' ∷ b'.' ∷ b'2' ∷ b'.' ∷ b'3' ∷ b'.' ∷ b'4' ∷ []

reads_identity :
    read_payload_identity upper image
    ≡ got (record { fixed = dotted_numbers; file_version = []; product_version = [] })
unfolding read_payload_identity resource_directory parse_pe_layout data_directory_offset file_offset
    find_section u32_from u32_between u16_between cut cut_from byte_at u16 u32 drop_bytes take_bytes
    contents version_info_resource directory_entries directory_entry_id directory_entry subdirectory
    resource_data_entry version_info parse_version_info key_end align_to32 decode_utf16 trim_space
    is_space same child_blocks find decimal
reads_identity = refl
