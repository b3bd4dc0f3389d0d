-- ===== src/SelfUpdate/Identity/Sound.antt =====
-- internal/selfupdate/pe.go: reading the identity of an executable ends, and what a panic of it can come from.
use dsh_work.Prelude.{◌^◌, ◌<◌, ◌⊎◌, ℕ, ◌+◌, ◌≤◌, ◌≡◌, ◌≢◌, inl, not, ◌||◌, eqb, subst}
use dsh_work.SelfUpdate.Bytes.{Slice, Read, got, unfinished, Rejection}
use dsh_work.SelfUpdate.Bytes.Outcomes.{
  Ensures, Any, Ensures-bind, Ensures-demand, Held, IsWhole, RunsOut, Stands,
}
use dsh_work.SelfUpdate.Image.{PeLayout, resource_directory, file_offset}
use dsh_work.SelfUpdate.Image.Sound.{
  DirectoryFits, Ensures-resource_directory, HasNoMagic, RangeFits, Ensures-file_offset,
}
use dsh_work.SelfUpdate.Resource.{version_info_resource}
use dsh_work.SelfUpdate.Resource.Ends.{Ensures-version_info_resource}
use dsh_work.SelfUpdate.Identity.{read_payload_identity}

Ensures-read_payload_identity :
    (C : Type 0) (upper : ℕ → ℕ) (raw : Slice)
    → IsWhole C raw
    → (HasNoMagic raw → C)
    → C ⊎ (raw.size < 2 ^ 32)
    → Ensures C Any (read_payload_identity upper raw)
unfolding read_payload_identity
Ensures-read_payload_identity C upper raw w c small =
    Ensures-bind C (DirectoryFits raw) Any (resource_directory raw) _
      (Ensures-resource_directory C raw w c)
      λ d h. Ensures-demand C Any (not (eqb d.1 0 || eqb d.2 0)) Rejection.no_directory _ λ e.
        Ensures-bind C Any Any (version_info_resource upper raw d.0 d.1 d.2) _
          (Ensures-version_info_resource C upper raw d.0 w d.1 d.2 small) λ info i. tt

not-unfinished : {A : Type 0} (C : Type 0) (m : Read A) → Ensures C Any m → m ≢ unfinished
not-unfinished C m h e = subst (Ensures C Any) e h

no_blame : (raw : Slice) → Held raw → IsWhole Unit raw
no_blame raw h = record { held = h; roomy = record { within = h; blame = λ k t s r. tt } }

-- Reading the identity of an executable ends, whatever bytes it holds: neither the loops over its
-- sections, its directories and its blocks nor the descent into the blocks run out of their rounds.
pub read_payload_identity-ends :
    (upper : ℕ → ℕ) (raw : Slice) → Held raw → read_payload_identity upper raw ≢ unfinished
read_payload_identity-ends upper raw h =
    not-unfinished Unit (read_payload_identity upper raw)
      (Ensures-read_payload_identity Unit upper raw (no_blame raw h) (λ m. tt) (inl tt))

-- What a panic can come from: the file has 4 GiB or more, so that the end of the resource directory
-- may wrap; the optional header has no room for its magic; or a block of the file has a key that is
-- cut behind the end of the array.
pub data Cause (raw : Slice) : Type 0 where
  wraps : 2 ^ 32 ≤ raw.size → Cause raw
  has_no_magic : HasNoMagic raw → Cause raw
  runs_out : (k : ℕ) (block : Slice) → Stands raw k block → RunsOut block → Cause raw

-- A range that the section table locates stands in the file, in spite of the additions that wrap.
pub file_offset-bounds :
    (l : PeLayout) (raw : Slice) (rva size offset : ℕ)
    → Held raw
    → file_offset l raw rva size ≡ got offset
    → offset + size ≤ raw.size
file_offset-bounds l raw rva size offset h e =
    subst (Ensures Unit (RangeFits raw size)) e
      (Ensures-file_offset Unit l raw rva size (no_blame raw h).roomy)
