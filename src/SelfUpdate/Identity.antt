-- ===== src/SelfUpdate/Identity.antt =====
-- internal/selfupdate/pe.go: the identity that an executable declares.
pub mod Sound
use dsh_work.Prelude.{
  ℕ, Bool, true, false, ◌||◌, Option, none, some, List, [], ◌∷◌, ◌++◌, eqb, if◌then◌else◌, not,
}
use dsh_work.Release.Text.{Text, is_empty, trim_space, decimal}
use dsh_work.SelfUpdate.Bytes.{
  Slice, Read, got, bad, crashed, unfinished, ◌>>=◌, ◌>>◌, demand, Rejection,
}
use dsh_work.SelfUpdate.Image.{PeLayout, resource_directory}
use dsh_work.SelfUpdate.Version.{Fixed, ExecutableVersion, find}
use dsh_work.SelfUpdate.Resource.{version_info_resource}

pub record PayloadIdentity : Type 0 where
  pub fixed : Text
  pub file_version : Text
  pub product_version : Text

-- `FILEVERSION` and `PRODUCTVERSION`
abbrev pub file_version_key : Text
file_version_key = b'F' ∷ b'I' ∷ b'L' ∷ b'E' ∷ b'V' ∷ b'E' ∷ b'R' ∷ b'S' ∷ b'I' ∷ b'O' ∷ b'N' ∷ []

abbrev pub product_version_key : Text
product_version_key =
    b'P' ∷ b'R' ∷ b'O' ∷ b'D' ∷ b'U' ∷ b'C' ∷ b'T' ∷ b'V' ∷ b'E' ∷ b'R' ∷ b'S' ∷ b'I' ∷ b'O' ∷ b'N'
    ∷ []

add_declared : Text → List Text → List Text
add_declared value rest = if is_empty (trim_space value) then rest else trim_space value ∷ rest

-- `versionStrings`
unfoldable pub version_strings : PayloadIdentity → List Text
unfolding add_declared
version_strings i = add_declared i.file_version (add_declared i.product_version [])

-- `"%d.%d.%d.%d"`
dotted : Option Fixed → Text
dotted none = []
dotted (some f) =
    decimal f.major
    ++ b'.' ∷ (decimal f.minor ++ b'.' ∷ (decimal f.build ++ b'.' ∷ decimal f.revision))

-- `readPayloadIdentity` of the bytes that the file holds.
unfoldable pub read_payload_identity : (ℕ → ℕ) → Slice → Read PayloadIdentity
unfolding dotted
read_payload_identity upper raw = do
  directory ← resource_directory raw
  demand (not (eqb directory.1 0 || eqb directory.2 0)) Rejection.no_directory
  info ← version_info_resource upper raw directory.0 directory.1 directory.2
  got (record {
    fixed = dotted info.fixed;
    file_version = find file_version_key info.named;
    product_version = find product_version_key info.named;
  })
