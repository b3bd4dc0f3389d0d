-- ===== src/SelfUpdate.antt =====
-- internal/selfupdate/pe.go: the version that a signed Windows executable declares.
pub mod Bytes
pub mod Image
pub mod Version
pub mod Blocks
pub mod Identity
pub mod Resource
mod Examples
