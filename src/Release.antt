-- ===== src/Release.antt =====
-- internal/release: versions and channels, and the identity of a release.
pub mod Text
pub mod Version
pub mod Compute
