-- ===== src/Settings.antt =====
-- internal/settings: the policies that the settings hold.
pub mod Computer
