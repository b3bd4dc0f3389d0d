-- ===== src/Activity.antt =====
-- internal/dshactivity: the activity of a worker's sessions, as the companion shows it.
pub mod Session
pub mod Projection
pub mod Bridge
pub mod Frames
mod Examples
