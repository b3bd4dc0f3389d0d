-- ===== src/Pet.antt =====
-- internal/pet: the companion that shows what the worker does.
pub mod Runtime
pub mod Actions
pub mod Transient
pub mod Gate
pub mod Dispatch
mod Examples
