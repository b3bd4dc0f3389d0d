-- ===== src/Lifecycle.antt =====
-- internal/lifecycle: the generation state machine, the managed quit and the window ledger.
pub mod Types
pub mod Machine
pub mod QuitFlow
pub mod WindowLedger
mod Examples
