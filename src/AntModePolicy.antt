-- ===== src/AntModePolicy.antt =====
-- antmode/internal/policy/policy.go: the antenna-mode state machine.
pub mod Types
pub mod Acting
pub mod Deciding
pub mod Standing
pub mod Setting
mod TextOrder
pub mod Acknowledging
pub mod Remembering
mod Tests
