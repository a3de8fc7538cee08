-- ===== src/RotatorLock.antt =====
-- wrc-rotator-bridge/internal/lock/gate.go: the antenna-mode lock on the rotator.
pub mod Types
pub mod Acting
pub mod Refusing
pub mod Parking
pub mod Tests
