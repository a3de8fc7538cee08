-- ===== src/UltraBridge.antt =====
-- ultrabridge/internal/ub: the bridge of the Ultrabeam antenna controller.
pub mod Tests
pub mod Packet
pub mod Reading
pub mod Commands
pub mod Lock
pub mod Controlling
pub mod Locking
pub mod Retracting
pub mod History
pub mod Promises
