-- ===== src/PowerSeq.antt =====
-- powerseq/internal/seq: the station startup and shutdown sequencer.
pub mod Types
pub mod Tests
pub mod Inputs
pub mod Persist
pub mod Phases
pub mod Idle
pub mod Observe
pub mod Wait
pub mod Run
pub mod Resolve
pub mod Deciding
pub mod Waiting
pub mod Frames
pub mod Invariant
pub mod Sending
pub mod Restarting
pub mod Crashing
pub mod Watching
pub mod Configuring
