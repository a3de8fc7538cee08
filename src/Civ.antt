-- ===== src/Civ.antt =====
-- icom9700-radio-bridge/internal/civ: the CI-V protocol of the radio.
mod Tests
pub mod Buffer
pub mod Delivering
pub mod Sent
pub mod Resending
pub mod Codec
pub mod Digits
pub mod Frame
pub mod Parsing
