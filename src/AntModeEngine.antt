-- ===== src/AntModeEngine.antt =====
-- antmode/internal/engine and heading: the engine of the antenna mode, which builds the lock
-- in a safe order, borrows antenna power and publishes the mode.
pub mod Types
pub mod Heading
pub mod Parking
pub mod Publishing
pub mod Borrowing
pub mod Stepping
pub mod Startup
pub mod Inputs
pub mod Frames
pub mod Bearing
pub mod Fitting
pub mod Keeping
pub mod Entering
pub mod Invariant
pub mod Loading
pub mod Histories
pub mod Guards
pub mod Order
pub mod Carrying
pub mod Remaining
pub mod Published
pub mod Lending
mod Tests
pub mod Restarting
