-- ===== src/Engine.antt =====
-- `SessionEngine` of dhan_cas_bot/engine.py: what the feeds do to the session, and how it enters and
-- leaves a position.
mod State
mod Suffix
mod Signals
mod Finality
mod Capital
mod Entry
mod Choice
mod Purchase
mod Ladder
mod Leave
mod Leaving
pub mod Reached
pub mod Tracked
pub mod Runs
pub mod Order
pub mod Settled
pub mod Mandated
pub mod Taken
pub mod Held
pub mod Staying
pub mod Sticky
pub mod Quiet
pub mod Allowed
pub mod Entering
mod Scenes
mod Tests
mod EntryTests
mod LeaveTests
unfoldable pub use State.*
unfoldable pub use Signals.*
unfoldable pub use Finality.*
unfoldable pub use Capital.*
unfoldable pub use Entry.*
unfoldable pub use Choice.*
unfoldable pub use Purchase.*
unfoldable pub use Leave.*
