-- ===== src/Strategy.antt =====
-- dhan_cas_bot/strategy.py: the reference at the close, the sizing of an entry, and the searches for an
-- opportunity.
mod Boundary
mod Sizing
mod Candidates
mod Search
mod Residual
pub mod Worth
pub mod Chosen
pub mod Moves
pub mod Sound
pub mod Final
pub mod Usable
pub mod Median
pub mod Largest
pub mod Scenes
mod Tests
unfoldable pub use Boundary.*
unfoldable pub use Sizing.*
unfoldable pub use Candidates.*
unfoldable pub use Search.*
unfoldable pub use Residual.*
