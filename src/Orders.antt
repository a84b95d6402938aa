-- ===== src/Orders.antt =====
-- dhan_cas_bot/orders.py and dhan_cas_bot/exit_manager.py: the request for an intent, the rate
-- reserve, the submission under the writer lock, and the reduction of a position.
pub mod Action
mod Request
mod Rate
mod Submit
mod Reduce
mod Trades
mod Resolve
mod Reconcile
pub mod Kept
pub mod Settled
pub mod States
pub mod Windows
pub mod Sending
pub mod Outcome
mod Tests
unfoldable pub use Request.*
unfoldable pub use Rate.*
unfoldable pub use Submit.*
unfoldable pub use Reduce.*
unfoldable pub use Trades.*
unfoldable pub use Resolve.*
unfoldable pub use Reconcile.*
