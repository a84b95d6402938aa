-- ===== src/Exits.antt =====
-- dhan_cas_bot/exits.py and dhan_cas_bot/profit_exit.py: the price of a sale, the depth that a held
-- quantity meets, and the net-profit ratchet.
mod Sale
mod Ratchet
unfoldable pub use Sale.*
unfoldable pub use Ratchet.*
pub mod Band
pub mod Depth
pub mod Protection
mod Tests
