-- ===== src/Risk.antt =====
-- dhan_cas_bot/risk.py: rounding to paise, the capital rule, the fee envelope, the cash of an entry
-- and of a sale, the allocation, and the quantities that it permits.
mod Fees
mod Capital
pub mod Amounts
pub mod Envelope
pub mod Budget
mod Tests
unfoldable pub use Fees.*
unfoldable pub use Capital.*
