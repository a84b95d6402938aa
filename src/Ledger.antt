-- ===== src/Ledger.antt =====
-- dhan_cas_bot/ledger.py: the tables of the durable ledger as lists of rows, and each method as a
-- function from the database to the database or to an exception. An exception leaves the caller
-- with the database that it had, as `Ledger.transaction` rolls back.
mod Tables
mod Intents
mod Orders
pub mod Totals
mod Keyed
pub mod History
pub mod Recorded
pub mod Capacity
pub mod Evidence
pub mod Repeat
pub mod Exposure
mod Tests
unfoldable pub use Tables.*
unfoldable pub use Intents.*
unfoldable pub use Orders.*
unfoldable pub use Totals.*
unfoldable pub use Keyed.*
