-- ===== src/Domain.antt =====
-- The value types of dhan_cas_bot/domain.py with the checks of their `__post_init__` methods.
--
-- Money is counted in ten-thousandths of a rupee, so a `Decimal` with up to four decimals is a
-- natural number here (an integer where it may be negative); `paisa` and `rupee` are the two
-- quanta that the code rounds to. Dates are day numbers and times are counts of their unit. A
-- negative value of a field that the code requires to be positive is refused by the field's type.
mod Types
pub mod Checks
unfoldable pub use Types.*
unfoldable pub use Checks.*
