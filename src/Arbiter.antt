-- ===== src/Arbiter.antt =====
-- dhan_cas_bot/strategy_arbiter.py: the choice among executable signals, and the ranking of signals.
mod Selection
pub mod Best
mod Tests
unfoldable pub use Selection.*
