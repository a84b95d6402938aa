-- ===== src/Candles.antt =====
-- dhan_cas_bot/stream_minutes.py: the completed one-minute candles of the index.
mod Minutes
pub mod Clean
mod Tests
unfoldable pub use Minutes.*
