-- ===== src/Runtime.antt =====
-- dhan_cas_bot/runtime.py: what must hold before an entry is permitted.
mod Status
pub mod Permission
mod Tests
unfoldable pub use Status.*
