-- ===== src/Governor.antt =====
-- `RateGovernor` of dhan_cas_bot/governor.py: windows over the times of the admitted requests.
mod Windows
pub mod Admission
mod Tests
unfoldable pub use Windows.*
