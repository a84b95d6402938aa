-- ===== src/Intraday.antt =====
-- dhan_cas_bot/session_strategies.py: the calendar of the sessions (Calendars), completed bars (Bars),
-- and the two rules on them (Rules); proofs in Windows.
pub mod Calendars
pub mod Bars
pub mod Rules
pub mod Windows
mod Tests
