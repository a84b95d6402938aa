-- ===== src/Settlement.antt =====
-- dhan_cas_bot/settlement.py, settlement_adapter.py and settlement_cash.py: final values and the
-- matching of a settlement with the broker's cash statement.
pub mod Final
pub mod Cash
pub mod Matched
mod Tests
