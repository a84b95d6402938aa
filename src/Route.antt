-- ===== src/Route.antt =====
-- dhan_cas_bot/route.py: the probe that qualifies the order route. Its contracts (Probe), the grant
-- of an extra attempt (Grants), its submission (Qualify), and what later proves the route (Exits);
-- proofs in Keys, Counters, Checks, Budget.
pub mod Probe
pub mod Grants
pub mod Qualify
pub mod Exits
pub mod Keys
pub mod Counters
pub mod Checks
pub mod Budget
mod Tests
