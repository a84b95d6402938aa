-- ===== src/Reads.antt =====
-- The queue of the reads of an account at the broker (Queue); proofs in Rank, Kept and Granted.
pub mod Queue
pub mod Rank
pub mod Kept
pub mod Granted
mod Tests
