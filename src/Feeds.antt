-- ===== src/Feeds.antt =====
-- The market feed of the broker: the frames of a message (Frames; proofs in Split, Covers), a decoded
-- packet (Quotes, Decode; proofs in Depth), the epochs of a connection (Epochs), which contracts are
-- subscribed to (Sets, Universe) and how (Subscriptions; proofs in Held, Synced).
pub mod Frames
pub mod Quotes
pub mod Decode
pub mod Depth
pub mod Epochs
pub mod Sets
pub mod Subscriptions
pub mod Held
pub mod Synced
pub mod Universe
mod Tests
pub mod Split
pub mod Covers
