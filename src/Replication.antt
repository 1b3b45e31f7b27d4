-- ===== src/Replication.antt =====
-- The replication between siblings: encryption, framing and queues.
pub mod Crypto
pub mod Transport
pub mod Framing
pub mod Delivery
pub mod Bounds
pub mod Nonces
pub mod Sibling
pub mod Siblings
pub mod Peers
pub mod Queue
pub mod Message
pub mod Reading
