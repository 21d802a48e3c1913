-- ===== src/P2p.antt =====
-- The peer-to-peer node and its peer list (src/p2p).
pub mod PeerDb
pub mod Node
pub mod Connections
pub mod Broadcasts
