-- ===== src/Network.antt =====
-- The structures of the peer-to-peer network (include/network).
pub mod Ip
pub mod Peer
pub mod Packets
