-- ===== src/Network/Packets.antt =====
-- The packets of the peer-to-peer network and the choice among them
-- (include/network/base_types.h, src/p2p/p2p_node.cpp).
pub mod Handshake
pub mod PeerExchange
pub mod Keepalive
pub mod Data
pub mod Laws
use turtlecoin_v.Base.{ℕ, ◌==◌, if◌then◌else◌}
use turtlecoin_v.Serial.{Bytes, Reader, ◌>>=◌, return, throw, peek, Wire}
use turtlecoin_v.Network.Ip.{Ipv6}
use turtlecoin_v.Network.Packets.Handshake
use turtlecoin_v.Network.Packets.Handshake.{HandshakePacket}
use turtlecoin_v.Network.Packets.PeerExchange
use turtlecoin_v.Network.Packets.PeerExchange.{PeerExchangePacket}
use turtlecoin_v.Network.Packets.Keepalive
use turtlecoin_v.Network.Packets.Keepalive.{KeepalivePacket}
use turtlecoin_v.Network.Packets.Data
use turtlecoin_v.Network.Packets.Data.{DataPacket}

pub data Packet : Type 0 where
  handshake : HandshakePacket → Packet
  peer_exchange : PeerExchangePacket → Packet
  keepalive : KeepalivePacket → Packet
  network_data : DataPacket → Packet

unfoldable pub serialize : Wire → Packet → Bytes
serialize w (handshake p) = Handshake.serialize w p
serialize w (peer_exchange p) = PeerExchange.serialize w p
serialize w (keepalive p) = Keepalive.serialize w p
serialize w (network_data p) = Data.serialize w p

wrap : {A : Type 0} → Reader A → (A → Packet) → Reader Packet
wrap r f = do p ← r; return (f p)

-- `switch (type)` of `handle_incoming_message`, up to the calls of the handlers.
unfoldable pub deserialize_as : Wire → Ipv6 → ℕ → Reader Packet
unfolding wrap
deserialize_as w ip type =
    if type == Handshake.network_type
    then wrap (Handshake.deserialize w ip) handshake
    else if type == PeerExchange.network_type
    then wrap (PeerExchange.deserialize w ip) peer_exchange
    else if type == Keepalive.network_type
    then wrap (Keepalive.deserialize w) keepalive
    else if type == Data.network_type
    then wrap (Data.deserialize w) network_data
    else throw

unfoldable pub deserialize : Wire → Ipv6 → Reader Packet
deserialize w ip = do type ← peek (w.read_varint 64); deserialize_as w ip type
