-- ===== src/Network/Packets/PeerExchange.antt =====
-- `packet_peer_exchange_t` (include/network/packet_peer_exchange.h).
use turtlecoin_v.Base.{ℕ, List, [], ◌∷◌, length}
use turtlecoin_v.Serial.{Bytes, Reader, ◌>>=◌, return, Wire, write_each, read_many, emit}
use turtlecoin_v.Crypto.{Crypto}
use turtlecoin_v.Network.Ip.{Ipv6}
use turtlecoin_v.Network.Peer.{NetworkPeer, serialize_peer, deserialize_peer}

pub record PeerExchangePacket : Type 0 where
  pub l_type : ℕ
  pub version : ℕ
  pub peer_id : ℕ
  pub peer_port : ℕ
  pub network_id : ℕ
  pub peers : List NetworkPeer

abbrev pub network_type : ℕ
network_type = 1200

-- The constructor from parts, with the default version of a packet.
unfoldable pub new : ℕ → ℕ → ℕ → PeerExchangePacket
new peer_id peer_port network_id = record {
  l_type = network_type;
  version = 1;
  peer_id = peer_id;
  peer_port = peer_port;
  network_id = network_id;
  peers = [];
}

unfoldable pub serialize : Wire → PeerExchangePacket → Bytes
serialize w p = emit (
    w.varint p.l_type
    ∷ w.varint p.version
    ∷ w.key p.peer_id
    ∷ w.varint p.peer_port
    ∷ w.key p.network_id
    ∷ w.varint (length p.peers)
    ∷ write_each (serialize_peer w) p.peers
    ∷ [])

unfoldable pub deserialize : Wire → Ipv6 → Reader PeerExchangePacket
deserialize w ip = do
  l_type ← w.read_varint 16
  version ← w.read_varint 16
  peer_id ← w.read_key
  peer_port ← w.read_varint 16
  network_id ← w.read_key
  peer_count ← w.read_varint 64
  peers ← read_many peer_count (deserialize_peer w ip)
  return (record {
    l_type = l_type;
    version = version;
    peer_id = peer_id;
    peer_port = peer_port;
    network_id = network_id;
    peers = peers;
  })

unfoldable pub hash : Wire → Crypto → PeerExchangePacket → ℕ
hash w c p = c.sha3 (serialize w p)
