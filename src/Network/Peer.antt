-- ===== src/Network/Peer.antt =====
-- `network_peer_t` (include/network/base_types.h), an entry of the peer list.
pub mod Laws
use turtlecoin_v.Base.{ℕ, List, [], ◌∷◌}
use turtlecoin_v.Serial.{Bytes, Reader, ◌>>=◌, return, Wire, emit}
use turtlecoin_v.Crypto.{Crypto}
use turtlecoin_v.Network.Ip.{IpAddress, Ipv6, serialize_address, deserialize_address}

pub record NetworkPeer : Type 0 where
  pub address : IpAddress
  pub port : ℕ
  pub peer_id : ℕ
  pub network_id : ℕ
  pub last_seen : ℕ

-- The constructor from parts; `now` is what `time(nullptr)` returns in the field's initializer.
unfoldable pub new_peer : ℕ → IpAddress → ℕ → ℕ → ℕ → NetworkPeer
new_peer now address peer_id peer_port network_id = record {
  address = address;
  port = peer_port;
  peer_id = peer_id;
  network_id = network_id;
  last_seen = now;
}

unfoldable pub serialize_peer : Wire → NetworkPeer → Bytes
serialize_peer w p = emit (
    serialize_address w p.address
    ∷ w.varint p.port
    ∷ w.key p.peer_id
    ∷ w.key p.network_id
    ∷ w.varint p.last_seen
    ∷ [])

unfoldable pub deserialize_peer : Wire → Ipv6 → Reader NetworkPeer
deserialize_peer w ip = do
  address ← deserialize_address w ip
  port ← w.read_varint 16
  peer_id ← w.read_key
  network_id ← w.read_key
  last_seen ← w.read_varint 64
  return (record {
    address = address;
    port = port;
    peer_id = peer_id;
    network_id = network_id;
    last_seen = last_seen;
  })

unfoldable pub peer_hash : Wire → Crypto → NetworkPeer → ℕ
peer_hash w c p = c.sha3 (serialize_peer w p)
