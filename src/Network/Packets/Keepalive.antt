-- ===== src/Network/Packets/Keepalive.antt =====
-- `packet_keepalive_t` (include/network/packet_keepalive.h).
use turtlecoin_v.Base.{ℕ, [], ◌∷◌}
use turtlecoin_v.Serial.{Bytes, Reader, ◌>>=◌, return, Wire, emit}
use turtlecoin_v.Crypto.{Crypto}

pub record KeepalivePacket : Type 0 where
  pub l_type : ℕ
  pub version : ℕ
  pub peer_id : ℕ

abbrev pub network_type : ℕ
network_type = 1100

-- The constructor from a peer id, with the default version of a packet.
unfoldable pub new : ℕ → KeepalivePacket
new peer_id = record { l_type = network_type; version = 1; peer_id = peer_id }

unfoldable pub serialize : Wire → KeepalivePacket → Bytes
serialize w p = emit (w.varint p.l_type ∷ w.varint p.version ∷ w.key p.peer_id ∷ [])

unfoldable pub deserialize : Wire → Reader KeepalivePacket
deserialize w = do
  l_type ← w.read_varint 16
  version ← w.read_varint 16
  peer_id ← w.read_key
  return (record { l_type = l_type; version = version; peer_id = peer_id })

unfoldable pub hash : Wire → Crypto → KeepalivePacket → ℕ
hash w c p = c.sha3 (serialize w p)
