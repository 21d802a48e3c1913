-- ===== src/Network/Packets/Data.antt =====
-- `packet_data_t` (include/network/packet_data.h).
use turtlecoin_v.Base.{ℕ, [], ◌∷◌, length}
use turtlecoin_v.Serial.{Bytes, Reader, ◌>>=◌, return, Wire, emit}
use turtlecoin_v.Crypto.{Crypto}

pub record DataPacket : Type 0 where
  pub l_type : ℕ
  pub version : ℕ
  pub network_id : ℕ
  pub payload : Bytes

abbrev pub network_type : ℕ
network_type = 3000

unfoldable pub serialize : Wire → DataPacket → Bytes
serialize w p = emit (
    w.varint p.l_type
    ∷ w.varint p.version
    ∷ w.key p.network_id
    ∷ w.varint (length p.payload)
    ∷ w.bytes p.payload
    ∷ [])

unfoldable pub deserialize : Wire → Reader DataPacket
deserialize w = do
  l_type ← w.read_varint 16
  version ← w.read_varint 16
  network_id ← w.read_key
  payload_bytes ← w.read_varint 64
  payload ← w.read_bytes payload_bytes
  return (record { l_type = l_type; version = version; network_id = network_id; payload = payload })

unfoldable pub hash : Wire → Crypto → DataPacket → ℕ
hash w c p = c.sha3 (serialize w p)
