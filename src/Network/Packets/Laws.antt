-- ===== src/Network/Packets/Laws.antt =====
-- About the bytes of network packets and the choice among them by type
-- (include/network, src/p2p/p2p_node.cpp).
use turtlecoin_v.Base.{ℕ, ◌≡◌, ◌<◌, ◌^◌, arith, length, All, List}
use turtlecoin_v.Serial.{Bytes, Reader, Wire, IsU16, IsU64, IsKey, read_many, write_each}
use turtlecoin_v.Serial.Laws.{
  Reads, WireLaws, Reads->>=, Reads-return, Reads-whole, Reads-peek, Peeks, Peeks-Reads,
  Peeks-append, Reads-read_many,
}
use turtlecoin_v.Network.Ip.{Ipv6}
use turtlecoin_v.Network.Peer.{NetworkPeer, serialize_peer, deserialize_peer}
use turtlecoin_v.Network.Peer.Laws.{IsPeer, peer_back}
use turtlecoin_v.Network.Packets.Handshake
use turtlecoin_v.Network.Packets.Handshake.{HandshakePacket}
use turtlecoin_v.Network.Packets.PeerExchange
use turtlecoin_v.Network.Packets.PeerExchange.{PeerExchangePacket}
use turtlecoin_v.Network.Packets.Keepalive
use turtlecoin_v.Network.Packets.Keepalive.{KeepalivePacket}
use turtlecoin_v.Network.Packets.Data
use turtlecoin_v.Network.Packets.Data.{DataPacket}
use turtlecoin_v.Network.Packets.{
  Packet, handshake, peer_exchange, keepalive, network_data, serialize, deserialize, deserialize_as,
  wrap,
}

-- The fields of a packet that lists peers are in the range of their types, and the peers' addresses
-- are normal and without ports.
pub record IsListing (ip : Ipv6) (v id p network : ℕ) (listed : List NetworkPeer) : Type 0 where
  pub version : IsU16 v
  pub peer_id : IsKey id
  pub peer_port : IsU16 p
  pub network_id : IsKey network
  pub count : IsU64 (length listed)
  pub peers : All (IsPeer ip) listed

-- The fields are in the range of their types, and the type field is that of the alternative.
abbrev pub IsPacket : Ipv6 → Packet → Type 0
IsPacket ip (handshake p) =
    (p.l_type ≡ Handshake.network_type)
    × IsListing ip p.version p.peer_id p.peer_port p.network_id p.peers
IsPacket ip (peer_exchange p) =
    (p.l_type ≡ PeerExchange.network_type)
    × IsListing ip p.version p.peer_id p.peer_port p.network_id p.peers
IsPacket ip (keepalive p) = (p.l_type ≡ Keepalive.network_type) × IsU16 p.version × IsKey p.peer_id
IsPacket ip (network_data p) =
    (p.l_type ≡ Data.network_type) × IsU16 p.version × IsKey p.network_id × IsU64 (length p.payload)

abbrev pub type_of : Packet → ℕ
type_of (handshake p) = p.l_type
type_of (peer_exchange p) = p.l_type
type_of (keepalive p) = p.l_type
type_of (network_data p) = p.l_type

Reads-wrap :
    {A : Type 0} (r : Reader A) (f : A → Packet) {bs : Bytes} {a : A}
    → Reads r bs a
    → Reads (wrap r f) bs (f a)
unfolding wrap
Reads-wrap r f h = Reads-whole (Reads->>= _ h (Reads-return _))

module _ (w : Wire) (laws : WireLaws w) (ip : Ipv6) where
  peers_back :
      (peers : List NetworkPeer)
      → All (IsPeer ip) peers
      → Reads
          (read_many (length peers) (deserialize_peer w ip))
          (write_each (serialize_peer w) peers)
          peers
  peers_back peers h =
      Reads-read_many (deserialize_peer w ip) (serialize_peer w) (IsPeer ip) (peer_back w laws ip)
        peers h

  type_back : (n : ℕ) → n < 2 ^ 16 → Peeks (w.read_varint 64) (w.varint n) n
  type_back n small = Peeks-Reads (laws.varint_back 64 n (omega arith))

  type_front : (p : Packet) → IsPacket ip p → Peeks (w.read_varint 64) (serialize w p) (type_of p)
  unfolding serialize Handshake.serialize PeerExchange.serialize Keepalive.serialize Data.serialize
  type_front (handshake p) h = Peeks-append _ (type_back p.l_type (omega (arith, h.0)))
  type_front (peer_exchange p) h = Peeks-append _ (type_back p.l_type (omega (arith, h.0)))
  type_front (keepalive p) h = Peeks-append _ (type_back p.l_type (omega (arith, h.0)))
  type_front (network_data p) h = Peeks-append _ (type_back p.l_type (omega (arith, h.0)))

  handshake_back :
      (p : HandshakePacket)
      → IsPacket ip (handshake p)
      → Reads (Handshake.deserialize w ip) (Handshake.serialize w p) p
  unfolding Handshake.serialize Handshake.deserialize
  handshake_back p (e, h) = Reads->>= _ (laws.varint_back 16 p.l_type (omega arith)) (
      Reads->>= _ (laws.varint_back 16 p.version h.version) (
        Reads->>= _ (laws.key_back p.peer_id h.peer_id) (
          Reads->>= _ (laws.varint_back 16 p.peer_port h.peer_port) (
            Reads->>= _ (laws.key_back p.network_id h.network_id) (
              Reads->>= _ (laws.varint_back 64 (length p.peers) h.count)
                (Reads->>= _ (peers_back p.peers h.peers) (Reads-return p)))))))

  peer_exchange_back :
      (p : PeerExchangePacket)
      → IsPacket ip (peer_exchange p)
      → Reads (PeerExchange.deserialize w ip) (PeerExchange.serialize w p) p
  unfolding PeerExchange.serialize PeerExchange.deserialize
  peer_exchange_back p (e, h) = Reads->>= _ (laws.varint_back 16 p.l_type (omega arith)) (
      Reads->>= _ (laws.varint_back 16 p.version h.version) (
        Reads->>= _ (laws.key_back p.peer_id h.peer_id) (
          Reads->>= _ (laws.varint_back 16 p.peer_port h.peer_port) (
            Reads->>= _ (laws.key_back p.network_id h.network_id) (
              Reads->>= _ (laws.varint_back 64 (length p.peers) h.count)
                (Reads->>= _ (peers_back p.peers h.peers) (Reads-return p)))))))

  keepalive_back :
      (p : KeepalivePacket)
      → IsPacket ip (keepalive p)
      → Reads (Keepalive.deserialize w) (Keepalive.serialize w p) p
  unfolding Keepalive.serialize Keepalive.deserialize
  keepalive_back p (e, version, peer_id) =
      Reads->>= _ (laws.varint_back 16 p.l_type (omega arith)) (
        Reads->>= _ (laws.varint_back 16 p.version version)
          (Reads->>= _ (laws.key_back p.peer_id peer_id) (Reads-return p)))

  data_back :
      (p : DataPacket)
      → IsPacket ip (network_data p)
      → Reads (Data.deserialize w) (Data.serialize w p) p
  unfolding Data.serialize Data.deserialize
  data_back p (e, version, network_id, count) =
      Reads->>= _ (laws.varint_back 16 p.l_type (omega arith)) (
        Reads->>= _ (laws.varint_back 16 p.version version) (
          Reads->>= _ (laws.key_back p.network_id network_id) (
            Reads->>= _ (laws.varint_back 64 (length p.payload) count)
              (Reads->>= _ (laws.bytes_back p.payload) (Reads-return p)))))

  chosen : (p : Packet) → IsPacket ip p → Reads (deserialize_as w ip (type_of p)) (serialize w p) p
  unfolding serialize deserialize_as
  chosen (handshake p) h =
      simp h.0 (Reads-wrap (Handshake.deserialize w ip) handshake (handshake_back p h))
  chosen (peer_exchange p) h =
      simp h.0 (Reads-wrap (PeerExchange.deserialize w ip) peer_exchange (peer_exchange_back p h))
  chosen (keepalive p) h =
      simp h.0 (Reads-wrap (Keepalive.deserialize w) keepalive (keepalive_back p h))
  chosen (network_data p) h =
      simp h.0 (Reads-wrap (Data.deserialize w) network_data (data_back p h))

  -- With WireLaws: a network packet of any of the four kinds, with fields in the range of their
  -- types and the type of its kind, in which every peer's address is in its normal form and has no
  -- port of its own, is recognised by its type and read back from its bytes.
  pub packet_round_trip : (p : Packet) → IsPacket ip p → Reads (deserialize w ip) (serialize w p) p
  unfolding deserialize
  packet_round_trip p h = Reads-peek _ (type_front p h) (chosen p h)
