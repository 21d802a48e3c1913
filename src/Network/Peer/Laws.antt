-- ===== src/Network/Peer/Laws.antt =====
-- About the bytes of peer list entries (include/network/base_types.h).
use turtlecoin_v.Base.{◌≡◌, ◌<◌, ◌^◌, length, All}
use turtlecoin_v.Serial.{Wire, IsU16, IsU64, IsKey}
use turtlecoin_v.Serial.Laws.{Reads, WireLaws, Reads->>=, Reads-return}
use turtlecoin_v.Network.Ip.{Ipv6, normalize_v4_embedded}
use turtlecoin_v.Network.Ip.Laws.{IsAddress, address_back, address-Reads}
use turtlecoin_v.Network.Peer.{NetworkPeer, serialize_peer, deserialize_peer}

-- The fields are in the range of their types, and the address is normal and without a port.
pub record IsPeer (ip : Ipv6) (p : NetworkPeer) : Type 0 where
  pub address : IsAddress ip p.address
  pub port : IsU16 p.port
  pub peer_id : IsKey p.peer_id
  pub network_id : IsKey p.network_id
  pub last_seen : IsU64 p.last_seen

-- A peer is read back from its bytes.
pub peer_back :
    (w : Wire) (laws : WireLaws w) (ip : Ipv6) (p : NetworkPeer)
    → IsPeer ip p
    → Reads (deserialize_peer w ip) (serialize_peer w p) p
unfolding serialize_peer deserialize_peer
peer_back w laws ip p h = Reads->>= _ (address_back w laws ip p.address h.address) (
    Reads->>= _ (laws.varint_back 16 p.port h.port) (
      Reads->>= _ (laws.key_back p.peer_id h.peer_id) (
        Reads->>= _ (laws.key_back p.network_id h.network_id)
          (Reads->>= _ (laws.varint_back 64 p.last_seen h.last_seen) (Reads-return p)))))

-- The fields are in the range of their types.
pub record IsStorable (ip : Ipv6) (p : NetworkPeer) : Type 0 where
  pub component_count : length p.address.components ≡ ip.num_components
  pub small_components : All (λ x. x < 2 ^ 16) p.address.components
  pub small_flags : p.address.flags < 2 ^ 32
  pub port : IsU16 p.port
  pub peer_id : IsKey p.peer_id
  pub network_id : IsKey p.network_id
  pub last_seen : IsU64 p.last_seen

-- What comes back of a peer: the address is in its normal form and without its own port.
abbrev pub stored : Ipv6 → NetworkPeer → NetworkPeer
stored ip p = record p {
  address =
      normalize_v4_embedded ip
        (record { components = p.address.components; port = 0; flags = p.address.flags });
}

pub stored_back :
    (w : Wire) (laws : WireLaws w) (ip : Ipv6) (p : NetworkPeer)
    → IsStorable ip p
    → Reads (deserialize_peer w ip) (serialize_peer w p) (stored ip p)
unfolding serialize_peer deserialize_peer
stored_back w laws ip p h =
    Reads->>= _
      (address-Reads w laws ip p.address h.component_count h.small_components h.small_flags)
      (Reads->>= _ (laws.varint_back 16 p.port h.port) (
        Reads->>= _ (laws.key_back p.peer_id h.peer_id) (
          Reads->>= _ (laws.key_back p.network_id h.network_id)
            (Reads->>= _ (laws.varint_back 64 p.last_seen h.last_seen) (Reads-return _)))))
