-- ===== src/P2p/Connections/Bounds.antt =====
-- About the number of outgoing connections and repeated connections (src/p2p/p2p_node.cpp).
use turtlecoin_v.Base.{
  ℕ, ◌+◌, ◌≡◌, ◌≢◌, ◌≤◌, refl, true, not, ◌==◌, List, [], ◌∷◌, length, arith, if◌then◌else◌, guard,
}
use turtlecoin_v.Errors.{success, fail}
use turtlecoin_v.Errors.ErrorCode.{p2p_dupe_connect}
use turtlecoin_v.Serial.{Wire}
use turtlecoin_v.Crypto.{Crypto}
use turtlecoin_v.Network.Ip.{Ipv6}
use turtlecoin_v.Network.Peer.{NetworkPeer}
use turtlecoin_v.Tools.Set.{contains, erase, length-erase, length-insert, contains-insert_self}
use turtlecoin_v.P2p.PeerDb
use turtlecoin_v.P2p.PeerDb.{PeerTable, truncate}
use turtlecoin_v.P2p.PeerDb.Laws.{length-truncate}
use turtlecoin_v.P2p.Node.{Settings}
use turtlecoin_v.P2p.Connections.{
  Network, Links, connect, drop_disconnected, delta_connections, connect_each, manage_connections,
}
use Prim.Native.String.{String}

module _ (w : Wire) (c : Crypto) (ip : Ipv6) (shuffle : List NetworkPeer → List NetworkPeer)
    {Db : Type 0} (t : PeerTable Db) (s : Settings) (net : Network) where
  connect_grows :
      (db : Db) (host : String) (port : ℕ) (l : Links)
      → length (connect w c ip shuffle t s net db host port l).1.clients ≤ length l.clients + 1
  unfolding connect
  connect_grows db host port l =
      let hash = (net.normalize_host_port host port).2 in
      ground (arith, length-insert hash l.clients)

  connect_each_grows :
      (db : Db) (ps : List NetworkPeer) (l : Links)
      → length (connect_each w c ip shuffle t s net db ps l).clients ≤ length l.clients + length ps
  unfolding connect_each
  connect_each_grows db [] l = omega arith
  connect_each_grows db (p ∷ ps) l = ground (
    arith,
    connect_each_grows db ps l,
    connect_each_grows db ps
        (connect w c ip shuffle t s net db (net.address_to_string p.address) p.port l).1,
    connect_grows db (net.address_to_string p.address) p.port l,
  )

  drop_shrinks :
      (ids clients : List ℕ)
      → length (drop_disconnected w c ip shuffle t s net ids clients) ≤ length clients
  unfolding drop_disconnected
  drop_shrinks [] clients = omega arith
  drop_shrinks (id ∷ ids) clients = ground (
    arith,
    drop_shrinks ids clients,
    drop_shrinks ids (erase id clients),
    length-erase id clients,
  )

  peers_limit :
      (limit network : ℕ) (db : Db)
      → limit ≢ 0
      → length (PeerDb.peers c shuffle t s.peer_id limit network db) ≤ limit
  unfolding PeerDb.peers
  peers_limit limit network db ne =
      let all = t.all db in
      let chosen = if not (c.key_empty network) then PeerDb.of_network network all else all in
      ground (arith, length-truncate limit (shuffle chosen))

  delta_small :
      (l : Links)
      → length l.clients ≤ 11
      → delta_connections w c ip shuffle t s net l + length l.clients ≡ 11
  unfolding delta_connections
  delta_small l small = omega arith

  -- If at most 11 outgoing connections are there, a turn of the connection manager leaves at most
  -- 11.
  pub outgoing_bound :
      (db : Db) (l : Links)
      → length l.clients ≤ 11
      → length (manage_connections w c ip shuffle t s net db l).clients ≤ 11
  unfolding manage_connections
  outgoing_bound db l small =
      let kept : Links = record l {
        clients = drop_disconnected w c ip shuffle t s net l.clients l.clients;
      } in
      let few = drop_shrinks l.clients l.clients in
      let room = delta_small kept (omega (arith, few)) in
      let delta : ℕ = delta_connections w c ip shuffle t s net kept in
      let network : ℕ = if s.seed_mode then c.key_default else s.network_id in
      let ps : List NetworkPeer = PeerDb.peers c shuffle t s.peer_id delta network db in
      guard (λ (k : Links). length k.clients ≤ 11) (delta == 0) (omega (arith, few))
        (λ some_room.
          let limit = peers_limit delta network db (λ none_left. ground arith) in
          omega (arith, few, room, limit, connect_each_grows db ps kept))

  connected :
      (db : Db) (host : String) (port : ℕ) (l : Links)
      → (connect w c ip shuffle t s net db host port l).0 ≡ success
      → contains
          (net.normalize_host_port host port).2
          (connect w c ip shuffle t s net db host port l).1.clients
        ≡ true
  unfolding connect
  connected db host port l done =
      ground (arith, contains-insert_self (net.normalize_host_port host port).2 l.clients)

  refused :
      (db : Db) (host : String) (port : ℕ) (l : Links)
      → contains (net.normalize_host_port host port).2 l.clients ≡ true
      → connect w c ip shuffle t s net db host port l ≡ (fail p2p_dupe_connect, l)
  unfolding connect
  refused db host port l known = rw known refl

  -- Again.
  pub connect_twice :
      (db later : Db) (host : String) (port : ℕ) (l : Links)
      → (connect w c ip shuffle t s net db host port l).0 ≡ success
      → connect w c ip shuffle t s net later host port
          (connect w c ip shuffle t s net db host port l).1
        ≡ (fail p2p_dupe_connect, (connect w c ip shuffle t s net db host port l).1)
  connect_twice db later host port l done =
      refused later host port (connect w c ip shuffle t s net db host port l).1
        (connected db host port l done)
