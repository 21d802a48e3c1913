-- ===== src/P2p/Connections.antt =====
-- The outgoing connections of `P2P::Node` (src/p2p/p2p_node.cpp): `connect`, one round of
-- `connection_manager`, and `start`. The sockets, the normal form of a host and the text of an
-- address are the parameter `Network`.
pub mod Bounds
use turtlecoin_v.Base.{
  ℕ, zero, suc, ◌+◌, ◌-◌, ◌%◌, ◌^◌, Bool, true, false, not, ◌&&◌, ◌||◌, ◌==◌, Option, none, some,
  List, [], ◌∷◌, ◌++◌, length, if◌then◌else◌,
}
use turtlecoin_v.Errors.{Error, success, fail, Outcome, ok, err, thrown}
use turtlecoin_v.Errors.ErrorCode.{p2p_dupe_connect, p2p_seed_connect}
use turtlecoin_v.Serial.{Bytes, Wire}
use turtlecoin_v.Crypto.{Crypto}
use turtlecoin_v.Network.Ip.{IpAddress, Ipv6, of_string}
use turtlecoin_v.Network.Peer.{NetworkPeer}
use turtlecoin_v.Network.Packets
use turtlecoin_v.Network.Packets.{handshake}
use turtlecoin_v.Tools.Set.{contains, insert, erase}
use turtlecoin_v.P2p.PeerDb
use turtlecoin_v.P2p.PeerDb.{PeerTable}
use turtlecoin_v.P2p.Node.{Settings, build_handshake}
use Prim.Native.String.{String}

-- `normalize_host_port`, what a client's connect returns, whether a client is connected, and
-- `ip_address_t::to_string`.
pub record Network : Type 0 where
  pub normalize_host_port : String → ℕ → String × ℕ × ℕ
  pub dial : String → ℕ → Error
  pub is_connected : ℕ → Bool
  pub address_to_string : IpAddress → String

-- m_clients, by the hashes of the connections, what the clients were given to send, and m_running.
pub record Links : Type 0 where
  pub clients : List ℕ
  pub sent : List (ℕ × Bytes)
  pub running : Bool

abbrev pub default_bind_port : ℕ
default_bind_port = 12897

-- SEED_NODES
abbrev pub seed_nodes : List (String × ℕ)
seed_nodes = ("161.35.102.211", 12897) ∷ ("128.199.32.206", 12897) ∷ ("139.59.120.178", 12897) ∷ []

abbrev pub default_connection_count : ℕ
default_connection_count = length seed_nodes + 8

module _ (w : Wire) (c : Crypto) (ip : Ipv6) (shuffle : List NetworkPeer → List NetworkPeer)
    {Db : Type 0} (t : PeerTable Db) (s : Settings) (net : Network) where
  unfoldable pub connect : Db → String → ℕ → Links → Error × Links
  connect db unsafe_host unsafe_port l =
      let (host, port, hash) = net.normalize_host_port unsafe_host unsafe_port in
      if contains hash l.clients then (fail p2p_dupe_connect, l) else elim (net.dial host port) [
        | fail x ↦ (fail x, l)
        | success ↦
            let message = Packets.serialize w (handshake (build_handshake w c ip shuffle t s db)) in
            (
              success,
              record l { sent = l.sent ++ ((hash, message) ∷ []); clients = insert hash l.clients },
            )
      ]

  -- The clients that are no longer connected are erased.
  unfoldable pub drop_disconnected : List ℕ → List ℕ → List ℕ
  drop_disconnected [] clients = clients
  drop_disconnected (id ∷ ids) clients =
      drop_disconnected ids (if net.is_connected id then clients else erase id clients)

  -- `DEFAULT_CONNECTION_COUNT - outgoing_connections()`, on 64 bits.
  unfoldable pub delta_connections : Links → ℕ
  delta_connections l = (default_connection_count + 2 ^ 64 - length l.clients) % 2 ^ 64

  -- The loop over peers: not the node itself, and errors are only logged.
  unfoldable pub connect_each : Db → List NetworkPeer → Links → Links
  connect_each db [] l = l
  connect_each db (p ∷ ps) l = connect_each db ps (
      if p.peer_id == s.peer_id
      then l
      else (connect db (net.address_to_string p.address) p.port l).1)

  -- One turn of `connection_manager`.
  unfoldable pub manage_connections : Db → Links → Links
  manage_connections db l =
      let kept = record l { clients = drop_disconnected l.clients l.clients } in
      let delta = delta_connections kept in
      let network = if s.seed_mode then c.key_default else s.network_id in
      if delta == 0
      then kept
      else connect_each db (PeerDb.peers c shuffle t s.peer_id delta network db) kept

  -- The loops of `start` over seeds: whether any could be connected.
  unfoldable pub connect_seeds : Db → List (String × ℕ) → Bool × Links → Bool × Links
  connect_seeds db [] (connected, l) = (connected, l)
  connect_seeds db ((host, port) ∷ seeds) (connected, l) =
      let (e, l') = connect db host port l in
      connect_seeds db seeds (elim e [ success ↦ true | fail _ ↦ connected ], l')

  -- The alternate seeds are parsed one by one; `none` is the exception of `ip_address_t`.
  unfoldable pub connect_alternates : Db → List String → Bool × Links → Option Bool × Links
  connect_alternates db [] (connected, l) = (some connected, l)
  connect_alternates db (text ∷ texts) (connected, l) = elim (of_string ip text) [
    | none ↦ (none, l)
    | some seed ↦
        let port = if not (seed.port == 0) then seed.port else default_bind_port in
        let (e, l') = connect db (net.address_to_string seed) port l in
        connect_alternates db texts (elim e [ success ↦ true | fail _ ↦ connected ], l')
  ]

  -- `bound` is what the server's bind returns. The threads that `start` begins are left out.
  unfoldable pub start : Error → Db → List String → Links → Outcome Error × Links
  start bound db alternates l = if l.running then (ok success, l) else elim bound [
    | fail x ↦ (ok (fail x), l)
    | success ↦
        let seeded = connect_seeds db seed_nodes (false, record l { running = true }) in
        let (done, l') = connect_alternates db alternates seeded in
        elim done [
          | none ↦ (thrown, l')
          | some connected ↦
              if not s.seed_mode && not connected && PeerDb.count c shuffle t s.peer_id db == 0
              then (ok (fail p2p_seed_connect), record l' { running = false })
              else (ok success, l')
        ]
  ]
