-- ===== src/P2p/Node.antt =====
-- `P2P::Node` (src/p2p/p2p_node.cpp): the handlers of packets, over the peer list of module PeerDb.
-- What the server and the threads do on sockets is left out: sent envelopes are a list, and one turn
-- of the poller is a function of the messages that wait.
pub mod Inbox
pub mod Greeting
use turtlecoin_v.Base.{
  ℕ, ◌≡◌, ◌-◌, Bool, true, false, Option, none, some, List, [], ◌∷◌, ◌++◌, ltb, ◌==◌, not, ◌&&◌,
  ◌||◌, if◌then◌else◌, length,
}
use turtlecoin_v.Errors.{Error, success, fail}
use turtlecoin_v.Errors.ErrorCode.{p2p_dupe_connect}
use turtlecoin_v.Serial.{Bytes, Wire}
use turtlecoin_v.Crypto.{Crypto}
use turtlecoin_v.Network.Ip.{Ipv6, of_string}
use turtlecoin_v.Network.Peer.{NetworkPeer, new_peer}
use turtlecoin_v.Network.Packets
use turtlecoin_v.Network.Packets.{Packet, handshake, peer_exchange, keepalive, network_data}
use turtlecoin_v.Network.Packets.Handshake
use turtlecoin_v.Network.Packets.Handshake.{HandshakePacket}
use turtlecoin_v.Network.Packets.PeerExchange
use turtlecoin_v.Network.Packets.PeerExchange.{PeerExchangePacket}
use turtlecoin_v.Network.Packets.Keepalive
use turtlecoin_v.Network.Packets.Keepalive.{KeepalivePacket}
use turtlecoin_v.Network.Packets.Data.{DataPacket}
use turtlecoin_v.Tools.Set.{contains, insert}
use turtlecoin_v.P2p.PeerDb
use turtlecoin_v.P2p.PeerDb.{PeerTable, truncate}
use Prim.Native.String.{String}

abbrev pub minimum_version : ℕ
minimum_version = 1

abbrev pub maximum_peers_exchanged : ℕ
maximum_peers_exchanged = 250

-- `network_msg_t`
pub record NetworkMessage : Type 0 where
  pub is_server : Bool
  pub from : ℕ
  pub packet : DataPacket

-- The fields of `zmq_message_envelope_t` that an incoming message has, and an outgoing one.
pub record Incoming : Type 0 where
  pub from : ℕ
  pub peer_address : String
  pub payload : Bytes

pub record Outgoing : Type 0 where
  pub to : ℕ
  pub payload : Bytes

-- The fields of the class, the peer list's among them; `completed` is m_completed_handshake, and
-- `sent` is what the server was given to send.
pub record Node (Db : Type 0) : Type 0 where
  pub peer_db : Db
  pub completed : List ℕ
  pub messages : List NetworkMessage
  pub sent : List Outgoing

-- What does not change: m_seed_mode, m_network_id, the server's identity and port, and our peer id.
pub record Settings : Type 0 where
  pub seed_mode : Bool
  pub network_id : ℕ
  pub identity : ℕ
  pub port : ℕ
  pub peer_id : ℕ

module _ (w : Wire) (c : Crypto) (ip : Ipv6) (shuffle : List NetworkPeer → List NetworkPeer)
    {Db : Type 0} (t : PeerTable Db) (s : Settings) where
  unfoldable pub build_peer_list : Db → List NetworkPeer
  build_peer_list db =
      let results = PeerDb.peers c shuffle t s.peer_id 0 c.key_default db in
      if ltb maximum_peers_exchanged (length results)
      then truncate maximum_peers_exchanged results
      else results

  unfoldable pub build_handshake : Db → HandshakePacket
  build_handshake db = record (Handshake.new s.peer_id s.port s.network_id) {
    peers = build_peer_list db;
  }

  -- `reply`, with the envelope that is made from a packet.
  unfoldable pub reply : ℕ → Packet → Node Db → Node Db
  reply to p n = record n {
    sent = n.sent ++ (record { to = to; payload = Packets.serialize w p } ∷ []);
  }

  -- The loop over the peers of a packet: all but the sender are added, and errors are ignored.
  unfoldable pub add_peers : ℕ → ℕ → List NetworkPeer → Db → Db
  add_peers now sender [] db = db
  add_peers now sender (p ∷ ps) db =
      add_peers now sender ps
        (if p.peer_id == sender then db else (PeerDb.add c shuffle t s.peer_id now p db).1)

  -- `from == m_server->identity() || packet.peer_id == m_peer_db->peer_id()`
  unfoldable pub is_self : ℕ → ℕ → Bool
  is_self from peer_id = from == s.identity || peer_id == s.peer_id

  -- The sender first and then the peers of its packet. The exception of `ip_address_t` comes before
  -- any change.
  unfoldable pub learn : ℕ → String → ℕ → ℕ → ℕ → List NetworkPeer → Db → Option Db
  learn now peer_address peer_id peer_port network_id listed db = elim (of_string ip peer_address) [
    | none ↦ none
    | some address ↦
        let sender = new_peer now address peer_id peer_port network_id in
        some (add_peers now peer_id listed (PeerDb.add c shuffle t s.peer_id now sender db).1)
  ]

  -- What a handler does once it has learned the peers; an exception ends it.
  unfoldable pub then_node : Option Db → (Node Db → Node Db) → Node Db → Node Db
  then_node learned rest n = elim learned [ none ↦ n | some db ↦ rest (record n { peer_db = db }) ]

  unfoldable pub greet : ℕ → Bool → Node Db → Node Db
  greet from is_server n =
      if is_server
      then record (reply from (handshake (build_handshake n.peer_db)) n) {
        completed = insert from n.completed;
      }
      else n

  unfoldable pub handle_handshake : ℕ → ℕ → String → HandshakePacket → Bool → Node Db → Node Db
  handle_handshake now from peer_address p is_server n =
      if is_server && contains from n.completed
      then n
      else if is_self from p.peer_id
      then n
      else if ltb p.version minimum_version
      then n
      else if ltb maximum_peers_exchanged (length p.peers)
      then n
      else then_node (learn now peer_address p.peer_id p.peer_port p.network_id p.peers n.peer_db)
          (greet from is_server) n

  unfoldable pub handle_data : ℕ → DataPacket → Bool → Node Db → Node Db
  handle_data from p is_server n =
      if s.seed_mode
      then n
      else if not (p.network_id == s.network_id)
      then n
      else if not (contains from n.completed)
      then n
      else if from == s.identity
      then n
      else if ltb p.version minimum_version
      then n
      else record n {
        messages = n.messages ++ (record { is_server = is_server; from = from; packet = p } ∷ []);
      }

  -- `touch` of the peer list, whose error and exception change nothing else.
  unfoldable pub touch_peer : ℕ → ℕ → Node Db → Node Db
  touch_peer now peer_id n = record n {
    peer_db = (PeerDb.touch c shuffle t s.peer_id now peer_id n.peer_db).1;
  }

  unfoldable pub handle_keepalive : ℕ → ℕ → KeepalivePacket → Bool → Node Db → Node Db
  handle_keepalive now from p is_server n =
      if not is_server
      then touch_peer now p.peer_id n
      else if not (contains from n.completed)
      then n
      else if is_self from p.peer_id
      then n
      else if ltb p.version minimum_version
      then n
      else touch_peer now p.peer_id (reply from (keepalive (Keepalive.new s.peer_id)) n)

  unfoldable pub exchange : ℕ → Bool → Node Db → Node Db
  exchange from is_server n =
      if is_server
      then reply from
          (peer_exchange (record (PeerExchange.new s.peer_id s.port s.network_id) {
            peers = build_peer_list n.peer_db;
          }))
          n
      else n

  unfoldable pub handle_peer_exchange :
      ℕ → ℕ → String → PeerExchangePacket → Bool → Node Db → Node Db
  handle_peer_exchange now from peer_address p is_server n =
      if is_server && not (contains from n.completed)
      then n
      else if is_self from p.peer_id
      then n
      else if ltb p.version minimum_version
      then n
      else then_node (learn now peer_address p.peer_id p.peer_port p.network_id p.peers n.peer_db)
          (exchange from is_server) n

  unfoldable pub handle_packet : ℕ → ℕ → String → Packet → Bool → Node Db → Node Db
  handle_packet now from peer_address (handshake p) is_server n =
      handle_handshake now from peer_address p is_server n
  handle_packet now from peer_address (peer_exchange p) is_server n =
      handle_peer_exchange now from peer_address p is_server n
  handle_packet now from peer_address (keepalive p) is_server n =
      handle_keepalive now from p is_server n
  handle_packet now from peer_address (network_data p) is_server n = handle_data from p is_server n

  -- A payload that cannot be read is an exception, which is caught.
  unfoldable pub handle_incoming_message : ℕ → Incoming → Bool → Node Db → Node Db
  handle_incoming_message now m is_server n = elim (Packets.deserialize w ip m.payload) [
    | none ↦ n
    | some (p, rest) ↦ handle_packet now m.from m.peer_address p is_server n
  ]

  -- A loop of the poller over the messages that wait.
  unfoldable pub handle_each : ℕ → List Incoming → Bool → Node Db → Node Db
  handle_each now [] is_server n = n
  handle_each now (m ∷ ms) is_server n =
      handle_each now ms is_server (handle_incoming_message now m is_server n)

  -- One turn of the poller: the server's messages, and then those of each client.
  unfoldable pub poll_clients : ℕ → List (List Incoming) → Node Db → Node Db
  poll_clients now [] n = n
  poll_clients now (ms ∷ rest) n = poll_clients now rest (handle_each now ms false n)

  unfoldable pub poll : ℕ → List Incoming → List (List Incoming) → Node Db → Node Db
  poll now server_messages client_messages n =
      poll_clients now client_messages (handle_each now server_messages true n)
