-- ===== src/P2p/Node/Greeting.antt =====
-- About the handshake and the packets that follow it (src/p2p/p2p_node.cpp).
use turtlecoin_v.Base.{
  ℕ, ◌≡◌, ◌≢◌, ◌≤◌, refl, Bool, true, false, some, List, [], ◌∷◌, ◌++◌, arith, length, ltb, ◌==◌,
  ◌∙◌, ap, sym, append-nil,
}
use turtlecoin_v.Serial.{Wire}
use turtlecoin_v.Serial.Laws.{WireLaws}
use turtlecoin_v.Crypto.{Crypto}
use turtlecoin_v.Network.Ip.{IpAddress, Ipv6, of_string}
use turtlecoin_v.Network.Peer.{NetworkPeer, new_peer}
use turtlecoin_v.Network.Packets
use turtlecoin_v.Network.Packets.{Packet, handshake, peer_exchange, keepalive, network_data}
use turtlecoin_v.Network.Packets.Laws.{IsPacket, packet_round_trip}
use turtlecoin_v.Network.Packets.Handshake
use turtlecoin_v.Network.Packets.Handshake.{HandshakePacket}
use turtlecoin_v.Network.Packets.Data.{DataPacket}
use turtlecoin_v.P2p.PeerDb
use turtlecoin_v.P2p.PeerDb.{PeerTable}
use turtlecoin_v.P2p.PeerDb.Laws.{length-truncate}
use turtlecoin_v.P2p.Node.{
  Node, Settings, reply, add_peers, is_self, learn, then_node, greet, handle_handshake, handle_data,
  handle_keepalive, handle_peer_exchange, maximum_peers_exchanged, handle_packet,
  handle_incoming_message, build_peer_list, build_handshake,
}
use turtlecoin_v.Tools.Set.{contains, insert, contains-insert_self}
use Prim.Native.String.{String}

module _ (w : Wire) (c : Crypto) (ip : Ipv6) (shuffle : List NetworkPeer → List NetworkPeer)
    {Db : Type 0} (t : PeerTable Db) (s : Settings) where
  pub build_peer_list_bound :
      (db : Db) → length (build_peer_list w c ip shuffle t s db) ≤ maximum_peers_exchanged
  unfolding build_peer_list
  build_peer_list_bound db =
      ground (arith, length-truncate 250 (PeerDb.peers c shuffle t s.peer_id 0 c.key_default db))

  -- A packet other than a handshake.
  abbrev pub NoHandshake : Packet → Type 0
  NoHandshake (handshake p) = ⊥
  NoHandshake (peer_exchange p) = Unit {0}
  NoHandshake (keepalive p) = Unit {0}
  NoHandshake (network_data p) = Unit {0}

  -- A packet other than a handshake that the server gets from an identity without a completed
  -- handshake changes nothing.
  pub stranger_ignored :
      (now from : ℕ) (peer_address : String) (p : Packet) (n : Node Db)
      → contains from n.completed ≡ false
      → NoHandshake p
      → handle_packet w c ip shuffle t s now from peer_address p true n ≡ n
  unfolding handle_packet handle_peer_exchange handle_keepalive handle_data
  stranger_ignored now from peer_address (handshake p) n new h = absurd h
  stranger_ignored now from peer_address (peer_exchange p) n new h = rw new refl
  stranger_ignored now from peer_address (keepalive p) n new h = rw new refl
  stranger_ignored now from peer_address (network_data p) n new h = ground arith

  module _ (laws : WireLaws w) where
    -- A payload that holds a packet is handed to the packet's handler.
    pub incoming-serialize :
        (now from : ℕ) (peer_address : String) (p : Packet) (is_server : Bool) (n : Node Db)
        → IsPacket ip p
        → handle_incoming_message w c ip shuffle t s now
            (record { from = from; peer_address = peer_address; payload = Packets.serialize w p })
            is_server
            n
          ≡ handle_packet w c ip shuffle t s now from peer_address p is_server n
    unfolding handle_incoming_message
    incoming-serialize now from peer_address p is_server n h =
        let back : Packets.deserialize w ip (Packets.serialize w p) ≡ some (p, []) =
          ap (Packets.deserialize w ip) (sym (append-nil (Packets.serialize w p)))
          ∙ (packet_round_trip w laws ip p h).back [] in
        rw (back, handle_incoming_message) refl

    -- A first handshake.
    pub handshake_completes :
        (now from : ℕ) (peer_address : String) (a : IpAddress) (p : HandshakePacket) (n : Node Db)
        → contains from n.completed ≡ false
        → is_self w c ip shuffle t s from p.peer_id ≡ false
        → 1 ≤ p.version
        → length p.peers ≤ 250
        → of_string ip peer_address ≡ some a
        → IsPacket ip (handshake p)
        → (db : Db) × (handle_incoming_message w c ip shuffle t s now
              (record {
                from = from;
                peer_address = peer_address;
                payload = Packets.serialize w (handshake p);
              })
              true
              n
            ≡ record n {
              peer_db = db;
              completed = insert from n.completed;
              sent =
                  n.sent
                  ++ (record {
                    to = from;
                    payload =
                        Packets.serialize w (handshake (build_handshake w c ip shuffle t s db));
                  }
                      ∷ []);
            })
    unfolding handle_packet handle_handshake then_node learn greet reply
    handshake_completes now from peer_address a p n new other version few good h =
        let old : ltb p.version 1 ≡ false = ground arith in
        let many : ltb maximum_peers_exchanged (length p.peers) ≡ false = ground arith in
        let db : Db =
          add_peers w c ip shuffle t s now p.peer_id p.peers
            (PeerDb.add c shuffle t s.peer_id now
              (new_peer now a p.peer_id p.peer_port p.network_id) n.peer_db).1 in
        (
          db,
          incoming-serialize now from peer_address (handshake p) true n h
              ∙ rw (new, other, old, many, good, learn, then_node) refl,
        )

    data_accepted :
        (from : ℕ) (p : DataPacket) (is_server : Bool) (n : Node Db)
        → contains from n.completed ≡ true
        → s.seed_mode ≡ false
        → p.network_id ≡ s.network_id
        → from ≢ s.identity
        → 1 ≤ p.version
        → (handle_data w c ip shuffle t s from p is_server n).messages
          ≡ n.messages ++ (record { is_server = is_server; from = from; packet = p } ∷ [])
    unfolding handle_data
    data_accepted from p is_server n known seed ours other version =
        let network : (p.network_id == s.network_id) ≡ true = ground arith in
        let foreign : (from == s.identity) ≡ false = ground arith in
        let old : ltb p.version 1 ≡ false = ground arith in
        rw (seed, network, known, foreign, old) refl

    -- With WireLaws, for packets with fields in the range of their types and the types of their
    -- kinds, in which every peer's address is in its normal form and has no port of its own: if
    -- the server gets the bytes of a handshake from an identity without one, not its own, of a
    -- supported version, with at most 250 peers and a readable address, and then the bytes of a
    -- data packet from that identity for its network and of a supported version, and it is no seed
    -- node, then the data packet is at the end of its queue.
    pub handshake_then_data :
        (now later from : ℕ) (peer_address : String) (a : IpAddress) (p : HandshakePacket)
        (q : DataPacket) (n : Node Db)
        → contains from n.completed ≡ false
        → is_self w c ip shuffle t s from p.peer_id ≡ false
        → 1 ≤ p.version
        → length p.peers ≤ 250
        → of_string ip peer_address ≡ some a
        → IsPacket ip (handshake p)
        → s.seed_mode ≡ false
        → q.network_id ≡ s.network_id
        → 1 ≤ q.version
        → IsPacket ip (network_data q)
        → (handle_incoming_message w c ip shuffle t s later
            (record {
              from = from;
              peer_address = peer_address;
              payload = Packets.serialize w (network_data q);
            })
            true
            (handle_incoming_message w c ip shuffle t s now
              (record {
                from = from;
                peer_address = peer_address;
                payload = Packets.serialize w (handshake p);
              })
              true
              n)).messages
          ≡ n.messages ++ (record { is_server = true; from = from; packet = q } ∷ [])
    unfolding handle_packet is_self
    handshake_then_data now later from peer_address a p q n new other version few good h seed ours
          version' h' =
        let (db, done) =
          handshake_completes now from peer_address a p n new other version few good h in
        rw done (
          ap (λ m. m.messages)
            (incoming-serialize later from peer_address (network_data q) true _ h')
          ∙ data_accepted from q true _ (contains-insert_self from n.completed) seed ours
              (ground arith) version')

module _ (w : Wire) (c : Crypto) (ip : Ipv6) (shuffle : List NetworkPeer → List NetworkPeer)
    {Db : Type 0} (t : PeerTable Db) (s other : Settings) (laws : WireLaws w) where
  -- With WireLaws: the bytes of the handshake that another node builds, with another peer id and
  -- fields in the range of their types, in which every peer's address is in its normal form and
  -- has no port of its own, complete a handshake when the server gets them with a readable address
  -- from an identity without one and not its own.
  pub built_handshake_completes :
      (now from : ℕ) (peer_address : String) (a : IpAddress) (db : Db) (n : Node Db)
      → contains from n.completed ≡ false
      → from ≢ s.identity
      → other.peer_id ≢ s.peer_id
      → of_string ip peer_address ≡ some a
      → IsPacket ip (handshake (build_handshake w c ip shuffle t other db))
      → contains from
          (handle_incoming_message w c ip shuffle t s now
            (record {
              from = from;
              peer_address = peer_address;
              payload = Packets.serialize w (handshake (build_handshake w c ip shuffle t other db));
            })
            true
            n).completed
        ≡ true
  unfolding is_self build_handshake Handshake.new
  built_handshake_completes now from peer_address a db n new foreign ne good h =
      let self : is_self w c ip shuffle t s from other.peer_id ≡ false = ground arith in
      let (_, done) =
        handshake_completes w c ip shuffle t s laws now from peer_address a
          (build_handshake w c ip shuffle t other db) n new self (omega arith)
          (build_peer_list_bound w c ip shuffle t other db) good h in
      rw done (contains-insert_self from n.completed)
