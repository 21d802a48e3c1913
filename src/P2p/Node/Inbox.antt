-- ===== src/P2p/Node/Inbox.antt =====
-- About what the message queue, the completed handshakes and the peer list of a node hold, after any
-- sequence of its steps (src/p2p/p2p_node.cpp).
use turtlecoin_v.Base.{
  ℕ, ◌≡◌, ◌≢◌, ◌≤◌, Bool, true, false, List, [], ◌∷◌, ◌++◌, All, All-map, arith, guard, ltb, ◌==◌,
  not, ◌&&◌, Option-cases, inl, inr, subst, sym,
}
use turtlecoin_v.Serial.{Bytes, Wire}
use turtlecoin_v.Crypto.{Crypto}
use turtlecoin_v.Network.Ip.{Ipv6, of_string}
use turtlecoin_v.Network.Peer.{NetworkPeer, new_peer}
use turtlecoin_v.Network.Packets
use turtlecoin_v.Network.Packets.{Packet, handshake, peer_exchange, keepalive, network_data}
use turtlecoin_v.Network.Packets.Data.{DataPacket}
use turtlecoin_v.Tools.Set.{contains, contains-insert, contains-insert_other}
use turtlecoin_v.Database.{Lmdb}
use turtlecoin_v.Database.Laws.{LmdbLaws}
use turtlecoin_v.P2p.PeerDb.{PeerTable}
use turtlecoin_v.P2p.PeerDb.Stored.{peer_table}
use turtlecoin_v.P2p.PeerDb.Laws as PeerLaws
use turtlecoin_v.P2p.PeerDb.Laws.{IsPeerList, add-IsPeerList, touch-IsPeerList}
use turtlecoin_v.P2p.Node.{
  NetworkMessage, Incoming, Node, Settings, reply, add_peers, is_self, learn, then_node, greet,
  handle_handshake, handle_data, touch_peer, handle_keepalive, exchange, handle_peer_exchange,
  handle_packet, handle_incoming_message,
}
use Prim.Native.String.{String}

-- A message that the node has to process: its sender completed a handshake and is not the node, and
-- its packet is for the node's network and of a version that it speaks.
pub record IsAccepted (s : Settings) (completed : List ℕ) (m : NetworkMessage) : Type 0 where
  pub known : contains m.from completed ≡ true
  pub foreign : m.from ≢ s.identity
  pub our_network : m.packet.network_id ≡ s.network_id
  pub version : 1 ≤ m.packet.version
  pub no_seed : s.seed_mode ≡ false

pub record IsNode (w : Wire) {Txn Env : Type 0} (lmdb : Lmdb Txn Env) (s : Settings) (n : Node Env)
    : Type 0 where
  pub accepted : All (IsAccepted s n.completed) n.messages
  pub no_self : contains s.identity n.completed ≡ false
  pub peer_list : IsPeerList w lmdb s.peer_id n.peer_db

All-append :
    {A : Type 0} (P : A → Type 0) (xs : List A) (y : A) → All P xs → P y → All P (xs ++ (y ∷ []))
All-append P [] y h p = (p, tt)
All-append P (x ∷ xs) y h p = (h.0, All-append P xs y h.1 p)

module _ (w : Wire) (c : Crypto) (ip : Ipv6) (shuffle : List NetworkPeer → List NetworkPeer)
    {Txn Env : Type 0} (lmdb : Lmdb Txn Env) (laws : LmdbLaws lmdb) (fuel : ℕ)
    (walk : Env → ℕ → List Bytes) (s : Settings) where
  abbrev t : PeerTable Env
  t = peer_table w ip lmdb fuel walk

  with_db :
      (n : Node Env) (db : Env)
      → IsNode w lmdb s n
      → IsPeerList w lmdb s.peer_id db
      → IsNode w lmdb s (record n { peer_db = db })
  with_db n db h p = record { accepted = h.accepted; no_self = h.no_self; peer_list = p }

  reply-IsNode :
      (to : ℕ) (p : Packet) (n : Node Env)
      → IsNode w lmdb s n
      → IsNode w lmdb s (reply w c ip shuffle t s to p n)
  unfolding reply
  reply-IsNode to p n h = record {
    accepted = h.accepted;
    no_self = h.no_self;
    peer_list = h.peer_list;
  }

  add_peers-IsPeerList :
      (now sender : ℕ) (ps : List NetworkPeer) (db : Env)
      → IsPeerList w lmdb s.peer_id db
      → IsPeerList w lmdb s.peer_id (add_peers w c ip shuffle t s now sender ps db)
  unfolding add_peers
  add_peers-IsPeerList now sender [] db h = h
  add_peers-IsPeerList now sender (p ∷ ps) db h = add_peers-IsPeerList now sender ps _ (
      guard (IsPeerList w lmdb s.peer_id) (p.peer_id == sender) h
        (λ _. add-IsPeerList w ip lmdb laws fuel walk s.peer_id c shuffle now p db h))

  learned-IsNode :
      (now : ℕ) (peer_address : String) (id port network : ℕ) (listed : List NetworkPeer)
      (rest : Node Env → Node Env) (n : Node Env)
      → ((m : Node Env) → IsNode w lmdb s m → IsNode w lmdb s (rest m))
      → IsNode w lmdb s n
      → IsNode w lmdb s (
          then_node w c ip shuffle t s
            (learn w c ip shuffle t s now peer_address id port network listed n.peer_db)
            rest
            n)
  unfolding then_node learn
  learned-IsNode now peer_address id port network listed rest n keeps h =
      elim (Option-cases (of_string ip peer_address)) [
        | inl bad ↦ rw (bad, then_node, learn) h
        | inr (a, good) ↦
            rw (good, then_node, learn)
              (keeps _ (
                with_db n _ h (
                  add_peers-IsPeerList now id listed _ (
                    add-IsPeerList w ip lmdb laws fuel walk s.peer_id c shuffle now
                      (new_peer now a id port network) n.peer_db h.peer_list))))
      ]

  greet-IsNode :
      (from : ℕ) (is_server : Bool) (n : Node Env)
      → from ≢ s.identity
      → IsNode w lmdb s n
      → IsNode w lmdb s (greet w c ip shuffle t s from is_server n)
  unfolding greet reply
  greet-IsNode from true n ne h = record {
    accepted =
        All-map
          (λ m a. record {
            known = contains-insert m.from from n.completed a.known;
            foreign = a.foreign;
            our_network = a.our_network;
            version = a.version;
            no_seed = a.no_seed;
          })
          n.messages h.accepted;
    no_self = contains-insert_other s.identity from n.completed (λ e. ne (sym e)) h.no_self;
    peer_list = h.peer_list;
  }
  greet-IsNode from false n ne h = h

  exchange-IsNode :
      (from : ℕ) (is_server : Bool) (n : Node Env)
      → IsNode w lmdb s n
      → IsNode w lmdb s (exchange w c ip shuffle t s from is_server n)
  unfolding exchange
  exchange-IsNode from true n h = reply-IsNode from _ n h
  exchange-IsNode from false n h = h

  not_self : (from id : ℕ) → is_self w c ip shuffle t s from id ≡ false → from ≢ s.identity
  unfolding is_self
  not_self from id e = ground arith

  touch-IsNode :
      (now id : ℕ) (n : Node Env)
      → IsNode w lmdb s n
      → IsNode w lmdb s (touch_peer w c ip shuffle t s now id n)
  unfolding touch_peer
  touch-IsNode now id n h =
      with_db n _ h
        (touch-IsPeerList w ip lmdb laws fuel walk s.peer_id c shuffle now id n.peer_db h.peer_list)

  handle_data-IsNode :
      (from : ℕ) (p : DataPacket) (is_server : Bool) (n : Node Env)
      → IsNode w lmdb s n
      → IsNode w lmdb s (handle_data w c ip shuffle t s from p is_server n)
  unfolding handle_data
  handle_data-IsNode from p is_server n h = guard (IsNode w lmdb s) s.seed_mode h λ seed.
      guard (IsNode w lmdb s) (not (p.network_id == s.network_id)) h λ network.
        guard (IsNode w lmdb s) (not (contains from n.completed)) h λ known.
          guard (IsNode w lmdb s) (from == s.identity) h λ other.
            guard (IsNode w lmdb s) (ltb p.version 1) h λ version. record {
              accepted = All-append _ n.messages _ h.accepted (record {
                known = ground arith;
                foreign = ground arith;
                our_network = ground arith;
                version = ground arith;
                no_seed = seed;
              });
              no_self = h.no_self;
              peer_list = h.peer_list;
            }

  handle_packet-IsNode :
      (now from : ℕ) (peer_address : String) (p : Packet) (is_server : Bool) (n : Node Env)
      → IsNode w lmdb s n
      → IsNode w lmdb s (handle_packet w c ip shuffle t s now from peer_address p is_server n)
  unfolding handle_packet handle_handshake handle_peer_exchange handle_keepalive
  handle_packet-IsNode now from peer_address (handshake p) is_server n h =
      guard (IsNode w lmdb s) (is_server && contains from n.completed) h λ _.
        guard (IsNode w lmdb s) (is_self w c ip shuffle t s from p.peer_id) h λ other.
          guard (IsNode w lmdb s) (ltb p.version 1) h λ _. guard (IsNode w lmdb s) _ h λ _.
            learned-IsNode now peer_address p.peer_id p.peer_port p.network_id p.peers _ n
              (λ m. greet-IsNode from is_server m (not_self from p.peer_id other)) h
  handle_packet-IsNode now from peer_address (peer_exchange p) is_server n h =
      guard (IsNode w lmdb s) (is_server && not (contains from n.completed)) h λ _.
        guard (IsNode w lmdb s) (is_self w c ip shuffle t s from p.peer_id) h λ _.
          guard (IsNode w lmdb s) (ltb p.version 1) h λ _.
            learned-IsNode now peer_address p.peer_id p.peer_port p.network_id p.peers _ n
              (exchange-IsNode from is_server) h
  handle_packet-IsNode now from peer_address (keepalive p) false n h =
      touch-IsNode now p.peer_id n h
  handle_packet-IsNode now from peer_address (keepalive p) true n h =
      guard (IsNode w lmdb s) (not (contains from n.completed)) h λ _.
        guard (IsNode w lmdb s) (is_self w c ip shuffle t s from p.peer_id) h λ _.
          guard (IsNode w lmdb s) (ltb p.version 1) h
            λ _. touch-IsNode now p.peer_id _ (reply-IsNode from _ n h)
  handle_packet-IsNode now from peer_address (network_data p) is_server n h =
      handle_data-IsNode from p is_server n h

  incoming-IsNode :
      (now : ℕ) (m : Incoming) (is_server : Bool) (n : Node Env)
      → IsNode w lmdb s n
      → IsNode w lmdb s (handle_incoming_message w c ip shuffle t s now m is_server n)
  unfolding handle_incoming_message
  incoming-IsNode now m is_server n h = elim (Option-cases (Packets.deserialize w ip m.payload)) [
    | inl bad ↦ rw (bad, handle_incoming_message) h
    | inr ((p, rest), good) ↦
        rw (good, handle_incoming_message)
          (handle_packet-IsNode now m.from m.peer_address p is_server n h)
  ]

  -- What changes a node: a message that comes in, on the server or on a client's connection, a
  -- message that is taken off the queue, and the calls that change the peer list.
  pub data Step : Node Env → Node Env → Type 0 where
    incoming :
        (now : ℕ) (m : Incoming) (is_server : Bool) (n : Node Env)
        → Step n (handle_incoming_message w c ip shuffle t s now m is_server n)
    taken :
        (m : NetworkMessage) (ms : List NetworkMessage) (n : Node Env)
        → n.messages ≡ m ∷ ms
        → Step n (record n { messages = ms })
    listed :
        (n : Node Env) (db : Env)
        → PeerLaws.Step w ip lmdb laws fuel walk s.peer_id c shuffle n.peer_db db
        → Step n (record n { peer_db = db })

  pub data Reach (start : Node Env) : Node Env → Type 0 where
    here : Reach start start
    next : {n m : Node Env} → Reach start n → Step n m → Reach start m

  Step-IsNode : {n m : Node Env} → Step n m → IsNode w lmdb s n → IsNode w lmdb s m
  Step-IsNode (incoming now m is_server n) h = incoming-IsNode now m is_server n h
  Step-IsNode (taken m ms n e) h = record {
    accepted = (subst (All (IsAccepted s n.completed)) e h.accepted).1;
    no_self = h.no_self;
    peer_list = h.peer_list;
  }
  Step-IsNode (listed n db st) h =
      with_db n db h
        (PeerLaws.Step-IsPeerList w ip lmdb laws fuel walk s.peer_id c shuffle st h.peer_list)

  -- Over an LMDB that obeys LmdbLaws: after any sequence of incoming messages, messages taken off
  -- the queue and changes of the peer list, starting from a node that satisfies IsNode, every
  -- queued message comes from an identity that completed a handshake and is not the node's own, is
  -- for the node's network and of a supported version, the node is no seed node if there is one,
  -- the node's own identity has no completed handshake, and the peer list's database has under
  -- each key the bytes of a peer with that key's id, which is not the node's.
  pub node_invariant :
      {start n : Node Env} → IsNode w lmdb s start → Reach start n → IsNode w lmdb s n
  node_invariant h here = h
  node_invariant h (next r st) = Step-IsNode st (node_invariant h r)
