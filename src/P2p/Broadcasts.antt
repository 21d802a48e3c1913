-- ===== src/P2p/Broadcasts.antt =====
-- The timed broadcasts of `P2P::Node` (src/p2p/p2p_node.cpp), each one turn of its thread, and the
-- keepalives of one node at another.
use turtlecoin_v.Base.{ℕ, ◌≡◌, refl, true, false, List, ◌++◌, map, arith, ◌∙◌}
use turtlecoin_v.Serial.{Bytes, Wire, IsKey}
use turtlecoin_v.Serial.Laws.{WireLaws}
use turtlecoin_v.Crypto.{Crypto}
use turtlecoin_v.Network.Ip.{Ipv6}
use turtlecoin_v.Network.Peer.{NetworkPeer}
use turtlecoin_v.Network.Packets
use turtlecoin_v.Network.Packets.{peer_exchange, keepalive}
use turtlecoin_v.Network.Packets.Keepalive
use turtlecoin_v.Network.Packets.PeerExchange
use turtlecoin_v.Tools.Set.{contains}
use turtlecoin_v.P2p.PeerDb.{PeerTable}
use turtlecoin_v.P2p.Node.{
  Node, Settings, reply, touch_peer, is_self, handle_packet, handle_keepalive,
  handle_incoming_message,
}
use turtlecoin_v.P2p.Node.Greeting.{incoming-serialize}
use turtlecoin_v.P2p.Connections.{Links}
use Prim.Native.String.{String}

-- `send`: every client is given the message.
unfoldable pub send : Bytes → Links → Links
send payload l = record l { sent = l.sent ++ map (λ id. (id, payload)) l.clients }

module _ (w : Wire) (c : Crypto) (ip : Ipv6) (shuffle : List NetworkPeer → List NetworkPeer)
    {Db : Type 0} (t : PeerTable Db) (s : Settings) where
  -- The server's reply has an envelope without a receiver, whose `to` is the default.
  unfoldable pub send_keepalives : Node Db × Links → Node Db × Links
  send_keepalives (n, l) =
      let packet = keepalive (Keepalive.new s.peer_id) in
      (reply w c ip shuffle t s c.key_default packet n, send (Packets.serialize w packet) l)

  -- The packet has no peers.
  unfoldable pub send_peer_exchanges : Links → Links
  send_peer_exchanges l =
      send (Packets.serialize w (peer_exchange (PeerExchange.new s.peer_id s.port s.network_id))) l

  module _ (laws : WireLaws w) (now from : ℕ) (peer_address : String) where
    -- With WireLaws, the bytes of another node's keepalive that a server gets from an identity with
    -- a completed handshake and not its own: one keepalive in return, and the peer is touched.
    keepalive_answered :
        (peer_id : ℕ) (n : Node Db)
        → IsKey peer_id
        → contains from n.completed ≡ true
        → is_self w c ip shuffle t s from peer_id ≡ false
        → handle_incoming_message w c ip shuffle t s now
            (record {
              from = from;
              peer_address = peer_address;
              payload = Packets.serialize w (keepalive (Keepalive.new peer_id));
            })
            true
            n
          ≡ touch_peer w c ip shuffle t s now peer_id
              (reply w c ip shuffle t s from (keepalive (Keepalive.new s.peer_id)) n)
    unfolding handle_packet handle_keepalive Keepalive.new
    keepalive_answered peer_id n key known other =
        incoming-serialize w c ip shuffle t s laws now from peer_address
          (keepalive (Keepalive.new peer_id)) true n (refl, omega arith, key)
        ∙ rw (known, other) refl

    -- With WireLaws, the bytes of a keepalive that a client gets: the peer is touched and nothing
    -- is sent, so that an answer to a keepalive is not answered.
    answer_unanswered :
        (peer_id : ℕ) (n : Node Db)
        → IsKey peer_id
        → handle_incoming_message w c ip shuffle t s now
            (record {
              from = from;
              peer_address = peer_address;
              payload = Packets.serialize w (keepalive (Keepalive.new peer_id));
            })
            false
            n
          ≡ touch_peer w c ip shuffle t s now peer_id n
    unfolding handle_packet handle_keepalive Keepalive.new
    answer_unanswered peer_id n key =
        incoming-serialize w c ip shuffle t s laws now from peer_address
          (keepalive (Keepalive.new peer_id)) false n (refl, omega arith, key)
