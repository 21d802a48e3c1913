-- ===== src/Tests/Peers.antt =====
-- The theorems on packets, peers and nodes at concrete inputs.
use turtlecoin_v.Base.{◌≡◌, ◌≤◌, refl, true, false, some, [], ◌∷◌, length, ltb, arith}
use turtlecoin_v.Errors.{success}
use turtlecoin_v.Serial.Laws.{Reads}
use turtlecoin_v.Database.{read}
use turtlecoin_v.Network.Ip.Laws.{IsAddress}
use turtlecoin_v.Network.Peer.Laws.{IsPeer}
use turtlecoin_v.Network.Packets
use turtlecoin_v.Network.Packets.{Packet, handshake, keepalive, network_data}
use turtlecoin_v.Network.Packets.Handshake.{HandshakePacket}
use turtlecoin_v.Network.Packets.Data.{DataPacket}
use turtlecoin_v.Network.Packets.Laws.{IsPacket, packet_round_trip}
use turtlecoin_v.P2p.PeerDb.{prune, prune_time}
use turtlecoin_v.P2p.PeerDb.Laws.{IsEntry}
use turtlecoin_v.P2p.Node.{
  Node, Settings, NetworkMessage, Incoming, handle_incoming_message, handle_packet, build_handshake,
  is_self,
}
use turtlecoin_v.P2p.Node.Inbox as Inbox
use turtlecoin_v.P2p.Node.Inbox.{IsNode, node_invariant}
use turtlecoin_v.P2p.Node.Greeting.{
  stranger_ignored, handshake_then_data, built_handshake_completes,
}
use turtlecoin_v.P2p.Connections.{Network, Links, manage_connections}
use turtlecoin_v.P2p.Connections.Bounds.{outgoing_bound}
use turtlecoin_v.Tests.Cells.{cells, cells_laws}
use turtlecoin_v.Tests.Toy.{toy}
use turtlecoin_v.Tests.PeerLists.{far, known}
use turtlecoin_v.Tests.Rows.{
  home, short_ip, Rows, rows_db, rows_laws, walk, get_row-All, table, unshuffled,
}

abbrev hello : HandshakePacket
hello = record {
  l_type = 1000;
  version = 1;
  peer_id = 40;
  peer_port = 12897;
  network_id = 5;
  peers = far ∷ [];
}

abbrev mail : DataPacket
mail = record { l_type = 3000; version = 1; network_id = 5; payload = 1 ∷ (2 ∷ []) }

abbrev settings : Settings
settings = record { seed_mode = false; network_id = 5; identity = 1; port = 12897; peer_id = 2 }

abbrev other_settings : Settings
other_settings = record {
  seed_mode = false;
  network_id = 5;
  identity = 8;
  port = 12897;
  peer_id = 9;
}

abbrev fresh : Node Rows
fresh = record { peer_db = []; completed = []; messages = []; sent = [] }

home-IsAddress : IsAddress short_ip home
unfolding turtlecoin_v.Network.Ip.has_bit
home-IsAddress = record {
  component_count = refl;
  small_components = (omega arith, tt);
  small_flags = omega arith;
  normal = refl;
  no_port = refl;
}

far-IsPeer : IsPeer short_ip far
far-IsPeer = record {
  address = home-IsAddress;
  port = omega arith;
  peer_id = omega arith;
  network_id = omega arith;
  last_seen = omega arith;
}

hello-IsPacket : IsPacket short_ip (handshake hello)
hello-IsPacket = (
  refl,
  record {
    version = omega arith;
    peer_id = omega arith;
    peer_port = omega arith;
    network_id = omega arith;
    count = omega arith;
    peers = (far-IsPeer, tt);
  },
)

mail-IsPacket : IsPacket short_ip (network_data mail)
mail-IsPacket = (refl, omega arith, omega arith, omega arith)

packet_round_trip_example :
    Reads
      (Packets.deserialize cells short_ip)
      (Packets.serialize cells (handshake hello))
      (handshake hello)
packet_round_trip_example =
    packet_round_trip cells cells_laws short_ip (handshake hello) hello-IsPacket

fresh-IsNode : IsNode cells rows_db settings fresh
unfolding turtlecoin_v.Tools.Set.contains read
fresh-IsNode = record {
  accepted = tt;
  no_self = refl;
  peer_list = record { entries = λ k v e. get_row-All (IsEntry cells 2) [] tt 0 k v e };
}

abbrev greeting : Incoming
greeting = record {
  from = 6;
  peer_address = "10.0.0.1";
  payload = Packets.serialize cells (handshake hello);
}

abbrev greeted : Node Rows
greeted =
    handle_incoming_message cells toy short_ip unshuffled table settings 100000 greeting true fresh

greeted_reached :
    Inbox.Reach cells toy short_ip unshuffled rows_db rows_laws 1 walk settings fresh greeted
greeted_reached = Inbox.Reach.next Inbox.Reach.here (Inbox.Step.incoming 100000 greeting true fresh)

node_invariant_example : IsNode cells rows_db settings greeted
node_invariant_example =
    node_invariant cells toy short_ip unshuffled rows_db rows_laws 1 walk settings fresh-IsNode
      greeted_reached

known_address : turtlecoin_v.Network.Ip.of_string short_ip "10.0.0.1" ≡ some home
unfolding turtlecoin_v.Network.Ip.of_string turtlecoin_v.Network.Ip.normalize_v4_embedded
    turtlecoin_v.Network.Ip.has_bit
known_address = refl

foreign : is_self cells toy short_ip unshuffled table settings 6 40 ≡ false
unfolding is_self
foreign = refl

unknown : turtlecoin_v.Tools.Set.contains 6 [] ≡ false
unfolding turtlecoin_v.Tools.Set.contains
unknown = refl

handshake_then_data_example :
    (handle_incoming_message cells toy short_ip unshuffled table settings 100001
      (record {
        from = 6;
        peer_address = "10.0.0.1";
        payload = Packets.serialize cells (network_data mail);
      })
      true
      greeted).messages
    ≡ record { is_server = true; from = 6; packet = mail } ∷ []
handshake_then_data_example =
    handshake_then_data cells toy short_ip unshuffled table settings cells_laws 100000 100001 6
      "10.0.0.1" home hello mail fresh unknown foreign (omega arith) (omega arith) known_address
      hello-IsPacket refl refl (omega arith) mail-IsPacket

other_handshake : build_handshake cells toy short_ip unshuffled table other_settings [] ≡ record {
  l_type = 1000;
  version = 1;
  peer_id = 9;
  peer_port = 12897;
  network_id = 5;
  peers = [];
}
unfolding build_handshake turtlecoin_v.P2p.Node.build_peer_list turtlecoin_v.P2p.PeerDb.peers
    turtlecoin_v.Network.Packets.Handshake.new turtlecoin_v.P2p.PeerDb.Stored.peer_table
    turtlecoin_v.P2p.PeerDb.Stored.read_all turtlecoin_v.P2p.PeerDb.Stored.read_values
    turtlecoin_v.Database.Named.get_all turtlecoin_v.P2p.PeerDb.Stored.list_keys
other_handshake = refl

other-IsPacket :
    IsPacket short_ip
      (handshake (build_handshake cells toy short_ip unshuffled table other_settings []))
other-IsPacket = rw other_handshake (
  refl,
  record {
    version = omega arith;
    peer_id = omega arith;
    peer_port = omega arith;
    network_id = omega arith;
    count = omega arith;
    peers = tt;
  },
)

built_handshake_completes_example :
    turtlecoin_v.Tools.Set.contains 6
      (handle_incoming_message cells toy short_ip unshuffled table settings 100000
        (record {
          from = 6;
          peer_address = "10.0.0.1";
          payload =
              Packets.serialize cells
                (handshake (build_handshake cells toy short_ip unshuffled table other_settings []));
        })
        true
        fresh).completed
    ≡ true
built_handshake_completes_example =
    built_handshake_completes cells toy short_ip unshuffled table settings other_settings cells_laws
      100000 6 "10.0.0.1" home [] fresh unknown (omega arith) (omega arith) known_address
      other-IsPacket

stranger_ignored_example :
    handle_packet cells toy short_ip unshuffled table settings 100000 6 "10.0.0.1"
      (network_data mail)
      true
      fresh
    ≡ fresh
stranger_ignored_example =
    stranger_ignored cells toy short_ip unshuffled table settings 100000 6 "10.0.0.1"
      (network_data mail) fresh unknown tt

abbrev dark : Network
dark = record {
  normalize_host_port = λ host port. (host, port, port);
  dial = λ host port. success;
  is_connected = λ id. ltb 3 id;
  address_to_string = λ a. "10.0.0.1";
}

abbrev links : Links
links = record { clients = 2 ∷ (5 ∷ []); sent = []; running = true }

outgoing_bound_example :
    length
      (manage_connections cells toy short_ip unshuffled table settings dark known links).clients
    ≤ 11
outgoing_bound_example =
    outgoing_bound cells toy short_ip unshuffled table settings dark known links (omega arith)
