-- ===== src/Tests/PeerLists.antt =====
-- The theorems on peer lists at concrete inputs.
use turtlecoin_v.Base.{◌≡◌, ◌↔◌, refl, false, some, [], ◌∷◌, ltb, arith}
use turtlecoin_v.Errors.{success, ok}
use turtlecoin_v.Database.{read}
use turtlecoin_v.Network.Peer.{NetworkPeer, serialize_peer}
use turtlecoin_v.Network.Peer.Laws.{IsStorable, stored}
use turtlecoin_v.P2p.PeerDb.{prune, prune_time, add, get}
use turtlecoin_v.P2p.PeerDb.Listing.{IsStoredList}
use turtlecoin_v.P2p.PeerDb.Prune.{prune_exact}
use turtlecoin_v.P2p.PeerDb.RoundTrip.{get-add}
use turtlecoin_v.Tests.Cells.{cells, cells_laws}
use turtlecoin_v.Tests.Toy.{toy}
use turtlecoin_v.Tests.Rows.{
  home, short_ip, Rows, rows_db, rows_laws, rows-IsRoomy, walk, walk_laws, get_row-All, table,
  unshuffled, unshuffled-IsShuffle,
}

abbrev pub far : NetworkPeer
far = record { address = home; port = 12897; peer_id = 30; network_id = 5; last_seen = 100000 }

abbrev near : NetworkPeer
near = record { address = home; port = 12897; peer_id = 31; network_id = 5; last_seen = 200000 }

far-IsStorable : IsStorable short_ip far
far-IsStorable = record {
  component_count = refl;
  small_components = (omega arith, tt);
  small_flags = omega arith;
  port = omega arith;
  peer_id = omega arith;
  network_id = omega arith;
  last_seen = omega arith;
}

near-IsStorable : IsStorable short_ip near
near-IsStorable = record {
  component_count = refl;
  small_components = (omega arith, tt);
  small_flags = omega arith;
  port = omega arith;
  peer_id = omega arith;
  network_id = omega arith;
  last_seen = omega arith;
}

-- An old peer, and one that was seen since.
abbrev pub known : Rows
known = (0, 30 ∷ [], serialize_peer cells far) ∷ ((0, 31 ∷ [], serialize_peer cells near) ∷ [])

known-IsStoredList : IsStoredList cells short_ip rows_db known
unfolding read
known-IsStoredList = record {
  entries =
      get_row-All
        (λ k v.
          (p : NetworkPeer) × (k ≡ p.peer_id ∷ [])
          × (v ≡ serialize_peer cells p)
          × IsStorable short_ip p)
        known ((far, refl, refl, far-IsStorable), ((near, refl, refl, near-IsStorable), tt)) 0;
}

prune_exact_example :
    (read rows_db (prune toy unshuffled table 2 200000 known) 0 (31 ∷ [])
      ≡ some (serialize_peer cells near))
    ↔ ((read rows_db known 0 (31 ∷ []) ≡ some (serialize_peer cells near))
        × (ltb 200000 (prune_time 200000) ≡ false))
prune_exact_example =
    prune_exact cells cells_laws short_ip rows_db rows_laws rows-IsRoomy 0 walk toy unshuffled 2
      200000 known walk_laws unshuffled-IsShuffle refl known-IsStoredList near near-IsStorable

-- A peer whose address has a port of its own.
abbrev tagged : NetworkPeer
tagged = record near { address = record home { port = 80 } }

tagged-IsStorable : IsStorable short_ip tagged
tagged-IsStorable = record {
  component_count = refl;
  small_components = (omega arith, tt);
  small_flags = omega arith;
  port = omega arith;
  peer_id = omega arith;
  network_id = omega arith;
  last_seen = omega arith;
}

abbrev noted : Rows
noted = (0, 31 ∷ [], serialize_peer cells tagged) ∷ []

added : add toy unshuffled table 2 200000 tagged [] ≡ (success, noted)
unfolding add prune_time turtlecoin_v.P2p.PeerDb.Stored.peer_table
    turtlecoin_v.P2p.PeerDb.Stored.put_peer turtlecoin_v.P2p.PeerDb.Stored.answered
    turtlecoin_v.Database.Named.put turtlecoin_v.Database.retry turtlecoin_v.Database.is_full
    turtlecoin_v.Database.attempt
added = refl

get-add_example :
    (ltb 200000 (prune_time 200000) ≡ false)
    × (get toy unshuffled table 2 31 noted ≡ ok (stored short_ip tagged))
get-add_example =
    get-add cells cells_laws short_ip rows_db rows_laws 1 walk toy unshuffled 2 200000 tagged []
      noted tagged-IsStorable added
