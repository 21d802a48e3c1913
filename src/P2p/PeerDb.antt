-- ===== src/P2p/PeerDb.antt =====
-- `PeerDB` (src/p2p/peer_database.cpp) over the table in which it keeps its peers. What
-- `time(nullptr)` returns is an argument, and so is the order into which `std::shuffle` brings a list.
pub mod Stored
pub mod Laws
pub mod Listing
pub mod Deletion
pub mod Prune
pub mod RoundTrip
use turtlecoin_v.Base.{
  ℕ, zero, suc, ◌+◌, ◌-◌, ◌%◌, ◌^◌, Bool, true, false, List, [], ◌∷◌, ltb, length, ◌==◌, not, ◌&&◌,
  if◌then◌else◌,
}
use turtlecoin_v.Errors.{Error, success, fail, Outcome, ok, err, thrown, is_error}
use turtlecoin_v.Errors.ErrorCode.{peerlist_add_failure}
use turtlecoin_v.Crypto.{Crypto}
use turtlecoin_v.Network.Peer.{NetworkPeer}

-- The methods of the `LMDBDatabase` "peerlist" on a state `Db`, with their typed wrappers: a peer is
-- put under its key, and `all` are the values of all keys. PeerDb.Stored fills it.
pub record PeerTable (Db : Type 0) : Type 0 where
  pub put : ℕ → NetworkPeer → Db → Error × Db
  pub del : ℕ → Db → Error × Db
  pub get : ℕ → Db → Outcome NetworkPeer
  pub exists : ℕ → Db → Bool
  pub count : Db → ℕ
  pub all : Db → List NetworkPeer

abbrev pub prune_age : ℕ
prune_age = 86400

-- `(time(nullptr)) - PEER_PRUNE_TIME`, on 64 bits.
unfoldable pub prune_time : ℕ → ℕ
prune_time now = (now + 2 ^ 64 - prune_age) % 2 ^ 64

-- `std::copy_if`
unfoldable pub of_network : ℕ → List NetworkPeer → List NetworkPeer
of_network id [] = []
of_network id (p ∷ ps) = if p.network_id == id then p ∷ of_network id ps else of_network id ps

-- `resize` to a smaller size.
unfoldable pub truncate : ℕ → List NetworkPeer → List NetworkPeer
truncate zero ps = []
truncate (suc n) [] = []
truncate (suc n) (p ∷ ps) = p ∷ truncate n ps

-- `self` is m_peer_id.
module _ (c : Crypto) (shuffle : List NetworkPeer → List NetworkPeer) {Db : Type 0}
    (t : PeerTable Db) (self : ℕ) where
  unfoldable pub add : ℕ → NetworkPeer → Db → Error × Db
  add now entry db =
      if entry.peer_id == self
      then (fail peerlist_add_failure, db)
      else if ltb entry.last_seen (prune_time now)
      then (fail peerlist_add_failure, db)
      else t.put entry.peer_id entry db

  unfoldable pub del : ℕ → Db → Error × Db
  del peer_id db = t.del peer_id db

  unfoldable pub get : ℕ → Db → Outcome NetworkPeer
  get peer_id db = t.get peer_id db

  unfoldable pub exists : ℕ → Db → Bool
  exists peer_id db = t.exists peer_id db

  unfoldable pub count : Db → ℕ
  count db = t.count db

  unfoldable pub peers : ℕ → ℕ → Db → List NetworkPeer
  peers limit network_id db =
      let all = t.all db in
      let chosen = if not (c.key_empty network_id) then of_network network_id all else all in
      let shuffled = shuffle chosen in
      if not (limit == 0) && ltb limit (length shuffled) then truncate limit shuffled else shuffled

  -- The loop of `prune`; errors of `del` are only logged.
  unfoldable pub prune_each : ℕ → List NetworkPeer → Db → Db
  prune_each before [] db = db
  prune_each before (p ∷ ps) db =
      prune_each before ps (if ltb p.last_seen before then (del p.peer_id db).1 else db)

  unfoldable pub prune : ℕ → Db → Db
  prune now db = prune_each (prune_time now) (peers 0 c.key_default db) db

  -- `thrown` is the exception of a value that cannot be read.
  unfoldable pub touch : ℕ → ℕ → Db → Outcome Error × Db
  touch now peer_id db = elim (get peer_id db) [
    | err e ↦ (ok (fail e), db)
    | thrown ↦ (thrown, db)
    | ok peer ↦ let (e, db') = add now (record peer { last_seen = now }) db in (ok e, db')
  ]
