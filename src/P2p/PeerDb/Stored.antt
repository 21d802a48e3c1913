-- ===== src/P2p/PeerDb/Stored.antt =====
-- The database "peerlist" of `PeerDB` (src/p2p/peer_database.cpp) as `LMDBDatabase` keeps it
-- (src/database/db_lmdb.h, src/database/db_lmdb.cpp): the operations of a `PeerTable` over LMDB.
use turtlecoin_v.Base.{
  ℕ, Bool, true, false, ◌==◌, ◌&&◌, Option, none, some, List, [], ◌∷◌, if◌then◌else◌,
}
use turtlecoin_v.Errors.{Error, fail, Outcome, ok, err, thrown}
use turtlecoin_v.Errors.ErrorCode.{lmdb_map_full, lmdb_notfound}
use turtlecoin_v.Serial.{Bytes, Wire}
use turtlecoin_v.Network.Ip.{Ipv6}
use turtlecoin_v.Network.Peer.{NetworkPeer, serialize_peer, deserialize_peer}
use turtlecoin_v.Database.{Lmdb, read}
use turtlecoin_v.Database as Lmdb
use turtlecoin_v.Database.Named
use turtlecoin_v.P2p.PeerDb.{PeerTable}

-- open_database("peerlist")
abbrev pub peerlist : ℕ
peerlist = 0

-- `r_key.to_string() == last_key.to_string()`
unfoldable pub same_key : Bytes → Bytes → Bool
same_key [] [] = true
same_key [] (y ∷ ys) = false
same_key (x ∷ xs) [] = false
same_key (x ∷ xs) (y ∷ ys) = x == y && same_key xs ys

-- The loop of `list_keys` over the keys that MDB_FIRST and then MDB_NEXT return; `last` is the key
-- before.
unfoldable pub list_keys : (last : Bytes) → List Bytes → List Bytes
list_keys last [] = []
list_keys last (k ∷ ks) = if same_key k last then list_keys last ks else k ∷ list_keys k ks

-- The loop of `get_all` with a type; `none` is the exception of a value that cannot be read.
unfoldable pub read_values : Wire → Ipv6 → List Bytes → Option (List NetworkPeer)
read_values w ip [] = some []
read_values w ip (v ∷ vs) = elim (deserialize_peer w ip v) [
  | none ↦ none
  | some (p, _) ↦ elim (read_values w ip vs) [ none ↦ none | some ps ↦ some (p ∷ ps) ]
]

-- `walk` is what a cursor over a database of the environment returns, key by key.
module _ (w : Wire) (ip : Ipv6) {Txn Env : Type 0} (db : Lmdb Txn Env) (fuel : ℕ)
    (walk : Env → ℕ → List Bytes) where
  -- A write that would need more than the fuel's rounds for a full map leaves it at that.
  unfoldable pub answered : Env → Option (Error × Env) → Error × Env
  answered env none = (fail lmdb_map_full, env)
  answered env (some answer) = answer

  unfoldable pub put_peer : ℕ → NetworkPeer → Env → Error × Env
  put_peer k p env =
      answered env (Named.put db fuel peerlist (w.key_serialize k) (serialize_peer w p) env)

  unfoldable pub del_peer : ℕ → Env → Error × Env
  del_peer k env = answered env (Named.del db fuel peerlist (w.key_serialize k) env)

  unfoldable pub get_peer : ℕ → Env → Outcome NetworkPeer
  get_peer k env = elim (read db env peerlist (w.key_serialize k)) [
    | none ↦ err lmdb_notfound
    | some v ↦ elim (deserialize_peer w ip v) [ none ↦ thrown | some (p, _) ↦ ok p ]
  ]

  unfoldable pub read_all : Env → Option (List NetworkPeer)
  read_all env = read_values w ip (Named.get_all db peerlist (list_keys [] (walk env peerlist)) env)

  -- The table; its list is empty where `get_all` throws.
  unfoldable pub peer_table : PeerTable Env
  peer_table = record {
    put = put_peer;
    del = del_peer;
    get = get_peer;
    exists = λ k env. Lmdb.exists db env peerlist (w.key_serialize k);
    count = λ env. db.count env peerlist;
    all = λ env. elim (read_all env) [ none ↦ [] | some ps ↦ ps ];
  }
