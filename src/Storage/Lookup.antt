-- ===== src/Storage/Lookup.antt =====
-- About `get_block_hash` after `put_block` (src/core/blockchain_storage.cpp).
use turtlecoin_v.Base.{ℕ, ◌≡◌, sym, ap, ◌∙◌, refl, some, List, [], append-nil, inl, inr, arith}
use turtlecoin_v.Errors.{success, ok}
use turtlecoin_v.Serial.{Wire, IsKey}
use turtlecoin_v.Serial.Laws.{WireLaws}
use turtlecoin_v.Crypto.{Crypto}
use turtlecoin_v.Chain.Transaction.{Transaction}
use turtlecoin_v.Chain.Block.{Block}
use turtlecoin_v.Database.{Lmdb, read}
use turtlecoin_v.Database.Laws.{LmdbLaws, Establishes, Keeps, Establishes-then, Establishes-last}
use turtlecoin_v.Storage.Table
use turtlecoin_v.Storage.{
  block_hash, put_block_index, put_block_timestamp, put_block_writes, put_block, get_block_hash,
}
use turtlecoin_v.Storage.Put.{put_block-commits}

module _ (w : Wire) (c : Crypto) {Txn Env : Type 0} (db : Lmdb Txn Env) (laws : LmdbLaws db) where
  -- The entry of the block's index is its hash.
  record IsIndexed (b : Block) (t : Txn) : Type 0 where
    found :
        db.get t Table.block_indexes (w.uint64 b.block_index)
        ≡ some (w.key_serialize (block_hash w c b))

  index_put : (b : Block) → Establishes db (put_block_index w c db b) (IsIndexed b)
  unfolding put_block_index
  index_put b = record { after = λ t t' e. record { found = laws.put_same t t' _ _ _ e } }

  timestamp_keeps_index : (b : Block) → Keeps db (put_block_timestamp w c db b) (IsIndexed b)
  unfolding put_block_timestamp
  timestamp_keeps_index b = record {
    kept = λ t t' p e. record {
      found = elim (laws.put_other t t' _ _ _ Table.block_indexes (w.uint64 b.block_index) e) [
        | inl unchanged ↦ unchanged ∙ p.found
        | inr (same, _) ↦ absurd (omega (arith, same))
      ];
    };
  }

  writes-IsIndexed :
      (b : Block) (txs : List Transaction)
      → Establishes db (put_block_writes w c db b txs) (IsIndexed b)
  unfolding put_block_writes
  writes-IsIndexed b txs = Establishes-last db _ _ (
      Establishes-last db _ _
        (Establishes-last db _ _ (Establishes-then db _ (index_put b) (timestamp_keeps_index b))))

  read_whole_key : WireLaws w → (k : ℕ) → IsKey k → w.read_key (w.key_serialize k) ≡ some (k, [])
  read_whole_key wire k small =
      ap w.read_key (sym (append-nil (w.key_serialize k)))
      ∙ (wire.key_serialize_back k small).back []

  -- With WireLaws and LmdbLaws: after a put_block that succeeds, get_block_hash of the block's
  -- index gives the block's hash, if the hash is in the range of a key.
  pub get_block_hash-put_block :
      WireLaws w
      → (fuel : ℕ) (b : Block) (txs : List Transaction) (env env' : Env) → IsKey (block_hash w c b)
      → put_block w c db fuel b txs env ≡ some (success, env')
      → get_block_hash w c db b.block_index env' ≡ ok (block_hash w c b)
  unfolding get_block_hash read
  get_block_hash-put_block wire fuel b txs env env' small h =
      let (before, same, t, ran, visible) = put_block-commits w c db laws fuel b txs env env' h in
      let stored =
        visible Table.block_indexes (w.uint64 b.block_index)
        ∙ ((writes-IsIndexed b txs).after (db.begin before) t ran).found in
      rw (stored, get_block_hash, read_whole_key wire (block_hash w c b) small) refl
