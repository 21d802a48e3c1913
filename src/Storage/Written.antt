-- ===== src/Storage/Written.antt =====
-- What the writes of a block leave in the database.
use turtlecoin_v.Base.{ℕ, List, All}
use turtlecoin_v.Serial.{Bytes, Wire}
use turtlecoin_v.Crypto.{Crypto}
use turtlecoin_v.Chain.Transaction.{Transaction}
use turtlecoin_v.Chain.Block.{Block}
use turtlecoin_v.Database.{Lmdb, ◌>>◌, each}
use turtlecoin_v.Database.Laws.{
  LmdbLaws, Establishes, Keeps, Present, Establishes-then, Establishes-last, Keeps-then, Keeps-each,
  Establishes-each, put-Present, put-Keeps_Present,
}
use turtlecoin_v.Database.Present.{Keeps-All}
use turtlecoin_v.Storage.Table
use turtlecoin_v.Storage.{
  reward_transaction, block_hash, put_transaction, put_block_bytes, put_block_index,
  put_block_timestamp, put_block_writes,
}
use turtlecoin_v.Storage.Stored.{
  IsStored, Keeps-IsStored, put_transaction-Keeps, put_transaction-IsStored,
}

module _ (w : Wire) (c : Crypto) {Txn Env : Type 0} (db : Lmdb Txn Env) (laws : LmdbLaws db) where
  -- What the writes of a block leave behind.
  pub record IsWritten (b : Block) (txs : List Transaction) (t : Txn) : Type 0 where
    pub reward : IsStored w c db laws (reward_transaction b.reward_tx) t
    pub stored : All (λ tx. IsStored w c db laws tx t) txs
    pub block : Present db Table.blocks (w.key_serialize (block_hash w c b)) t
    pub index : Present db Table.block_indexes (w.uint64 b.block_index) t

  -- The writes of the block itself keep all entries.
  module _ (b : Block) (d : ℕ) (k : Bytes) where
    bytes_keeps : Keeps db (put_block_bytes w c db b) (Present db d k)
    unfolding put_block_bytes
    bytes_keeps = put-Keeps_Present db laws _ _ _ d k

    index_keeps : Keeps db (put_block_index w c db b) (Present db d k)
    unfolding put_block_index
    index_keeps = put-Keeps_Present db laws _ _ _ d k

    timestamp_keeps : Keeps db (put_block_timestamp w c db b) (Present db d k)
    unfolding put_block_timestamp
    timestamp_keeps = put-Keeps_Present db laws _ _ _ d k

    index_Keeps :
        Keeps db (put_block_index w c db b >> put_block_timestamp w c db b) (Present db d k)
    index_Keeps = Keeps-then db _ index_keeps timestamp_keeps

    block_Keeps :
        Keeps db
          (put_block_bytes w c db b >> (put_block_index w c db b >> put_block_timestamp w c db b))
          (Present db d k)
    block_Keeps = Keeps-then db _ bytes_keeps index_Keeps

    transactions_Keep :
        (txs : List Transaction)
        → Keeps db
            (each (put_transaction w c db (block_hash w c b)) txs
              >> (put_block_bytes w c db b
                  >> (put_block_index w c db b >> put_block_timestamp w c db b)))
            (Present db d k)
    transactions_Keep txs =
        Keeps-then db _ (Keeps-each db _ _ (λ tx. put_transaction-Keeps w c db laws _ tx d k) txs)
          block_Keeps

  module _ (b : Block) (txs : List Transaction) where
    bytes_stored :
        Establishes db
          (put_block_bytes w c db b)
          (Present db Table.blocks (w.key_serialize (block_hash w c b)))
    unfolding put_block_bytes
    bytes_stored = put-Present db laws _ _ _

    index_stored :
        Establishes db
          (put_block_index w c db b)
          (Present db Table.block_indexes (w.uint64 b.block_index))
    unfolding put_block_index
    index_stored = put-Present db laws _ _ _

    reward_written :
        Establishes db
          (put_block_writes w c db b txs)
          (IsStored w c db laws (reward_transaction b.reward_tx))
    unfolding put_block_writes
    reward_written =
        Establishes-then db _ (put_transaction-IsStored w c db laws _ _)
          (Keeps-IsStored w c db laws _ (λ d k. transactions_Keep b d k txs) _)

    transactions_written :
        Establishes db
          (put_block_writes w c db b txs)
          (λ t. All (λ tx. IsStored w c db laws tx t) txs)
    unfolding put_block_writes
    transactions_written = Establishes-last db _ _ (
        Establishes-then db _
          (Establishes-each db _ (IsStored w c db laws) (put_transaction-IsStored w c db laws _)
            (λ x y. Keeps-IsStored w c db laws _ (put_transaction-Keeps w c db laws _ y) x) txs)
          (Keeps-All db (IsStored w c db laws) (Keeps-IsStored w c db laws _ (block_Keeps b)) txs))

    block_written :
        Establishes db
          (put_block_writes w c db b txs)
          (Present db Table.blocks (w.key_serialize (block_hash w c b)))
    unfolding put_block_writes
    block_written =
        Establishes-last db _ _
          (Establishes-last db _ _ (Establishes-then db _ bytes_stored (index_Keeps b _ _)))

    index_written :
        Establishes db
          (put_block_writes w c db b txs)
          (Present db Table.block_indexes (w.uint64 b.block_index))
    unfolding put_block_writes
    index_written = Establishes-last db _ _ (
        Establishes-last db _ _
          (Establishes-last db _ _ (Establishes-then db _ index_stored (timestamp_keeps b _ _))))

    pub put_block_writes-IsWritten :
        Establishes db (put_block_writes w c db b txs) (IsWritten b txs)
    put_block_writes-IsWritten = record {
      after = λ t t' e. record {
        reward = reward_written.after t t' e;
        stored = transactions_written.after t t' e;
        block = block_written.after t t' e;
        index = index_written.after t t' e;
      };
    }
