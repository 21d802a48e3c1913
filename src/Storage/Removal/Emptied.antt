-- ===== src/Storage/Removal/Emptied.antt =====
-- About the database after the removal of a block (src/core/blockchain_storage.cpp).
use turtlecoin_v.Base.{ℕ, List, All}
use turtlecoin_v.Serial.{Wire}
use turtlecoin_v.Crypto.{Crypto}
use turtlecoin_v.Chain.Parts.{output_hash}
use turtlecoin_v.Chain.Transaction
use turtlecoin_v.Chain.Transaction.{Transaction}
use turtlecoin_v.Chain.Block.{Block}
use turtlecoin_v.Database.{Lmdb}
use turtlecoin_v.Database.Laws
use turtlecoin_v.Database.Laws.{
  LmdbLaws, Establishes, Keeps, Establishes-then, Establishes-last, Establishes-each, SameData,
}
use turtlecoin_v.Database.Present.{Keeps-All}
use turtlecoin_v.Storage.Table
use turtlecoin_v.Storage.{key_images_of, outputs_of, block_hash}
use turtlecoin_v.Storage.Removal.{
  del_key_image, del_transaction_output, del_record, del_transaction, del_block_index,
  del_block_bytes, del_block_writes,
}
use turtlecoin_v.Storage.Removal.Gone.{
  IsGone, Keeps-IsGone, Absent, image_keeps, output_keeps, outputs_keep, record_keeps,
  transaction_keeps, bytes_keeps, block_keeps,
}

module _ (w : Wire) (c : Crypto) {Txn Env : Type 0} (db : Lmdb Txn Env) (laws : LmdbLaws db) where
  image_gone :
      (k : ℕ)
      → Establishes db
          (del_key_image w c db k)
          (Absent w c db laws Table.key_images (w.key_serialize k))
  unfolding del_key_image
  image_gone k = Laws.del-Absent db laws _ _

  output_gone :
      (h : ℕ)
      → Establishes db
          (del_transaction_output w c db h)
          (Absent w c db laws Table.transaction_outputs (w.key_serialize h))
  unfolding del_transaction_output
  output_gone h = Laws.del-Absent db laws _ _

  record_gone :
      (tx : Transaction)
      → Establishes db
          (del_record w c db tx)
          (Absent w c db laws Table.transactions (w.key_serialize (Transaction.hash w c tx)))
  unfolding del_record
  record_gone tx = Laws.del-Absent db laws _ _

  images_gone :
      (tx : Transaction)
      → Establishes db (del_transaction w c db tx) (λ t.
        All (λ k. Absent w c db laws Table.key_images (w.key_serialize k) t) (key_images_of tx))
  unfolding del_transaction
  images_gone tx =
      Establishes-then db _
        (Establishes-each db _ _ image_gone (λ x y. image_keeps w c db laws _ _ y)
          (key_images_of tx))
        (Keeps-All db _ (λ k. outputs_keep w c db laws _ _ tx) (key_images_of tx))

  outputs_gone :
      (tx : Transaction)
      → Establishes db (del_transaction w c db tx) (λ t.
        All
          (λ o.
            Absent w c db laws Table.transaction_outputs (w.key_serialize (output_hash w c o)) t)
          (outputs_of tx))
  unfolding del_transaction
  outputs_gone tx = Establishes-last db _ _ (
      Establishes-then db _
        (Establishes-each db _ _ (λ o. output_gone (output_hash w c o))
          (λ x y. output_keeps w c db laws _ _ (output_hash w c y)) (outputs_of tx))
        (Keeps-All db _ (λ o. record_keeps w c db laws _ _ tx) (outputs_of tx)))

  hash_gone :
      (tx : Transaction)
      → Establishes db
          (del_transaction w c db tx)
          (Absent w c db laws Table.transactions (w.key_serialize (Transaction.hash w c tx)))
  unfolding del_transaction
  hash_gone tx = Establishes-last db _ _ (Establishes-last db _ _ (record_gone tx))

  transaction-IsGone :
      (tx : Transaction) → Establishes db (del_transaction w c db tx) (IsGone w c db laws tx)
  transaction-IsGone tx = record {
    after = λ t t' e. record {
      images = (images_gone tx).after t t' e;
      outputs = (outputs_gone tx).after t t' e;
      hash = (hash_gone tx).after t t' e;
    };
  }

  pub transactions-IsGone :
      (b : Block) (txs : List Transaction)
      → Establishes db
          (del_block_writes w c db b txs)
          (λ t. All (λ tx. IsGone w c db laws tx t) txs)
  unfolding del_block_writes
  transactions-IsGone b txs =
      Establishes-then db _
        (Establishes-each db _ _ transaction-IsGone
          (λ x y. Keeps-IsGone w c db laws (λ d k. transaction_keeps w c db laws d k y) x) txs)
        (Keeps-All db _ (Keeps-IsGone w c db laws (λ d k. block_keeps w c db laws d k b)) txs)

  pub index_gone :
      (b : Block) (txs : List Transaction)
      → Establishes db
          (del_block_writes w c db b txs)
          (Absent w c db laws Table.block_indexes (w.uint64 b.block_index))
  unfolding del_block_writes del_block_index
  index_gone b txs = Establishes-last db _ _ (
      Establishes-last db _ _
        (Establishes-then db _ (Laws.del-Absent db laws _ _) (bytes_keeps w c db laws _ _ b)))

  pub block_gone :
      (b : Block) (txs : List Transaction)
      → Establishes db
          (del_block_writes w c db b txs)
          (Absent w c db laws Table.blocks (w.key_serialize (block_hash w c b)))
  unfolding del_block_writes del_block_bytes
  block_gone b txs =
      Establishes-last db _ _
        (Establishes-last db _ _ (Establishes-last db _ _ (Laws.del-Absent db laws _ _)))
