-- ===== src/Storage/Stored.antt =====
-- What the writes of one transaction (put_transaction) leave in the database.
use turtlecoin_v.Base.{ℕ, All}
use turtlecoin_v.Serial.{Bytes, Wire}
use turtlecoin_v.Crypto.{Crypto}
use turtlecoin_v.Chain.Parts.{TransactionOutput, output_hash}
use turtlecoin_v.Chain.Transaction
use turtlecoin_v.Chain.Transaction.{Transaction}
use turtlecoin_v.Database.{Lmdb, Action, each}
use turtlecoin_v.Database.Laws.{
  LmdbLaws, Establishes, Keeps, Present, Establishes-then, Establishes-last, Keeps-then, Keeps-each,
  Establishes-each, put-Present, put-Keeps_Present,
}
use turtlecoin_v.Database.Present.{Keeps-All}
use turtlecoin_v.Storage.Table
use turtlecoin_v.Storage.{
  key_images_of, outputs_of, unlock_block_of, put_key_image, put_transaction_output, put_record,
  put_transaction,
}

module _ (w : Wire) (c : Crypto) {Txn Env : Type 0} (db : Lmdb Txn Env) (laws : LmdbLaws db) where
  -- A transaction's hash, key images and outputs have entries.
  pub record IsStored (tx : Transaction) (t : Txn) : Type 0 where
    pub hash : Present db Table.transactions (w.key_serialize (Transaction.hash w c tx)) t
    pub images : All (λ k. Present db Table.key_images (w.key_serialize k) t) (key_images_of tx)
    pub outputs :
        All
          (λ o. Present db Table.transaction_outputs (w.key_serialize (output_hash w c o)) t)
          (outputs_of tx)

  pub Keeps-IsStored :
      (action : Action Txn)
      → ((d : ℕ) (k : Bytes) → Keeps db action (Present db d k))
      → (tx : Transaction) → Keeps db action (IsStored tx)
  Keeps-IsStored action keeps tx = record {
    kept = λ t t' p e. record {
      hash = (keeps _ _).kept t t' p.hash e;
      images = (Keeps-All db _ (λ k. keeps _ _) (key_images_of tx)).kept t t' p.images e;
      outputs = (Keeps-All db _ (λ o. keeps _ _) (outputs_of tx)).kept t t' p.outputs e;
    };
  }

  record_keeps :
      (d : ℕ) (k : Bytes) (h : ℕ) (tx : Transaction)
      → Keeps db (put_record w c db tx h) (Present db d k)
  unfolding put_record
  record_keeps d k h tx = put-Keeps_Present db laws _ _ _ d k

  image_keeps : (d : ℕ) (k : Bytes) (i : ℕ) → Keeps db (put_key_image w c db i) (Present db d k)
  unfolding put_key_image
  image_keeps d k i = put-Keeps_Present db laws _ _ _ d k

  output_keeps :
      (d : ℕ) (k : Bytes) (u : ℕ) (o : TransactionOutput)
      → Keeps db (put_transaction_output w c db u o) (Present db d k)
  unfolding put_transaction_output
  output_keeps d k u o = put-Keeps_Present db laws _ _ _ d k

  pub put_transaction-Keeps :
      (h : ℕ) (tx : Transaction) (d : ℕ) (k : Bytes)
      → Keeps db (put_transaction w c db h tx) (Present db d k)
  unfolding put_transaction
  put_transaction-Keeps h tx d k = Keeps-then db _ (record_keeps d k h tx) (
      Keeps-then db _ (Keeps-each db _ _ (image_keeps d k) (key_images_of tx))
        (Keeps-each db _ _ (output_keeps d k _) (outputs_of tx)))

  outputs_Keep :
      (tx : Transaction) (d : ℕ) (k : Bytes)
      → Keeps db
          (each (put_transaction_output w c db (unlock_block_of tx)) (outputs_of tx))
          (Present db d k)
  outputs_Keep tx d k = Keeps-each db _ _ (output_keeps d k _) (outputs_of tx)

  record_stored :
      (h : ℕ) (tx : Transaction)
      → Establishes db
          (put_record w c db tx h)
          (Present db Table.transactions (w.key_serialize (Transaction.hash w c tx)))
  unfolding put_record
  record_stored h tx = put-Present db laws _ _ _

  hash_stored :
      (h : ℕ) (tx : Transaction)
      → Establishes db
          (put_transaction w c db h tx)
          (Present db Table.transactions (w.key_serialize (Transaction.hash w c tx)))
  unfolding put_transaction
  hash_stored h tx = Establishes-then db _ (record_stored h tx) (
      Keeps-then db _ (Keeps-each db _ _ (image_keeps _ _) (key_images_of tx))
        (outputs_Keep tx _ _))

  image_stored :
      (k : ℕ)
      → Establishes db (put_key_image w c db k) (Present db Table.key_images (w.key_serialize k))
  unfolding put_key_image
  image_stored k = put-Present db laws _ _ _

  output_stored :
      (u : ℕ) (o : TransactionOutput)
      → Establishes db
          (put_transaction_output w c db u o)
          (Present db Table.transaction_outputs (w.key_serialize (output_hash w c o)))
  unfolding put_transaction_output
  output_stored u o = put-Present db laws _ _ _

  images_stored :
      (h : ℕ) (tx : Transaction)
      → Establishes db
          (put_transaction w c db h tx)
          (λ t. All (λ k. Present db Table.key_images (w.key_serialize k) t) (key_images_of tx))
  unfolding put_transaction
  images_stored h tx = Establishes-last db _ _ (
      Establishes-then db _
        (Establishes-each db _ (λ k. Present db Table.key_images (w.key_serialize k)) image_stored
          (λ i j. image_keeps _ _ j) (key_images_of tx))
        (Keeps-All db (λ k. Present db Table.key_images (w.key_serialize k))
          (λ k. outputs_Keep tx _ _) (key_images_of tx)))

  outputs_stored :
      (h : ℕ) (tx : Transaction)
      → Establishes db (put_transaction w c db h tx) (λ t.
        All
          (λ o. Present db Table.transaction_outputs (w.key_serialize (output_hash w c o)) t)
          (outputs_of tx))
  unfolding put_transaction
  outputs_stored h tx = Establishes-last db _ _ (
      Establishes-last db _ _ (
        Establishes-each db _
          (λ o. Present db Table.transaction_outputs (w.key_serialize (output_hash w c o)))
          (output_stored _) (λ i j. output_keeps _ _ _ j) (outputs_of tx)))

  pub put_transaction-IsStored :
      (h : ℕ) (tx : Transaction) → Establishes db (put_transaction w c db h tx) (IsStored tx)
  put_transaction-IsStored h tx = record {
    after = λ t t' e. record {
      hash = (hash_stored h tx).after t t' e;
      images = (images_stored h tx).after t t' e;
      outputs = (outputs_stored h tx).after t t' e;
    };
  }
