-- ===== src/Storage/Removal/Gone.antt =====
-- About what the removal of a block takes out of the database, and how far a rewind gets
-- (src/core/blockchain_storage.cpp).
use turtlecoin_v.Base.{
  ℕ, zero, suc, ◌≡◌, ◌<◌, refl, true, false, some, All, arith, inl, inr, Option-cases, lt→ltb,
}
use turtlecoin_v.Errors.{fail, ok, err}
use turtlecoin_v.Errors.ErrorCode.{db_block_not_found}
use turtlecoin_v.Serial.{Wire, Bytes}
use turtlecoin_v.Crypto.{Crypto}
use turtlecoin_v.Chain.Parts.{output_hash}
use turtlecoin_v.Chain.Transaction
use turtlecoin_v.Chain.Transaction.{Transaction}
use turtlecoin_v.Chain.Block.{Block}
use turtlecoin_v.Database.{Lmdb, Action, ◌>>◌, each, read, exists}
use turtlecoin_v.Database.Laws.{
  LmdbLaws, Establishes, Keeps, Establishes-then, Establishes-last, Keeps-then, Keeps-each,
  Establishes-each,
}
use turtlecoin_v.Database.Laws
use turtlecoin_v.Database.Present.{Keeps-All}
use turtlecoin_v.Storage.Table
use turtlecoin_v.Storage.{key_images_of, outputs_of, get_block_hash, block_exists}
use turtlecoin_v.Storage.Removal.{
  get_block, get_block_count, del_key_image, del_transaction_output, del_record, del_transaction,
  del_block_timestamp, del_block_index, del_block_bytes, del_block, then_rewind, rewind_from,
  rewind,
}

module _ (w : Wire) (c : Crypto) {Txn Env : Type 0} (db : Lmdb Txn Env) where
  -- A block that has no index cannot be got.
  missing_block :
      (index : ℕ) (env : Env)
      → block_exists w c db index env ≡ false
      → get_block w c db index env ≡ err db_block_not_found
  unfolding get_block get_block_hash block_exists exists read
  missing_block index env absent =
      elim (Option-cases (db.get (db.begin env) Table.block_indexes (w.uint64 index))) [
        | inl nothing ↦ rw (nothing, get_block, get_block_hash, read) refl
        | inr (v, there) ↦ cc (rw (there, block_exists, exists) at absent)
      ]

  rewind_from_missing :
      (fuel index n : ℕ) (env : Env)
      → index < n
      → block_exists w c db n env ≡ false
      → rewind_from w c db fuel index n env ≡ some (ok (fail db_block_not_found), env)
  unfolding rewind_from del_block then_rewind
  rewind_from_missing fuel index zero env lt absent = absurd (omega arith)
  rewind_from_missing fuel index (suc i) env lt absent =
      rw (lt→ltb index (suc i) lt, missing_block (suc i) env absent, del_block) refl

  -- If the index is there, below the number of blocks, and no block has that number as its index,
  -- rewind fails with DB_BLOCK_NOT_FOUND and removes nothing.
  pub rewind_stuck :
      (fuel index : ℕ) (env : Env)
      → block_exists w c db index env ≡ true
      → index < get_block_count w c db env
      → block_exists w c db (get_block_count w c db env) env ≡ false
      → rewind w c db fuel index env ≡ some (ok (fail db_block_not_found), env)
  unfolding rewind
  rewind_stuck fuel index env there lt absent =
      rw there (rewind_from_missing fuel index (get_block_count w c db env) env lt absent)

  module _ (laws : LmdbLaws db) where
    abbrev pub Absent : ℕ → Bytes → Txn → Type 0
    Absent d k t = Laws.Absent db d k t

    -- Nothing of a transaction is left: its key images, its outputs and its record.
    pub record IsGone (tx : Transaction) (t : Txn) : Type 0 where
      pub images : All (λ k. Absent Table.key_images (w.key_serialize k) t) (key_images_of tx)
      pub outputs :
          All
            (λ o. Absent Table.transaction_outputs (w.key_serialize (output_hash w c o)) t)
            (outputs_of tx)
      pub hash : Absent Table.transactions (w.key_serialize (Transaction.hash w c tx)) t

    module _ (d : ℕ) (k : Bytes) where
      pub image_keeps : (i : ℕ) → Keeps db (del_key_image w c db i) (Absent d k)
      unfolding del_key_image
      image_keeps i = Laws.del-Keeps_Absent db laws _ _ d k

      pub output_keeps : (h : ℕ) → Keeps db (del_transaction_output w c db h) (Absent d k)
      unfolding del_transaction_output
      output_keeps h = Laws.del-Keeps_Absent db laws _ _ d k

      pub record_keeps : (tx : Transaction) → Keeps db (del_record w c db tx) (Absent d k)
      unfolding del_record
      record_keeps tx = Laws.del-Keeps_Absent db laws _ _ d k

      pub outputs_keep :
          (tx : Transaction)
          → Keeps db
              (each (λ o. del_transaction_output w c db (output_hash w c o)) (outputs_of tx)
                >> del_record w c db tx)
              (Absent d k)
      outputs_keep tx =
          Keeps-then db _
            (Keeps-each db _ _ (λ o. output_keeps (output_hash w c o)) (outputs_of tx))
            (record_keeps tx)

      pub transaction_keeps : (tx : Transaction) → Keeps db (del_transaction w c db tx) (Absent d k)
      unfolding del_transaction
      transaction_keeps tx =
          Keeps-then db _ (Keeps-each db _ _ image_keeps (key_images_of tx)) (outputs_keep tx)

      pub timestamp_keeps : (b : Block) → Keeps db (del_block_timestamp w c db b) (Absent d k)
      unfolding del_block_timestamp
      timestamp_keeps b = Laws.del_value-Keeps_Absent db laws _ _ _ d k

      pub index_keeps : (b : Block) → Keeps db (del_block_index w c db b) (Absent d k)
      unfolding del_block_index
      index_keeps b = Laws.del-Keeps_Absent db laws _ _ d k

      pub bytes_keeps : (b : Block) → Keeps db (del_block_bytes w c db b) (Absent d k)
      unfolding del_block_bytes
      bytes_keeps b = Laws.del-Keeps_Absent db laws _ _ d k

      pub block_keeps :
          (b : Block)
          → Keeps db
              (del_block_timestamp w c db b
                >> (del_block_index w c db b >> del_block_bytes w c db b))
              (Absent d k)
      block_keeps b =
          Keeps-then db _ (timestamp_keeps b) (Keeps-then db _ (index_keeps b) (bytes_keeps b))

    pub Keeps-IsGone :
        {action : Action Txn}
        → ((d : ℕ) (k : Bytes) → Keeps db action (Absent d k))
        → (tx : Transaction) → Keeps db action (IsGone tx)
    Keeps-IsGone keeps tx = record {
      kept = λ t t' p e. record {
        images = (Keeps-All db _ (λ k. keeps _ _) (key_images_of tx)).kept t t' p.images e;
        outputs = (Keeps-All db _ (λ o. keeps _ _) (outputs_of tx)).kept t t' p.outputs e;
        hash = (keeps _ _).kept t t' p.hash e;
      };
    }
