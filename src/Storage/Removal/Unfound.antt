-- ===== src/Storage/Removal/Unfound.antt =====
-- About what readers find after the removal of a block (src/core/blockchain_storage.cpp).
use turtlecoin_v.Base.{ℕ, ◌≡◌, refl, some, List, All, All-map, ◌∙◌, false, inl, inr, Option-cases}
use turtlecoin_v.Errors.{success, ok}
use turtlecoin_v.Serial.{Wire, Bytes}
use turtlecoin_v.Crypto.{Crypto}
use turtlecoin_v.Chain.Parts.{output_hash}
use turtlecoin_v.Chain.Transaction
use turtlecoin_v.Chain.Transaction.{Transaction}
use turtlecoin_v.Chain.Block.{Block}
use turtlecoin_v.Database.{Lmdb, retry, exists}
use turtlecoin_v.Database.Laws.{LmdbLaws}
use turtlecoin_v.Database.Retry.{attempt-commits, retry-Outcomes}
use turtlecoin_v.Storage.{
  key_images_of, outputs_of, block_hash, block_exists, block_hash_exists, transaction_exists,
  output_exists, key_image_exists,
}
use turtlecoin_v.Storage.Removal.{get_block, del_block_writes, del_block}
use turtlecoin_v.Storage.Removal.Gone.{IsGone, Absent}
use turtlecoin_v.Storage.Removal.Emptied.{transactions-IsGone, index_gone, block_gone}

module _ (w : Wire) (c : Crypto) {Txn Env : Type 0} (db : Lmdb Txn Env) where
  -- What a reader does not find of a transaction.
  pub record IsUnfound (env : Env) (tx : Transaction) : Type 0 where
    pub hash : transaction_exists w c db (Transaction.hash w c tx) env ≡ false
    pub images : All (λ k. key_image_exists w c db k env ≡ false) (key_images_of tx)
    pub outputs : All (λ o. output_exists w c db (output_hash w c o) env ≡ false) (outputs_of tx)

  -- What a reader does not find of a block.
  pub record IsBlockUnfound (env : Env) (b : Block) (txs : List Transaction) : Type 0 where
    pub hash : block_hash_exists w c db (block_hash w c b) env ≡ false
    pub index : block_exists w c db b.block_index env ≡ false
    pub unfound : All (IsUnfound env) txs

  module _ (laws : LmdbLaws db) where
    absent-exists :
        (t : Txn) (env : Env) (d : ℕ) (k : Bytes)
        → ((d : ℕ) (k : Bytes) → db.get (db.begin env) d k ≡ db.get t d k)
        → Absent w c db laws d k t
        → exists db env d k ≡ false
    unfolding exists
    absent-exists t env d k visible p = rw (visible d k ∙ p.no_entry, exists) refl

    gone-IsUnfound :
        (t : Txn) (env : Env)
        → ((d : ℕ) (k : Bytes) → db.get (db.begin env) d k ≡ db.get t d k)
        → (tx : Transaction) → IsGone w c db laws tx t
        → IsUnfound env tx
    unfolding transaction_exists key_image_exists output_exists
    gone-IsUnfound t env visible tx p = record {
      hash = absent-exists t env _ _ visible p.hash;
      images = All-map (λ k a. absent-exists t env _ _ visible a) (key_images_of tx) p.images;
      outputs = All-map (λ o a. absent-exists t env _ _ visible a) (outputs_of tx) p.outputs;
    }

    committed-IsBlockUnfound :
        (t start : Txn) (env : Env) (b : Block) (txs : List Transaction)
        → ((d : ℕ) (k : Bytes) → db.get (db.begin env) d k ≡ db.get t d k)
        → del_block_writes w c db b txs start ≡ (success, t)
        → IsBlockUnfound env b txs
    unfolding block_hash_exists block_exists
    committed-IsBlockUnfound t start env b txs visible done = record {
      hash = absent-exists t env _ _ visible ((block_gone w c db laws b txs).after start t done);
      index = absent-exists t env _ _ visible ((index_gone w c db laws b txs).after start t done);
      unfound =
          All-map (gone-IsUnfound t env visible) txs
            ((transactions-IsGone w c db laws b txs).after start t done);
    }

    retried :
        (fuel index : ℕ) (b : Block) (txs : List Transaction) (env env' : Env)
        → get_block w c db index env ≡ ok (b, txs)
        → del_block w c db fuel index env ≡ some (ok success, env')
        → retry db fuel (del_block_writes w c db b txs) env ≡ some (success, env')
    unfolding del_block
    retried fuel index b txs env env' got done =
        elim (Option-cases (retry db fuel (del_block_writes w c db b txs) env)) [
          | inl stopped ↦ cc (rw (got, stopped, del_block) at done)
          | inr ((e, s), answered) ↦ cc (answered, rw (got, answered, del_block) at done)
        ]

    -- Over an LMDB that obeys LmdbLaws: after a del_block that succeeds on an index whose block
    -- get_block finds, neither the block's hash nor its index is found, nor the hash, the key
    -- images or the outputs of any of its transactions.
    pub del_block_removes :
        (fuel index : ℕ) (b : Block) (txs : List Transaction) (env env' : Env)
        → get_block w c db index env ≡ ok (b, txs)
        → del_block w c db fuel index env ≡ some (ok success, env')
        → IsBlockUnfound env' b txs
    del_block_removes fuel index b txs env env' got done =
        let (before, same, e) =
          retry-Outcomes db laws fuel (del_block_writes w c db b txs) env (success, env')
            (retried fuel index b txs env env' got done) in
        let (t, written, visible) =
          attempt-commits db laws (del_block_writes w c db b txs) before env' e in
        committed-IsBlockUnfound t (db.begin before) env' b txs visible written
