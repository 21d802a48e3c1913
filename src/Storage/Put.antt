-- ===== src/Storage/Put.antt =====
-- About `put_block` (src/core/blockchain_storage.cpp): what readers find when it has returned.
use turtlecoin_v.Base.{
  All-map, ℕ, ◌≡◌, true, some, List, length, ◌==◌, map, All, Bool-cases, inl, inr, arith,
}
use turtlecoin_v.Errors.{success, fail, ErrorCode}
use turtlecoin_v.Serial.{Bytes, Wire}
use turtlecoin_v.Crypto.{Crypto}
use turtlecoin_v.Chain.Parts.{output_hash}
use turtlecoin_v.Chain.Transaction
use turtlecoin_v.Chain.Transaction.{Transaction}
use turtlecoin_v.Chain.Block.{Block}
use turtlecoin_v.Database.{Lmdb}
use turtlecoin_v.Database.Laws.{LmdbLaws, SameData}
use turtlecoin_v.Database.Retry.{retry-Outcomes, attempt-commits}
use turtlecoin_v.Database.Present.{present-exists}
use turtlecoin_v.Storage.{
  key_images_of, outputs_of, reward_transaction, block_hash, put_block_writes, put_block,
  block_exists, block_hash_exists, transaction_exists, output_exists, key_image_exists,
}
use turtlecoin_v.Storage.Stored.{IsStored}
use turtlecoin_v.Storage.Written.{IsWritten, put_block_writes-IsWritten}

module _ (w : Wire) (c : Crypto) {Txn Env : Type 0} (db : Lmdb Txn Env) (laws : LmdbLaws db) where
  -- What a reader finds of a transaction.
  pub record IsFound (env : Env) (tx : Transaction) : Type 0 where
    pub hash : transaction_exists w c db (Transaction.hash w c tx) env ≡ true
    pub images : All (λ k. key_image_exists w c db k env ≡ true) (key_images_of tx)
    pub outputs : All (λ o. output_exists w c db (output_hash w c o) env ≡ true) (outputs_of tx)

  stored-IsFound :
      (t : Txn) (env : Env)
      → ((d : ℕ) (k : Bytes) → db.get (db.begin env) d k ≡ db.get t d k)
      → (tx : Transaction) → IsStored w c db laws tx t
      → IsFound env tx
  unfolding transaction_exists key_image_exists output_exists
  stored-IsFound t env visible tx s = record {
    hash = present-exists db t env _ _ s.hash visible;
    images = All-map (λ k p. present-exists db t env _ _ p visible) _ s.images;
    outputs = All-map (λ o p. present-exists db t env _ _ p visible) _ s.outputs;
  }

  -- What a reader finds of a block.
  pub record IsBlockFound (env : Env) (b : Block) (txs : List Transaction) : Type 0 where
    pub block : block_hash_exists w c db (block_hash w c b) env ≡ true
    pub index : block_exists w c db b.block_index env ≡ true
    pub reward : IsFound env (reward_transaction b.reward_tx)
    pub found : All (IsFound env) txs

  written-IsBlockFound :
      (t : Txn) (env : Env) (b : Block) (txs : List Transaction)
      → ((d : ℕ) (k : Bytes) → db.get (db.begin env) d k ≡ db.get t d k)
      → IsWritten w c db laws b txs t
      → IsBlockFound env b txs
  unfolding block_hash_exists block_exists
  written-IsBlockFound t env b txs visible s = record {
    block = present-exists db t env _ _ s.block visible;
    index = present-exists db t env _ _ s.index visible;
    reward = stored-IsFound t env visible _ s.reward;
    found = All-map (stored-IsFound t env visible) txs s.stored;
  }

  -- A put_block that succeeds has run its writes to the end on the data as they were, and they are
  -- visible.
  pub put_block-commits :
      (fuel : ℕ) (b : Block) (txs : List Transaction) (env env' : Env)
      → put_block w c db fuel b txs env ≡ some (success, env')
      → (before : Env) × SameData db env before
        × (t : Txn) × (put_block_writes w c db b txs (db.begin before) ≡ (success, t))
        × ((d : ℕ) (k : Bytes) → db.get (db.begin env') d k ≡ db.get t d k)
  unfolding put_block
  put_block-commits fuel b txs env env' h =
      let (before, same, a) =
        retry-Outcomes db laws fuel (put_block_writes w c db b txs) env (success, env')
          (ground arith) in
      let (t, ran, visible) = attempt-commits db laws _ before env' a in
      (before, same, t, ran, visible)

  -- Over an LMDB that obeys LmdbLaws: a put_block that succeeds was given the transactions that
  -- the block names, by number and combined hash; afterwards the block, its index, its reward, its
  -- transactions, their key images and their outputs are found.
  pub put_block-success :
      (fuel : ℕ) (b : Block) (txs : List Transaction) (env env' : Env)
      → put_block w c db fuel b txs env ≡ some (success, env')
      → (length txs ≡ length b.transactions)
        × (c.sha3_hashes b.transactions ≡ c.sha3_hashes (map (Transaction.hash w c) txs))
        × IsBlockFound env' b txs
  unfolding put_block
  put_block-success fuel b txs env env' h =
      let (before, same, t, ran, visible) = put_block-commits fuel b txs env env' h in
      (
        ground arith,
        ground arith,
        written-IsBlockFound t env' b txs visible
            ((put_block_writes-IsWritten w c db laws b txs).after (db.begin before) t ran),
      )

  -- Over an LMDB that obeys LmdbLaws: a put_block that fails leaves all data as it was.
  pub put_block-fail :
      (fuel : ℕ) (b : Block) (txs : List Transaction) (env env' : Env) (x : ErrorCode)
      → put_block w c db fuel b txs env ≡ some (fail x, env')
      → SameData db env env'
  unfolding put_block
  put_block-fail fuel b txs env env' x h = elim (Bool-cases (length txs == length b.transactions)) [
    | inr e ↦ record { same = λ d k. ground arith }
    | inl e ↦
        elim (Bool-cases
          (c.sha3_hashes b.transactions == c.sha3_hashes (map (Transaction.hash w c) txs))) [
            | inr o ↦ record { same = λ d k. ground arith }
            | inl o ↦ retry-Outcomes db laws fuel _ env (fail x, env') (rw (e, o) at h)
          ]
  ]
