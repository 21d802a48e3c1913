-- ===== src/Storage/Removal.antt =====
-- How `BlockchainStorage` reads whole blocks and removes them (src/core/blockchain_storage.cpp).
pub mod Gone
pub mod Emptied
pub mod Unfound
use turtlecoin_v.Base.{
  ℕ, zero, suc, ltb, not, Bool, true, false, Option, none, some, List, [], ◌∷◌, if◌then◌else◌,
}
use turtlecoin_v.Errors.{Error, success, fail, ErrorCode, Outcome, ok, err, thrown}
use turtlecoin_v.Errors.ErrorCode.{db_block_not_found, db_transaction_not_found}
use turtlecoin_v.Serial.{Wire}
use turtlecoin_v.Crypto.{Crypto}
use turtlecoin_v.Chain.Parts.{TransactionOutput, output_hash}
use turtlecoin_v.Chain.Transaction
use turtlecoin_v.Chain.Transaction.{Transaction}
use turtlecoin_v.Chain.Block
use turtlecoin_v.Chain.Block.{Block}
use turtlecoin_v.Database.{Lmdb, Action, ◌>>◌, each, retry, read}
use turtlecoin_v.Storage.Table
use turtlecoin_v.Storage.{
  key_images_of, outputs_of, block_hash, get_transaction, get_block_hash, block_exists,
}

module _ (w : Wire) (c : Crypto) {Txn Env : Type 0} (db : Lmdb Txn Env) where
  -- `m_blocks->get<block_t>`
  unfoldable pub read_block : ℕ → Env → Outcome Block
  read_block hash env = elim (read db env Table.blocks (w.key_serialize hash)) [
    | none ↦ err db_block_not_found
    | some bytes ↦ elim (Block.deserialize w c bytes) [ none ↦ thrown | some (b, _) ↦ ok b ]
  ]

  -- The loop over a block's transactions.
  unfoldable pub get_each : List ℕ → Env → Outcome (List Transaction)
  get_each [] env = ok []
  get_each (h ∷ hs) env = elim (get_transaction w c db h env) [
    | err x ↦ err db_transaction_not_found
    | thrown ↦ thrown
    | ok (tx, _) ↦ elim (get_each hs env) [
      | ok txs ↦ ok (tx ∷ txs)
      | err x ↦ err x
      | thrown ↦ thrown
    ]
  ]

  unfoldable pub get_block_by_hash : ℕ → Env → Outcome (Block × List Transaction)
  get_block_by_hash hash env = elim (read_block hash env) [
    | err x ↦ err x
    | thrown ↦ thrown
    | ok b ↦ elim (get_each b.transactions env) [
      | err x ↦ err x
      | thrown ↦ thrown
      | ok txs ↦ ok (b, txs)
    ]
  ]

  unfoldable pub get_block : ℕ → Env → Outcome (Block × List Transaction)
  get_block index env = elim (get_block_hash w c db index env) [
    | err x ↦ err db_block_not_found
    | thrown ↦ thrown
    | ok hash ↦ get_block_by_hash hash env
  ]

  unfoldable pub get_block_index : ℕ → Env → Outcome ℕ
  get_block_index hash env = elim (read_block hash env) [
    | err x ↦ err db_block_not_found
    | thrown ↦ thrown
    | ok b ↦ ok b.block_index
  ]

  unfoldable pub get_block_count : Env → ℕ
  get_block_count env = db.count env Table.blocks

  unfoldable pub del_key_image : ℕ → Action Txn
  del_key_image k t = db.del t Table.key_images (w.key_serialize k)

  unfoldable pub del_transaction_output : ℕ → Action Txn
  del_transaction_output hash t = db.del t Table.transaction_outputs (w.key_serialize hash)

  unfoldable pub del_record : Transaction → Action Txn
  del_record tx t = db.del t Table.transactions (w.key_serialize (Transaction.hash w c tx))

  -- A transaction's own hash last.
  unfoldable pub del_transaction : Transaction → Action Txn
  del_transaction tx = do
    each del_key_image (key_images_of tx)
    each (λ o. del_transaction_output (output_hash w c o)) (outputs_of tx)
    del_record tx

  unfoldable pub del_block_timestamp : Block → Action Txn
  del_block_timestamp b t =
      db.del_value t Table.block_timestamps (w.uint64 b.timestamp)
        (w.key_serialize (block_hash w c b))

  unfoldable pub del_block_index : Block → Action Txn
  del_block_index b t = db.del t Table.block_indexes (w.uint64 b.block_index)

  unfoldable pub del_block_bytes : Block → Action Txn
  del_block_bytes b t = db.del t Table.blocks (w.key_serialize (block_hash w c b))

  -- The deletes of `del_block` between the label and the commit; the reward transaction is not among
  -- the transactions.
  unfoldable pub del_block_writes : Block → List Transaction → Action Txn
  del_block_writes b txs = do
    each del_transaction txs
    del_block_timestamp b
    del_block_index b
    del_block_bytes b

  -- `del_block`; `none` means that the fuel for retries ran out, and `thrown` is the exception of a
  -- block that cannot be read.
  unfoldable pub del_block : ℕ → ℕ → Env → Option (Outcome Error × Env)
  del_block fuel index env = elim (get_block index env) [
    | err x ↦ some (ok (fail x), env)
    | thrown ↦ some (thrown, env)
    | ok (b, txs) ↦ elim (retry db fuel (del_block_writes b txs) env) [
      | none ↦ none
      | some (e, env') ↦ some (ok e, env')
    ]
  ]

  unfoldable pub then_rewind :
      (Env → Option (Outcome Error × Env)) → Outcome Error × Env → Option (Outcome Error × Env)
  then_rewind rest (ok success, env) = rest env
  then_rewind rest (ok (fail x), env) = some (ok (fail x), env)
  then_rewind rest (err x, env) = some (err x, env)
  then_rewind rest (thrown, env) = some (thrown, env)

  -- The loop from `i` down to the first index that is not above `stop`.
  unfoldable pub rewind_from : ℕ → ℕ → ℕ → Env → Option (Outcome Error × Env)
  rewind_from fuel stop zero env = some (ok success, env)
  rewind_from fuel stop (suc i) env =
      if ltb stop (suc i)
      then elim (del_block fuel (suc i) env) [
        | none ↦ none
        | some r ↦ then_rewind (rewind_from fuel stop i) r
      ]
      else some (ok success, env)

  unfoldable pub rewind : ℕ → ℕ → Env → Option (Outcome Error × Env)
  rewind fuel index env =
      if not (block_exists w c db index env)
      then some (ok (fail db_block_not_found), env)
      else rewind_from fuel index (get_block_count env) env
