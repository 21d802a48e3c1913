-- ===== src/Storage.antt =====
-- `BlockchainStorage` (src/core/blockchain_storage.cpp) over the database of module Database. What is
-- written and how it is read back; the registry of instances is left out.
pub mod Table
pub mod Stored
pub mod Written
pub mod Put
pub mod Lookup
pub mod Total
pub mod Removal
pub mod Seeking
use turtlecoin_v.Base.{
  ℕ, zero, suc, ◌-◌, Bool, true, false, Option, none, some, List, [], ◌∷◌, ◌++◌, length, ltb, ◌==◌,
  not, ◌||◌, if◌then◌else◌, map,
}
use turtlecoin_v.Errors.{Error, success, fail, ErrorCode, Outcome, ok, err, thrown}
use turtlecoin_v.Errors.ErrorCode.{
  db_block_not_found, db_transaction_not_found, db_transaction_output_not_found, block_txn_mismatch,
  block_txn_order,
}
use turtlecoin_v.Serial.{Bytes, Reader, ◌>>=◌ as read_then, return, Wire, emit}
use turtlecoin_v.Crypto.{Crypto}
use turtlecoin_v.Chain.Parts.{TransactionOutput, serialize_output, deserialize_output, output_hash}
use turtlecoin_v.Chain.Transaction
use turtlecoin_v.Chain.Transaction.{
  Transaction, genesis, staker, normal, stake, recall_stake, stake_refund,
}
use turtlecoin_v.Chain.Block
use turtlecoin_v.Chain.Block.{Block, Reward, DigestMode, full}
use turtlecoin_v.Database.{Lmdb, Action, ◌>>◌, each, retry, read, exists}

-- The key images that a stored transaction adds: only those of the users' transactions.
unfoldable pub key_images_of : Transaction → List ℕ
key_images_of (normal tx) = tx.body.key_images
key_images_of (stake tx) = tx.body.key_images
key_images_of (recall_stake tx) = tx.body.key_images
key_images_of (genesis tx) = []
key_images_of (staker tx) = []
key_images_of (stake_refund tx) = []

-- The outputs that it adds, each with the block from which it is unlocked.
unfoldable pub outputs_of : Transaction → List TransactionOutput
outputs_of (normal tx) = tx.body.outputs
outputs_of (stake tx) = tx.body.outputs
outputs_of (recall_stake tx) = tx.body.outputs
outputs_of (genesis tx) = tx.outputs
outputs_of (stake_refund tx) = tx.outputs
outputs_of (staker tx) = []

unfoldable pub unlock_block_of : Transaction → ℕ
unlock_block_of (normal tx) = tx.prefix.unlock_block
unlock_block_of (stake tx) = tx.prefix.unlock_block
unlock_block_of (recall_stake tx) = tx.prefix.unlock_block
unlock_block_of (genesis tx) = tx.prefix.unlock_block
unlock_block_of (stake_refund tx) = tx.prefix.unlock_block
unlock_block_of (staker tx) = 0

-- The alternatives of a block's reward among those of `transaction_t`.
unfoldable pub reward_transaction : Reward → Transaction
reward_transaction (Reward.genesis tx) = genesis tx
reward_transaction (Reward.staker tx) = staker tx

-- The values that the storage writes: a transaction and then its block's hash, and the unlock block
-- and then the output.
unfoldable pub transaction_record : Wire → Transaction → ℕ → Bytes
transaction_record w tx block_hash = emit (Transaction.serialize w tx ∷ w.key block_hash ∷ [])

unfoldable pub output_record : Wire → TransactionOutput → ℕ → Bytes
output_record w o unlock_block = emit (w.varint unlock_block ∷ serialize_output w o ∷ [])

-- How `get_transaction` reads such a value: the block's hash and then the transaction.
unfoldable pub read_transaction_record : Wire → Reader (Outcome Transaction × ℕ)
read_transaction_record w =
    read_then w.read_key
      (λ block_hash. read_then (Transaction.deserialize w) (λ tx. return (tx, block_hash)))

-- How `get_transaction_output` reads: the output and then the unlock block.
unfoldable pub read_output_record : Wire → Reader (TransactionOutput × ℕ)
read_output_record w =
    read_then (deserialize_output w)
      (λ o. read_then (w.read_varint 64) (λ unlock_block. return (o, unlock_block)))

-- The hash of a block: its digest, 0 where there is none (the full digest always exists).
unfoldable pub block_hash : Wire → Crypto → Block → ℕ
block_hash w c b = elim (Block.message_digest w c full b) [ some h ↦ h | none ↦ 0 ]

unfoldable pub block_bytes : Wire → Crypto → Block → Bytes
block_bytes w c b = elim (Block.serialize w c full b) [ some bs ↦ bs | none ↦ [] ]

module _ (w : Wire) (c : Crypto) {Txn Env : Type 0} (db : Lmdb Txn Env) where
  unfoldable pub put_key_image : ℕ → Action Txn
  put_key_image k t = db.put t Table.key_images (w.key_serialize k) []

  unfoldable pub put_transaction_output : ℕ → TransactionOutput → Action Txn
  put_transaction_output unlock_block o t =
      db.put t Table.transaction_outputs (w.key_serialize (output_hash w c o))
        (output_record w o unlock_block)

  unfoldable pub put_record : Transaction → ℕ → Action Txn
  put_record tx hash t =
      db.put t Table.transactions (w.key_serialize (Transaction.hash w c tx))
        (transaction_record w tx hash)

  unfoldable pub put_transaction : ℕ → Transaction → Action Txn
  put_transaction hash tx = do
    put_record tx hash
    each put_key_image (key_images_of tx)
    each (put_transaction_output (unlock_block_of tx)) (outputs_of tx)

  unfoldable pub put_block_bytes : Block → Action Txn
  put_block_bytes b t =
      db.put t Table.blocks (w.key_serialize (block_hash w c b)) (block_bytes w c b)

  unfoldable pub put_block_index : Block → Action Txn
  put_block_index b t =
      db.put t Table.block_indexes (w.uint64 b.block_index) (w.key_serialize (block_hash w c b))

  unfoldable pub put_block_timestamp : Block → Action Txn
  put_block_timestamp b t =
      db.put t Table.block_timestamps (w.uint64 b.timestamp) (w.key_serialize (block_hash w c b))

  -- The writes of `put_block` between the label and the commit.
  unfoldable pub put_block_writes : Block → List Transaction → Action Txn
  put_block_writes b txs = do
    put_transaction (block_hash w c b) (reward_transaction b.reward_tx)
    each (put_transaction (block_hash w c b)) txs
    put_block_bytes b
    put_block_index b
    put_block_timestamp b

  -- `put_block`; `none` means that the fuel for retries ran out.
  unfoldable pub put_block : ℕ → Block → List Transaction → Env → Option (Error × Env)
  put_block fuel b txs env =
      if not (length txs == length b.transactions)
      then some (fail block_txn_mismatch, env)
      else if not (c.sha3_hashes b.transactions == c.sha3_hashes (map (Transaction.hash w c) txs))
      then some (fail block_txn_order, env)
      else retry db fuel (put_block_writes b txs) env

  unfoldable pub block_exists : ℕ → Env → Bool
  block_exists index env = exists db env Table.block_indexes (w.uint64 index)

  unfoldable pub block_hash_exists : ℕ → Env → Bool
  block_hash_exists hash env = exists db env Table.blocks (w.key_serialize hash)

  unfoldable pub transaction_exists : ℕ → Env → Bool
  transaction_exists hash env = exists db env Table.transactions (w.key_serialize hash)

  unfoldable pub output_exists : ℕ → Env → Bool
  output_exists hash env = exists db env Table.transaction_outputs (w.key_serialize hash)

  unfoldable pub key_image_exists : ℕ → Env → Bool
  key_image_exists k env = exists db env Table.key_images (w.key_serialize k)

  -- The overload for several: one transaction, and a flag that is set once any exists.
  unfoldable pub any_key_image_exists : List ℕ → Env → Bool
  any_key_image_exists [] env = false
  any_key_image_exists (k ∷ ks) env = key_image_exists k env || any_key_image_exists ks env

  unfoldable pub get_transaction : ℕ → Env → Outcome (Transaction × ℕ)
  get_transaction hash env = elim (read db env Table.transactions (w.key_serialize hash)) [
    | none ↦ err db_transaction_not_found
    | some bytes ↦ elim (read_transaction_record w bytes) [
      | none ↦ thrown
      | some ((ok tx, block), _) ↦ ok (tx, block)
      | some ((err x, block), _) ↦ err x
      | some ((thrown, block), _) ↦ thrown
    ]
  ]

  unfoldable pub get_transaction_output : ℕ → Env → Outcome (TransactionOutput × ℕ)
  get_transaction_output hash env =
      elim (read db env Table.transaction_outputs (w.key_serialize hash)) [
        | none ↦ err db_transaction_output_not_found
        | some bytes ↦ elim (read_output_record w bytes) [
          | none ↦ thrown
          | some (found, _) ↦ ok found
        ]
      ]

  -- The overload for several hashes stops at the first error.
  unfoldable pub get_transaction_outputs : List ℕ → Env → Outcome (List (TransactionOutput × ℕ))
  get_transaction_outputs [] env = ok []
  get_transaction_outputs (h ∷ hs) env = elim (get_transaction_output h env) [
    | ok o ↦ elim (get_transaction_outputs hs env) [
      | ok os ↦ ok (o ∷ os)
      | err x ↦ err x
      | thrown ↦ thrown
    ]
    | err x ↦ err x
    | thrown ↦ thrown
  ]

  unfoldable pub get_block_hash : ℕ → Env → Outcome ℕ
  get_block_hash index env = elim (read db env Table.block_indexes (w.uint64 index)) [
    | none ↦ err db_block_not_found
    | some bytes ↦ elim (w.read_key bytes) [ none ↦ thrown | some (h, _) ↦ ok h ]
  ]
