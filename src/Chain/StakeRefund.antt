-- ===== src/Chain/StakeRefund.antt =====
-- The stake refund transaction (include/blockchain/transaction_stake_refund.h).
pub mod Laws
use turtlecoin_v.Base.{ℕ, Bool, List, [], ◌∷◌, ◌++◌, length, ◌==◌, not}
use turtlecoin_v.Errors.{Error, success, ◌>>◌, reject_if, check_each}
use turtlecoin_v.Errors.ErrorCode.{
  tx_invalid_version, tx_public_key, tx_secret_key, tx_keypair_mismatch, tx_recall_stake_tx_hash,
  tx_invalid_output_count,
}
use turtlecoin_v.Serial.{Bytes, Reader, ◌>>=◌, return, Wire, emit}
use turtlecoin_v.Crypto.{Crypto}
use turtlecoin_v.Chain.Parts.{
  TransactionPrefix, serialize_prefix, deserialize_prefix, TransactionOutput, serialize_outputs,
  deserialize_outputs, check_output,
}

pub record StakeRefundTransaction : Type 0 where
  pub prefix : TransactionPrefix
  pub secret_key : ℕ
  pub recall_stake_tx : ℕ
  pub outputs : List TransactionOutput

unfoldable pub serialize : Wire → StakeRefundTransaction → Bytes
serialize w tx = emit (
    serialize_prefix w tx.prefix
    ∷ w.key_serialize tx.secret_key
    ∷ w.key_serialize tx.recall_stake_tx
    ∷ serialize_outputs w tx.outputs
    ∷ [])

unfoldable pub deserialize : Wire → Reader StakeRefundTransaction
deserialize w = do
  prefix ← deserialize_prefix w
  secret_key ← w.read_key
  recall_stake_tx ← w.read_key
  outputs ← deserialize_outputs w
  return (record {
    prefix = prefix;
    secret_key = secret_key;
    recall_stake_tx = recall_stake_tx;
    outputs = outputs;
  })

unfoldable pub check_construction : Crypto → StakeRefundTransaction → Error
check_construction c tx = do
  reject_if (not (tx.prefix.header.version == 1)) tx_invalid_version
  reject_if (c.key_empty tx.prefix.public_key) tx_public_key
  reject_if (c.key_empty tx.secret_key) tx_secret_key
  reject_if (not (c.secret_key_to_public_key tx.secret_key == tx.prefix.public_key))
      tx_keypair_mismatch
  reject_if (c.key_empty tx.recall_stake_tx) tx_recall_stake_tx_hash
  reject_if (not (length tx.outputs == 1)) tx_invalid_output_count
  check_each (check_output c) tx.outputs

unfoldable pub hash : Wire → Crypto → StakeRefundTransaction → ℕ
hash w c tx = c.sha3 (serialize w tx)
