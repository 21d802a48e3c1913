-- ===== src/Chain/RecallStake.antt =====
-- The committed form of a recall stake transaction, as blocks hold it (include/blockchain/transaction_recall_stake.h).
pub mod Uncommitted
pub mod Laws
use turtlecoin_v.Base.{ℕ, Bool, List, [], ◌∷◌, ◌++◌, ◌+◌, length, ◌==◌, leb, not, ◌&&◌}
use turtlecoin_v.Errors.{Error, success, ◌>>◌, reject_if}
use turtlecoin_v.Errors.ErrorCode.{
  tx_invalid_version, tx_public_key, tx_stake_no_amount, staking_candidate_not_found, tx_staker_id,
  tx_recall_view_signature, tx_recall_spend_signature,
}
use turtlecoin_v.Config.{pow_iterations, pow_memory, pow_threads}
use turtlecoin_v.Serial.{Bytes, Reader, ◌>>=◌, return, Wire, emit}
use turtlecoin_v.Crypto.{Crypto}
use turtlecoin_v.Chain.Parts.{
  TransactionPrefix, serialize_prefix, deserialize_prefix, TransactionUserBody, serialize_body,
  deserialize_body, RecallStakeTransactionData, serialize_recall_data, deserialize_recall_data,
  CommittedTransactionSuffix, serialize_suffix, deserialize_suffix,
}
use turtlecoin_v.Chain.UserChecks.{check_user_body}

pub record CommittedRecallStakeTransaction : Type 0 where
  pub prefix : TransactionPrefix
  pub body : TransactionUserBody
  pub tx_data : RecallStakeTransactionData
  pub suffix : CommittedTransactionSuffix

unfoldable pub serialize : Wire → CommittedRecallStakeTransaction → Bytes
serialize w tx = emit (
    serialize_prefix w tx.prefix
    ∷ serialize_body w tx.body
    ∷ serialize_recall_data w tx.tx_data
    ∷ serialize_suffix w tx.suffix
    ∷ [])

unfoldable pub deserialize : Wire → Reader CommittedRecallStakeTransaction
deserialize w = do
  prefix ← deserialize_prefix w
  body ← deserialize_body w
  tx_data ← deserialize_recall_data w
  suffix ← deserialize_suffix w
  return (record { prefix = prefix; body = body; tx_data = tx_data; suffix = suffix })

unfoldable pub check_construction : Crypto → CommittedRecallStakeTransaction → Error
check_construction c tx = do
  reject_if (not (tx.prefix.header.version == 1) && not (tx.prefix.header.version == 2))
      tx_invalid_version
  reject_if (c.key_empty tx.prefix.public_key) tx_public_key
  check_user_body c tx.body
  reject_if (tx.tx_data.stake_amount == 0) tx_stake_no_amount
  reject_if (c.key_empty tx.tx_data.candidate_public_key) staking_candidate_not_found
  reject_if (c.key_empty tx.tx_data.staker_id) tx_staker_id
  reject_if (c.signature_empty tx.tx_data.view_signature) tx_recall_view_signature
  reject_if (c.signature_empty tx.tx_data.spend_signature) tx_recall_spend_signature
  success

-- What is hashed: all but the suffix.
unfoldable pub serialize_digest : Wire → CommittedRecallStakeTransaction → Bytes
serialize_digest w tx = emit (
    serialize_prefix w tx.prefix
    ∷ serialize_body w tx.body
    ∷ serialize_recall_data w tx.tx_data
    ∷ [])

unfoldable pub digest : Wire → Crypto → CommittedRecallStakeTransaction → ℕ
digest w c tx = c.sha3 (serialize_digest w tx)

unfoldable pub hash : Wire → Crypto → CommittedRecallStakeTransaction → ℕ
hash w c tx = c.sha3 (
    emit (
      w.key (digest w c tx)
      ∷ w.key tx.suffix.signature_hash
      ∷ w.key tx.suffix.range_proof_hash
      ∷ []))

unfoldable pub pow_hash : Wire → Crypto → CommittedRecallStakeTransaction → ℕ
pow_hash w c tx =
    c.argon2id
      (c.sha3 (emit (w.bytes (serialize_digest w tx) ∷ w.key tx.suffix.range_proof_hash ∷ [])))
      pow_iterations pow_memory pow_threads

unfoldable pub pow_verify : Wire → Crypto → CommittedRecallStakeTransaction → ℕ → Bool
pow_verify w c tx wanted = leb wanted (c.leading_zeros (pow_hash w c tx))

-- `size`
unfoldable pub byte_size : Wire → CommittedRecallStakeTransaction → ℕ
byte_size w tx = length (serialize w tx)
