-- ===== src/Chain/RecallStake/Uncommitted.antt =====
-- The uncommitted form of a recall stake transaction, as wallets send it, and how it is turned into the
-- committed form (include/blockchain/transaction_recall_stake.h).
use turtlecoin_v.Base.{ℕ, Bool, [], ◌∷◌, ◌+◌, length, ◌==◌, leb, not, ◌&&◌}
use turtlecoin_v.Errors.{Error, ◌>>◌, reject_if}
use turtlecoin_v.Errors.ErrorCode.{
  tx_invalid_version, tx_public_key, tx_stake_no_amount, staking_candidate_not_found, tx_staker_id,
  tx_recall_view_signature, tx_recall_spend_signature,
}
use turtlecoin_v.Config.{pow_iterations, pow_memory, pow_threads}
use turtlecoin_v.Serial.{Bytes, Reader, ◌>>=◌, return, Wire, emit}
use turtlecoin_v.Crypto.{Crypto}
use turtlecoin_v.Chain.TransactionType
use turtlecoin_v.Chain.Parts.{
  TransactionPrefix, serialize_prefix, deserialize_prefix, TransactionUserBody, serialize_body,
  deserialize_body, RecallStakeTransactionData, serialize_recall_data, deserialize_recall_data,
  UncommittedTransactionSuffix, serialize_uncommitted_suffix, deserialize_uncommitted_suffix,
  signature_hash,
}
use turtlecoin_v.Chain.UserChecks.{check_user_body, check_user_suffix}
use turtlecoin_v.Chain.Mining.{mine_nonce}
use turtlecoin_v.Chain.RecallStake.{CommittedRecallStakeTransaction}

pub record UncommittedRecallStakeTransaction : Type 0 where
  pub prefix : TransactionPrefix
  pub body : TransactionUserBody
  pub tx_data : RecallStakeTransactionData
  pub suffix : UncommittedTransactionSuffix

unfoldable pub serialize : Wire → UncommittedRecallStakeTransaction → Bytes
serialize w tx = emit (
    serialize_prefix w tx.prefix
    ∷ serialize_body w tx.body
    ∷ serialize_recall_data w tx.tx_data
    ∷ serialize_uncommitted_suffix w tx.suffix
    ∷ [])

unfoldable pub deserialize : Wire → Reader UncommittedRecallStakeTransaction
deserialize w = do
  prefix ← deserialize_prefix w
  body ← deserialize_body w
  tx_data ← deserialize_recall_data w
  suffix ← deserialize_uncommitted_suffix w
  return (record { prefix = prefix; body = body; tx_data = tx_data; suffix = suffix })

unfoldable pub check_construction : Crypto → UncommittedRecallStakeTransaction → Error
check_construction c tx = do
  reject_if (not (tx.prefix.header.version == 1) && not (tx.prefix.header.version == 2))
      tx_invalid_version
  reject_if (c.key_empty tx.prefix.public_key) tx_public_key
  check_user_body c tx.body
  reject_if (tx.tx_data.stake_amount == 0) tx_stake_no_amount
  reject_if (c.key_empty tx.tx_data.candidate_public_key) staking_candidate_not_found
  reject_if (c.key_empty tx.tx_data.staker_id) tx_staker_id
  reject_if (c.signature_empty tx.tx_data.view_signature) tx_recall_view_signature
  reject_if (c.signature_empty tx.tx_data.spend_signature) tx_recall_spend_signature
  check_user_suffix c tx.body tx.suffix

unfoldable pub serialize_digest : Wire → UncommittedRecallStakeTransaction → Bytes
serialize_digest w tx = emit (
    serialize_prefix w tx.prefix
    ∷ serialize_body w tx.body
    ∷ serialize_recall_data w tx.tx_data
    ∷ [])

unfoldable pub digest : Wire → Crypto → UncommittedRecallStakeTransaction → ℕ
digest w c tx = c.sha3 (serialize_digest w tx)

-- The digest and two hashes of `sizeof(crypto_hash_t)` bytes.
unfoldable pub committed_size : Wire → UncommittedRecallStakeTransaction → ℕ
committed_size w tx = length (serialize_digest w tx) + 32 + 32

unfoldable pub hash : Wire → Crypto → UncommittedRecallStakeTransaction → ℕ
hash w c tx = c.sha3 (
    emit (
      w.key (digest w c tx)
      ∷ w.key (signature_hash w c tx.suffix)
      ∷ w.key (c.range_proof_hash tx.suffix.range_proof)
      ∷ []))

unfoldable pub pow_hash : Wire → Crypto → UncommittedRecallStakeTransaction → ℕ
pow_hash w c tx =
    c.argon2id
      (c.sha3 (
        emit (
          w.bytes (serialize_digest w tx) ∷ w.key (c.range_proof_hash tx.suffix.range_proof) ∷ [])))
      pow_iterations pow_memory pow_threads

unfoldable pub pow_verify : Wire → Crypto → UncommittedRecallStakeTransaction → ℕ → Bool
pow_verify w c tx wanted = leb wanted (c.leading_zeros (pow_hash w c tx))

-- `size`
unfoldable pub byte_size : Wire → UncommittedRecallStakeTransaction → ℕ
byte_size w tx = length (serialize w tx)

-- `nonce = n`
unfoldable pub with_nonce :
    UncommittedRecallStakeTransaction → ℕ → UncommittedRecallStakeTransaction
with_nonce tx n = record tx {
  body = record {
    nonce = n;
    fee = tx.body.fee;
    key_images = tx.body.key_images;
    outputs = tx.body.outputs;
  };
}

-- The zeros of the proof of work at a nonce, and the search for a nonce.
unfoldable pub zeros_at : Wire → Crypto → UncommittedRecallStakeTransaction → ℕ → ℕ
zeros_at w c tx n = c.leading_zeros (pow_hash w c (with_nonce tx n))

-- `mine` leaves the nonce that it stopped at in the transaction, and says whether it serves.
unfoldable pub mine :
    Wire → Crypto → UncommittedRecallStakeTransaction → ℕ → UncommittedRecallStakeTransaction × Bool
mine w c tx wanted =
    let r = mine_nonce (zeros_at w c tx) wanted tx.body.nonce in (with_nonce tx r.nonce, r.found)

-- The default constructor sets `l_type`; the other fields are assigned.
unfoldable pub to_committed :
    Wire → Crypto → UncommittedRecallStakeTransaction → CommittedRecallStakeTransaction
to_committed w c tx = record {
  prefix = record {
    header = record { l_type = TransactionType.recall_stake; version = tx.prefix.header.version };
    unlock_block = tx.prefix.unlock_block;
    public_key = tx.prefix.public_key;
  };
  body = tx.body;
  tx_data = tx.tx_data;
  suffix = record {
    signature_hash = signature_hash w c tx.suffix;
    range_proof_hash = c.range_proof_hash tx.suffix.range_proof;
  };
}
