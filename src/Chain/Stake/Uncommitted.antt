-- ===== src/Chain/Stake/Uncommitted.antt =====
-- The uncommitted form of a stake transaction, as wallets send it, and how it is turned into the
-- committed form (include/blockchain/transaction_stake.h).
use turtlecoin_v.Base.{ℕ, Bool, [], ◌∷◌, ◌+◌, length, ◌==◌, leb, not, ◌&&◌, ◌||◌}
use turtlecoin_v.Errors.{Error, ◌>>◌, reject_if}
use turtlecoin_v.Errors.ErrorCode.{
  tx_invalid_version, tx_public_key, tx_stake_no_amount, staking_candidate_not_found,
  tx_public_view_key_not_found, tx_public_spend_key_not_found, tx_staking_public_keys_reuse,
}
use turtlecoin_v.Config.{pow_iterations, pow_memory, pow_threads}
use turtlecoin_v.Serial.{Bytes, Reader, ◌>>=◌, return, Wire, emit}
use turtlecoin_v.Crypto.{Crypto}
use turtlecoin_v.Chain.TransactionType
use turtlecoin_v.Chain.Parts.{
  TransactionPrefix, serialize_prefix, deserialize_prefix, TransactionUserBody, serialize_body,
  deserialize_body, StakeTransactionData, serialize_stake_data, deserialize_stake_data,
  UncommittedTransactionSuffix, serialize_uncommitted_suffix, deserialize_uncommitted_suffix,
  signature_hash,
}
use turtlecoin_v.Chain.UserChecks.{check_user_body, check_user_suffix}
use turtlecoin_v.Chain.Mining.{mine_nonce}
use turtlecoin_v.Chain.Stake.{CommittedStakeTransaction}

pub record UncommittedStakeTransaction : Type 0 where
  pub prefix : TransactionPrefix
  pub body : TransactionUserBody
  pub tx_data : StakeTransactionData
  pub suffix : UncommittedTransactionSuffix

unfoldable pub serialize : Wire → UncommittedStakeTransaction → Bytes
serialize w tx = emit (
    serialize_prefix w tx.prefix
    ∷ serialize_body w tx.body
    ∷ serialize_stake_data w tx.tx_data
    ∷ serialize_uncommitted_suffix w tx.suffix
    ∷ [])

unfoldable pub deserialize : Wire → Reader UncommittedStakeTransaction
deserialize w = do
  prefix ← deserialize_prefix w
  body ← deserialize_body w
  tx_data ← deserialize_stake_data w
  suffix ← deserialize_uncommitted_suffix w
  return (record { prefix = prefix; body = body; tx_data = tx_data; suffix = suffix })

unfoldable pub check_construction : Crypto → UncommittedStakeTransaction → Error
check_construction c tx = do
  reject_if (not (tx.prefix.header.version == 1) && not (tx.prefix.header.version == 2))
      tx_invalid_version
  reject_if (c.key_empty tx.prefix.public_key) tx_public_key
  check_user_body c tx.body
  reject_if (tx.tx_data.stake_amount == 0) tx_stake_no_amount
  reject_if (c.key_empty tx.tx_data.candidate_public_key) staking_candidate_not_found
  reject_if (c.key_empty tx.tx_data.staker_public_view_key) tx_public_view_key_not_found
  reject_if (c.key_empty tx.tx_data.staker_public_spend_key) tx_public_spend_key_not_found
  reject_if
      (tx.tx_data.candidate_public_key == tx.tx_data.staker_public_view_key
        || (tx.tx_data.candidate_public_key == tx.tx_data.staker_public_spend_key
            || tx.tx_data.staker_public_view_key == tx.tx_data.staker_public_view_key))
      tx_staking_public_keys_reuse
  check_user_suffix c tx.body tx.suffix

unfoldable pub serialize_digest : Wire → UncommittedStakeTransaction → Bytes
serialize_digest w tx = emit (
    serialize_prefix w tx.prefix
    ∷ serialize_body w tx.body
    ∷ serialize_stake_data w tx.tx_data
    ∷ [])

unfoldable pub digest : Wire → Crypto → UncommittedStakeTransaction → ℕ
digest w c tx = c.sha3 (serialize_digest w tx)

-- The digest and two hashes of `sizeof(crypto_hash_t)` bytes.
unfoldable pub committed_size : Wire → UncommittedStakeTransaction → ℕ
committed_size w tx = length (serialize_digest w tx) + 32 + 32

unfoldable pub hash : Wire → Crypto → UncommittedStakeTransaction → ℕ
hash w c tx = c.sha3 (
    emit (
      w.key (digest w c tx)
      ∷ w.key (signature_hash w c tx.suffix)
      ∷ w.key (c.range_proof_hash tx.suffix.range_proof)
      ∷ []))

unfoldable pub pow_hash : Wire → Crypto → UncommittedStakeTransaction → ℕ
pow_hash w c tx =
    c.argon2id
      (c.sha3 (
        emit (
          w.bytes (serialize_digest w tx) ∷ w.key (c.range_proof_hash tx.suffix.range_proof) ∷ [])))
      pow_iterations pow_memory pow_threads

unfoldable pub pow_verify : Wire → Crypto → UncommittedStakeTransaction → ℕ → Bool
pow_verify w c tx wanted = leb wanted (c.leading_zeros (pow_hash w c tx))

-- `size`
unfoldable pub byte_size : Wire → UncommittedStakeTransaction → ℕ
byte_size w tx = length (serialize w tx)

-- `nonce = n`
unfoldable pub with_nonce : UncommittedStakeTransaction → ℕ → UncommittedStakeTransaction
with_nonce tx n = record tx {
  body = record {
    nonce = n;
    fee = tx.body.fee;
    key_images = tx.body.key_images;
    outputs = tx.body.outputs;
  };
}

-- The zeros of the proof of work at a nonce, and the search for a nonce.
unfoldable pub zeros_at : Wire → Crypto → UncommittedStakeTransaction → ℕ → ℕ
zeros_at w c tx n = c.leading_zeros (pow_hash w c (with_nonce tx n))

-- `mine` leaves the nonce that it stopped at in the transaction, and says whether it serves.
unfoldable pub mine :
    Wire → Crypto → UncommittedStakeTransaction → ℕ → UncommittedStakeTransaction × Bool
mine w c tx wanted =
    let r = mine_nonce (zeros_at w c tx) wanted tx.body.nonce in (with_nonce tx r.nonce, r.found)

-- The default constructor sets `l_type`; the other fields are assigned.
unfoldable pub to_committed :
    Wire → Crypto → UncommittedStakeTransaction → CommittedStakeTransaction
to_committed w c tx = record {
  prefix = record {
    header = record { l_type = TransactionType.stake; version = tx.prefix.header.version };
    unlock_block = tx.prefix.unlock_block;
    public_key = tx.prefix.public_key;
  };
  body = tx.body;
  tx_data = tx.tx_data;
  suffix = record {
    signature_hash = signature_hash w c tx.suffix;
    range_proof_hash = c.range_proof_hash tx.suffix.range_proof;
  };
}
