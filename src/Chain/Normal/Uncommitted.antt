-- ===== src/Chain/Normal/Uncommitted.antt =====
-- The uncommitted form of a normal transaction, as wallets send it, and how it is turned into the
-- committed form (include/blockchain/transaction_normal.h).
use turtlecoin_v.Base.{ℕ, Bool, [], ◌∷◌, ◌+◌, length, ◌==◌, leb, not, ltb}
use turtlecoin_v.Errors.{Error, ◌>>◌, reject_if}
use turtlecoin_v.Errors.ErrorCode.{tx_invalid_version, tx_public_key, tx_extra_too_large}
use turtlecoin_v.Config.{pow_iterations, pow_memory, pow_threads, maximum_extra_size}
use turtlecoin_v.Serial.{Bytes, Reader, ◌>>=◌, return, Wire, emit}
use turtlecoin_v.Crypto.{Crypto}
use turtlecoin_v.Chain.TransactionType
use turtlecoin_v.Chain.Parts.{
  TransactionPrefix, serialize_prefix, deserialize_prefix, TransactionUserBody, serialize_body,
  deserialize_body, NormalTransactionData, serialize_normal_data, deserialize_normal_data,
  UncommittedTransactionSuffix, serialize_uncommitted_suffix, deserialize_uncommitted_suffix,
  signature_hash,
}
use turtlecoin_v.Chain.UserChecks.{check_user_body, check_user_suffix}
use turtlecoin_v.Chain.Mining.{mine_nonce}
use turtlecoin_v.Chain.Normal.{CommittedNormalTransaction}

pub record UncommittedNormalTransaction : Type 0 where
  pub prefix : TransactionPrefix
  pub body : TransactionUserBody
  pub tx_data : NormalTransactionData
  pub suffix : UncommittedTransactionSuffix

unfoldable pub serialize : Wire → UncommittedNormalTransaction → Bytes
serialize w tx = emit (
    serialize_prefix w tx.prefix
    ∷ serialize_body w tx.body
    ∷ serialize_normal_data w tx.tx_data
    ∷ serialize_uncommitted_suffix w tx.suffix
    ∷ [])

unfoldable pub deserialize : Wire → Reader UncommittedNormalTransaction
deserialize w = do
  prefix ← deserialize_prefix w
  body ← deserialize_body w
  tx_data ← deserialize_normal_data w
  suffix ← deserialize_uncommitted_suffix w
  return (record { prefix = prefix; body = body; tx_data = tx_data; suffix = suffix })

unfoldable pub check_construction : Crypto → UncommittedNormalTransaction → Error
check_construction c tx = do
  reject_if (not (tx.prefix.header.version == 1)) tx_invalid_version
  reject_if (c.key_empty tx.prefix.public_key) tx_public_key
  check_user_body c tx.body
  reject_if (ltb maximum_extra_size (length tx.tx_data.extra)) tx_extra_too_large
  check_user_suffix c tx.body tx.suffix

unfoldable pub serialize_digest : Wire → UncommittedNormalTransaction → Bytes
serialize_digest w tx = emit (
    serialize_prefix w tx.prefix
    ∷ serialize_body w tx.body
    ∷ serialize_normal_data w tx.tx_data
    ∷ [])

unfoldable pub digest : Wire → Crypto → UncommittedNormalTransaction → ℕ
digest w c tx = c.sha3 (serialize_digest w tx)

-- The digest and two hashes of `sizeof(crypto_hash_t)` bytes.
unfoldable pub committed_size : Wire → UncommittedNormalTransaction → ℕ
committed_size w tx = length (serialize_digest w tx) + 32 + 32

unfoldable pub hash : Wire → Crypto → UncommittedNormalTransaction → ℕ
hash w c tx = c.sha3 (
    emit (
      w.key (digest w c tx)
      ∷ w.key (signature_hash w c tx.suffix)
      ∷ w.key (c.range_proof_hash tx.suffix.range_proof)
      ∷ []))

unfoldable pub pow_hash : Wire → Crypto → UncommittedNormalTransaction → ℕ
pow_hash w c tx =
    c.argon2id
      (c.sha3 (
        emit (
          w.bytes (serialize_digest w tx) ∷ w.key (c.range_proof_hash tx.suffix.range_proof) ∷ [])))
      pow_iterations pow_memory pow_threads

unfoldable pub pow_verify : Wire → Crypto → UncommittedNormalTransaction → ℕ → Bool
pow_verify w c tx wanted = leb wanted (c.leading_zeros (pow_hash w c tx))

-- `size`
unfoldable pub byte_size : Wire → UncommittedNormalTransaction → ℕ
byte_size w tx = length (serialize w tx)

-- `nonce = n`
unfoldable pub with_nonce : UncommittedNormalTransaction → ℕ → UncommittedNormalTransaction
with_nonce tx n = record tx {
  body = record {
    nonce = n;
    fee = tx.body.fee;
    key_images = tx.body.key_images;
    outputs = tx.body.outputs;
  };
}

-- The zeros of the proof of work at a nonce, and the search for a nonce.
unfoldable pub zeros_at : Wire → Crypto → UncommittedNormalTransaction → ℕ → ℕ
zeros_at w c tx n = c.leading_zeros (pow_hash w c (with_nonce tx n))

-- `mine` leaves the nonce that it stopped at in the transaction, and says whether it serves.
unfoldable pub mine :
    Wire → Crypto → UncommittedNormalTransaction → ℕ → UncommittedNormalTransaction × Bool
mine w c tx wanted =
    let r = mine_nonce (zeros_at w c tx) wanted tx.body.nonce in (with_nonce tx r.nonce, r.found)

-- The default constructor sets `l_type`; the other fields are assigned.
unfoldable pub to_committed :
    Wire → Crypto → UncommittedNormalTransaction → CommittedNormalTransaction
to_committed w c tx = record {
  prefix = record {
    header = record { l_type = TransactionType.normal; version = tx.prefix.header.version };
    unlock_block = tx.prefix.unlock_block;
    public_key = tx.prefix.public_key;
  };
  body = tx.body;
  tx_data = tx.tx_data;
  suffix = record {
    signature_hash = signature_hash w c tx.suffix;
    range_proof_hash = c.range_proof_hash tx.suffix.range_proof;
  };
}
