-- ===== src/Chain/Normal.antt =====
-- The committed form of a normal transaction, as blocks hold it (include/blockchain/transaction_normal.h).
pub mod Uncommitted
pub mod Laws
use turtlecoin_v.Base.{ℕ, Bool, List, [], ◌∷◌, ◌++◌, ◌+◌, length, ◌==◌, leb, not, ltb}
use turtlecoin_v.Errors.{Error, success, ◌>>◌, reject_if}
use turtlecoin_v.Errors.ErrorCode.{tx_invalid_version, tx_public_key, tx_extra_too_large}
use turtlecoin_v.Config.{pow_iterations, pow_memory, pow_threads, maximum_extra_size}
use turtlecoin_v.Serial.{Bytes, Reader, ◌>>=◌, return, Wire, emit}
use turtlecoin_v.Crypto.{Crypto}
use turtlecoin_v.Chain.Parts.{
  TransactionPrefix, serialize_prefix, deserialize_prefix, TransactionUserBody, serialize_body,
  deserialize_body, NormalTransactionData, serialize_normal_data, deserialize_normal_data,
  CommittedTransactionSuffix, serialize_suffix, deserialize_suffix,
}
use turtlecoin_v.Chain.UserChecks.{check_user_body}

pub record CommittedNormalTransaction : Type 0 where
  pub prefix : TransactionPrefix
  pub body : TransactionUserBody
  pub tx_data : NormalTransactionData
  pub suffix : CommittedTransactionSuffix

unfoldable pub serialize : Wire → CommittedNormalTransaction → Bytes
serialize w tx = emit (
    serialize_prefix w tx.prefix
    ∷ serialize_body w tx.body
    ∷ serialize_normal_data w tx.tx_data
    ∷ serialize_suffix w tx.suffix
    ∷ [])

unfoldable pub deserialize : Wire → Reader CommittedNormalTransaction
deserialize w = do
  prefix ← deserialize_prefix w
  body ← deserialize_body w
  tx_data ← deserialize_normal_data w
  suffix ← deserialize_suffix w
  return (record { prefix = prefix; body = body; tx_data = tx_data; suffix = suffix })

unfoldable pub check_construction : Crypto → CommittedNormalTransaction → Error
check_construction c tx = do
  reject_if (not (tx.prefix.header.version == 1)) tx_invalid_version
  reject_if (c.key_empty tx.prefix.public_key) tx_public_key
  check_user_body c tx.body
  reject_if (ltb maximum_extra_size (length tx.tx_data.extra)) tx_extra_too_large
  success

-- What is hashed: all but the suffix.
unfoldable pub serialize_digest : Wire → CommittedNormalTransaction → Bytes
serialize_digest w tx = emit (
    serialize_prefix w tx.prefix
    ∷ serialize_body w tx.body
    ∷ serialize_normal_data w tx.tx_data
    ∷ [])

unfoldable pub digest : Wire → Crypto → CommittedNormalTransaction → ℕ
digest w c tx = c.sha3 (serialize_digest w tx)

unfoldable pub hash : Wire → Crypto → CommittedNormalTransaction → ℕ
hash w c tx = c.sha3 (
    emit (
      w.key (digest w c tx)
      ∷ w.key tx.suffix.signature_hash
      ∷ w.key tx.suffix.range_proof_hash
      ∷ []))

unfoldable pub pow_hash : Wire → Crypto → CommittedNormalTransaction → ℕ
pow_hash w c tx =
    c.argon2id
      (c.sha3 (emit (w.bytes (serialize_digest w tx) ∷ w.key tx.suffix.range_proof_hash ∷ [])))
      pow_iterations pow_memory pow_threads

unfoldable pub pow_verify : Wire → Crypto → CommittedNormalTransaction → ℕ → Bool
pow_verify w c tx wanted = leb wanted (c.leading_zeros (pow_hash w c tx))

-- `size`
unfoldable pub byte_size : Wire → CommittedNormalTransaction → ℕ
byte_size w tx = length (serialize w tx)
