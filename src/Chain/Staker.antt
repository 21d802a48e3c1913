-- ===== src/Chain/Staker.antt =====
-- The staker reward transaction (include/blockchain/transaction_staker.h).
pub mod Laws
use turtlecoin_v.Base.{ℕ, Bool, List, [], ◌∷◌, ◌++◌, length, ◌==◌, not}
use turtlecoin_v.Errors.{Error, success, ◌>>◌, reject_if, check_each}
use turtlecoin_v.Errors.ErrorCode.{tx_invalid_version}
use turtlecoin_v.Serial.{Bytes, Reader, ◌>>=◌, return, Wire, emit, write_each, read_many}
use turtlecoin_v.Crypto.{Crypto}
use turtlecoin_v.Chain.Parts.{
  TransactionHeader, serialize_header, deserialize_header, StakerOutput, serialize_staker_output,
  deserialize_staker_output, check_staker_output,
}

pub record StakerTransaction : Type 0 where
  pub header : TransactionHeader
  pub staker_outputs : List StakerOutput
  pub staker_penalties : List StakerOutput

unfoldable pub serialize : Wire → StakerTransaction → Bytes
serialize w tx = emit (
    serialize_header w tx.header
    ∷ w.varint (length tx.staker_outputs)
    ∷ write_each (serialize_staker_output w) tx.staker_outputs
    ∷ w.varint (length tx.staker_penalties)
    ∷ write_each (serialize_staker_output w) tx.staker_penalties
    ∷ [])

unfoldable pub deserialize : Wire → Reader StakerTransaction
deserialize w = do
  header ← deserialize_header w
  count ← w.read_varint 64
  staker_outputs ← read_many count (deserialize_staker_output w)
  penalty_count ← w.read_varint 64
  staker_penalties ← read_many penalty_count (deserialize_staker_output w)
  return (record {
    header = header;
    staker_outputs = staker_outputs;
    staker_penalties = staker_penalties;
  })

unfoldable pub check_construction : Crypto → StakerTransaction → Error
check_construction c tx = do
  reject_if (not (tx.header.version == 1)) tx_invalid_version
  check_each (check_staker_output c) tx.staker_outputs
  check_each (check_staker_output c) tx.staker_penalties

unfoldable pub hash : Wire → Crypto → StakerTransaction → ℕ
hash w c tx = c.sha3 (serialize w tx)
