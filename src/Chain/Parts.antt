-- ===== src/Chain/Parts.antt =====
-- The structures that transactions inherit from (include/blockchain/base_types.h): their fields,
-- their serialize and deserialize methods, and the checks of an output.
pub mod RoundTrip
use turtlecoin_v.Base.{ℕ, Bool, List, [], ◌∷◌, ◌++◌, length, ◌==◌}
use turtlecoin_v.Errors.{Error, success, ◌>>◌, reject_if}
use turtlecoin_v.Errors.ErrorCode.{
  tx_staker_reward_id, tx_staker_reward_amount, tx_output_public_ephemeral, tx_output_amount,
  tx_output_commitment,
}
use turtlecoin_v.Serial.{Bytes, Reader, ◌>>=◌, return, Wire, emit, write_each, read_many}
use turtlecoin_v.Crypto.{Crypto}

-- `TransactionHeader`; `l_type` is read off the stream like any other field.
pub record TransactionHeader : Type 0 where
  pub l_type : ℕ
  pub version : ℕ

unfoldable pub serialize_header : Wire → TransactionHeader → Bytes
serialize_header w h = emit (w.varint h.l_type ∷ w.varint h.version ∷ [])

unfoldable pub deserialize_header : Wire → Reader TransactionHeader
deserialize_header w = do
  l_type ← w.read_varint 64
  version ← w.read_varint 64
  return (record { l_type = l_type; version = version })

pub record TransactionPrefix : Type 0 where
  pub header : TransactionHeader
  pub unlock_block : ℕ
  pub public_key : ℕ

unfoldable pub serialize_prefix : Wire → TransactionPrefix → Bytes
serialize_prefix w p =
    emit (serialize_header w p.header ∷ w.varint p.unlock_block ∷ w.key p.public_key ∷ [])

unfoldable pub deserialize_prefix : Wire → Reader TransactionPrefix
deserialize_prefix w = do
  header ← deserialize_header w
  unlock_block ← w.read_varint 64
  public_key ← w.read_key
  return (record { header = header; unlock_block = unlock_block; public_key = public_key })

pub record StakerOutput : Type 0 where
  pub staker_id : ℕ
  pub amount : ℕ

unfoldable pub serialize_staker_output : Wire → StakerOutput → Bytes
serialize_staker_output w o = emit (w.key o.staker_id ∷ w.varint o.amount ∷ [])

unfoldable pub deserialize_staker_output : Wire → Reader StakerOutput
deserialize_staker_output w = do
  staker_id ← w.read_key
  amount ← w.read_varint 64
  return (record { staker_id = staker_id; amount = amount })

-- `StakerOutput::check_construction`
unfoldable pub check_staker_output : Crypto → StakerOutput → Error
check_staker_output c o = do
  reject_if (c.key_empty o.staker_id) tx_staker_reward_id
  reject_if (o.amount == 0) tx_staker_reward_amount
  success

pub record TransactionOutput : Type 0 where
  pub public_ephemeral : ℕ
  pub amount : ℕ
  pub commitment : ℕ

unfoldable pub serialize_output : Wire → TransactionOutput → Bytes
serialize_output w o = emit (w.key o.public_ephemeral ∷ w.varint o.amount ∷ w.key o.commitment ∷ [])

unfoldable pub deserialize_output : Wire → Reader TransactionOutput
deserialize_output w = do
  public_ephemeral ← w.read_key
  amount ← w.read_varint 64
  commitment ← w.read_key
  return (record { public_ephemeral = public_ephemeral; amount = amount; commitment = commitment })

-- `TransactionOutput::hash`
unfoldable pub output_hash : Wire → Crypto → TransactionOutput → ℕ
output_hash w c o = c.sha3 (serialize_output w o)

-- `TransactionOutput::check_construction`
unfoldable pub check_output : Crypto → TransactionOutput → Error
check_output c o = do
  reject_if (c.key_empty o.public_ephemeral) tx_output_public_ephemeral
  reject_if (o.amount == 0) tx_output_amount
  reject_if (c.key_empty o.commitment) tx_output_commitment
  success

-- `writer.varint(outputs.size())` and the loop behind it, in every structure with outputs.
unfoldable pub serialize_outputs : Wire → List TransactionOutput → Bytes
serialize_outputs w os = emit (w.varint (length os) ∷ write_each (serialize_output w) os ∷ [])

unfoldable pub deserialize_outputs : Wire → Reader (List TransactionOutput)
deserialize_outputs w = do count ← w.read_varint 64; read_many count (deserialize_output w)

pub record TransactionUserBody : Type 0 where
  pub nonce : ℕ
  pub fee : ℕ
  pub key_images : List ℕ
  pub outputs : List TransactionOutput

unfoldable pub serialize_body : Wire → TransactionUserBody → Bytes
serialize_body w b = emit (
    w.varint b.nonce
    ∷ w.varint b.fee
    ∷ w.key_vector b.key_images
    ∷ serialize_outputs w b.outputs
    ∷ [])

unfoldable pub deserialize_body : Wire → Reader TransactionUserBody
deserialize_body w = do
  nonce ← w.read_varint 64
  fee ← w.read_varint 64
  key_images ← w.read_key_vector
  outputs ← deserialize_outputs w
  return (record { nonce = nonce; fee = fee; key_images = key_images; outputs = outputs })

pub record UncommittedTransactionSuffix : Type 0 where
  pub pseudo_commitments : List ℕ
  pub ring_participants : List ℕ
  pub signatures : List ℕ
  pub range_proof : ℕ

-- The bytes that `signature_hash` hashes are the same as the first ones of the suffix.
unfoldable pub serialize_signatures : Wire → UncommittedTransactionSuffix → Bytes
serialize_signatures w s = emit (
    w.key_vector s.pseudo_commitments
    ∷ w.key_vector s.ring_participants
    ∷ w.varint (length s.signatures)
    ∷ write_each w.clsag s.signatures
    ∷ [])

-- `UncommittedTransactionSuffix::serialize_suffix`
unfoldable pub serialize_uncommitted_suffix : Wire → UncommittedTransactionSuffix → Bytes
serialize_uncommitted_suffix w s = emit (
    w.key_vector s.pseudo_commitments
    ∷ w.key_vector s.ring_participants
    ∷ w.varint (length s.signatures)
    ∷ write_each w.clsag s.signatures
    ∷ w.range_proof s.range_proof
    ∷ [])

unfoldable pub deserialize_uncommitted_suffix : Wire → Reader UncommittedTransactionSuffix
deserialize_uncommitted_suffix w = do
  pseudo_commitments ← w.read_key_vector
  ring_participants ← w.read_key_vector
  count ← w.read_varint 64
  signatures ← read_many count w.read_clsag
  range_proof ← w.read_range_proof
  return (record {
    pseudo_commitments = pseudo_commitments;
    ring_participants = ring_participants;
    signatures = signatures;
    range_proof = range_proof;
  })

-- `UncommittedTransactionSuffix::signature_hash`
unfoldable pub signature_hash : Wire → Crypto → UncommittedTransactionSuffix → ℕ
signature_hash w c s = c.sha3 (serialize_signatures w s)

pub record CommittedTransactionSuffix : Type 0 where
  pub signature_hash : ℕ
  pub range_proof_hash : ℕ

-- `CommittedTransactionSuffix::serialize_suffix`
unfoldable pub serialize_suffix : Wire → CommittedTransactionSuffix → Bytes
serialize_suffix w s = emit (w.key s.signature_hash ∷ w.key s.range_proof_hash ∷ [])

unfoldable pub deserialize_suffix : Wire → Reader CommittedTransactionSuffix
deserialize_suffix w = do
  signature_hash ← w.read_key
  range_proof_hash ← w.read_key
  return (record { signature_hash = signature_hash; range_proof_hash = range_proof_hash })

pub record NormalTransactionData : Type 0 where
  pub extra : Bytes

unfoldable pub serialize_normal_data : Wire → NormalTransactionData → Bytes
serialize_normal_data w d = emit (w.varint (length d.extra) ∷ w.bytes d.extra ∷ [])

unfoldable pub deserialize_normal_data : Wire → Reader NormalTransactionData
deserialize_normal_data w = do
  count ← w.read_varint 64
  extra ← w.read_bytes count
  return (record { extra = extra })

pub record StakeTransactionData : Type 0 where
  pub stake_amount : ℕ
  pub candidate_public_key : ℕ
  pub staker_public_view_key : ℕ
  pub staker_public_spend_key : ℕ

unfoldable pub serialize_stake_data : Wire → StakeTransactionData → Bytes
serialize_stake_data w d = emit (
    w.varint d.stake_amount
    ∷ w.key d.candidate_public_key
    ∷ w.key d.staker_public_view_key
    ∷ w.key d.staker_public_spend_key
    ∷ [])

unfoldable pub deserialize_stake_data : Wire → Reader StakeTransactionData
deserialize_stake_data w = do
  stake_amount ← w.read_varint 64
  candidate_public_key ← w.read_key
  staker_public_view_key ← w.read_key
  staker_public_spend_key ← w.read_key
  return (record {
    stake_amount = stake_amount;
    candidate_public_key = candidate_public_key;
    staker_public_view_key = staker_public_view_key;
    staker_public_spend_key = staker_public_spend_key;
  })

pub record RecallStakeTransactionData : Type 0 where
  pub stake_amount : ℕ
  pub candidate_public_key : ℕ
  pub staker_id : ℕ
  pub view_signature : ℕ
  pub spend_signature : ℕ

unfoldable pub serialize_recall_data : Wire → RecallStakeTransactionData → Bytes
serialize_recall_data w d = emit (
    w.varint d.stake_amount
    ∷ w.key d.candidate_public_key
    ∷ w.key d.staker_id
    ∷ w.signature d.view_signature
    ∷ w.signature d.spend_signature
    ∷ [])

unfoldable pub deserialize_recall_data : Wire → Reader RecallStakeTransactionData
deserialize_recall_data w = do
  stake_amount ← w.read_varint 64
  candidate_public_key ← w.read_key
  staker_id ← w.read_key
  view_signature ← w.read_signature
  spend_signature ← w.read_signature
  return (record {
    stake_amount = stake_amount;
    candidate_public_key = candidate_public_key;
    staker_id = staker_id;
    view_signature = view_signature;
    spend_signature = spend_signature;
  })
