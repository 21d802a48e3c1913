-- ===== src/Chain/Parts/RoundTrip.antt =====
-- About the bytes of the parts of a transaction (include/blockchain/base_types.h), for fields in the
-- range of their types.
use turtlecoin_v.Base.{ℕ, List, [], ◌∷◌, length, All}
use turtlecoin_v.Serial.{Wire, IsU64, IsKey, IsSignature, read_many, write_each}
use turtlecoin_v.Serial.Laws.{Reads, WireLaws, Reads->>=, Reads-return, Reads-read_many, Reads-last}
use turtlecoin_v.Chain.Parts.{
  TransactionHeader, serialize_header, deserialize_header, TransactionPrefix, serialize_prefix,
  deserialize_prefix, StakerOutput, serialize_staker_output, deserialize_staker_output,
  TransactionOutput, serialize_output, deserialize_output, serialize_outputs, deserialize_outputs,
  TransactionUserBody, serialize_body, deserialize_body, CommittedTransactionSuffix,
  serialize_suffix, deserialize_suffix, UncommittedTransactionSuffix, serialize_uncommitted_suffix,
  deserialize_uncommitted_suffix, NormalTransactionData, serialize_normal_data,
  deserialize_normal_data, StakeTransactionData, serialize_stake_data, deserialize_stake_data,
  RecallStakeTransactionData, serialize_recall_data, deserialize_recall_data,
}

abbrev pub IsHeader : TransactionHeader → Type 0
IsHeader x = IsU64 x.l_type × IsU64 x.version

abbrev pub IsPrefix : TransactionPrefix → Type 0
IsPrefix x = IsHeader x.header × IsU64 x.unlock_block × IsKey x.public_key

abbrev pub IsStakerOutput : StakerOutput → Type 0
IsStakerOutput x = IsKey x.staker_id × IsU64 x.amount

abbrev pub IsOutput : TransactionOutput → Type 0
IsOutput x = IsKey x.public_ephemeral × IsU64 x.amount × IsKey x.commitment

abbrev pub IsOutputs : List TransactionOutput → Type 0
IsOutputs x = IsU64 (length x) × All IsOutput x

abbrev pub IsBody : TransactionUserBody → Type 0
IsBody x =
    IsU64 x.nonce
    × IsU64 x.fee
    × IsU64 (length x.key_images)
    × All IsKey x.key_images
    × IsOutputs x.outputs

abbrev pub IsSuffix : CommittedTransactionSuffix → Type 0
IsSuffix x = IsKey x.signature_hash × IsKey x.range_proof_hash

abbrev pub IsUncommittedSuffix : UncommittedTransactionSuffix → Type 0
IsUncommittedSuffix x =
    IsU64 (length x.pseudo_commitments)
    × All IsKey x.pseudo_commitments
    × IsU64 (length x.ring_participants)
    × All IsKey x.ring_participants
    × IsU64 (length x.signatures)

abbrev pub IsNormalData : NormalTransactionData → Type 0
IsNormalData x = IsU64 (length x.extra)

abbrev pub IsStakeData : StakeTransactionData → Type 0
IsStakeData x =
    IsU64 x.stake_amount
    × IsKey x.candidate_public_key
    × IsKey x.staker_public_view_key
    × IsKey x.staker_public_spend_key

abbrev pub IsRecallData : RecallStakeTransactionData → Type 0
IsRecallData x =
    IsU64 x.stake_amount
    × IsKey x.candidate_public_key
    × IsKey x.staker_id
    × IsSignature x.view_signature
    × IsSignature x.spend_signature

all_units : (xs : List ℕ) → All (λ s. Unit {0}) xs
all_units [] = tt
all_units (x ∷ xs) = (tt, all_units xs)

module _ (w : Wire) (laws : WireLaws w) where
  pub header_back :
      (x : TransactionHeader) → IsHeader x → Reads (deserialize_header w) (serialize_header w x) x
  unfolding serialize_header deserialize_header
  header_back x p =
      (Reads->>= _ (laws.varint_back 64 _ p.0)
        (Reads->>= _ (laws.varint_back 64 _ p.1) (Reads-return _)))

  pub prefix_back :
      (x : TransactionPrefix) → IsPrefix x → Reads (deserialize_prefix w) (serialize_prefix w x) x
  unfolding serialize_prefix deserialize_prefix
  prefix_back x p =
      (Reads->>= _ (header_back _ p.0) (
        Reads->>= _ (laws.varint_back 64 _ p.1)
          (Reads->>= _ (laws.key_back _ p.2) (Reads-return _))))

  pub staker_output_back :
      (x : StakerOutput)
      → IsStakerOutput x
      → Reads (deserialize_staker_output w) (serialize_staker_output w x) x
  unfolding serialize_staker_output deserialize_staker_output
  staker_output_back x p =
      (Reads->>= _ (laws.key_back _ p.0) (Reads->>= _ (laws.varint_back 64 _ p.1) (Reads-return _)))

  pub output_back :
      (x : TransactionOutput) → IsOutput x → Reads (deserialize_output w) (serialize_output w x) x
  unfolding serialize_output deserialize_output
  output_back x p =
      (Reads->>= _ (laws.key_back _ p.0) (
        Reads->>= _ (laws.varint_back 64 _ p.1)
          (Reads->>= _ (laws.key_back _ p.2) (Reads-return _))))

  pub outputs_back :
      (x : List TransactionOutput)
      → IsOutputs x
      → Reads (deserialize_outputs w) (serialize_outputs w x) x
  unfolding serialize_outputs deserialize_outputs
  outputs_back x p =
      Reads->>= _ (laws.varint_back 64 _ p.0)
        (Reads-last (Reads-read_many _ (serialize_output w) IsOutput output_back x p.1))

  pub body_back :
      (x : TransactionUserBody) → IsBody x → Reads (deserialize_body w) (serialize_body w x) x
  unfolding serialize_body deserialize_body
  body_back x p =
      (Reads->>= _ (laws.varint_back 64 _ p.0) (
        Reads->>= _ (laws.varint_back 64 _ p.1) (
          Reads->>= _ (laws.key_vector_back _ p.2 p.3)
            (Reads->>= _ (outputs_back _ p.4) (Reads-return _)))))

  pub suffix_back :
      (x : CommittedTransactionSuffix)
      → IsSuffix x
      → Reads (deserialize_suffix w) (serialize_suffix w x) x
  unfolding serialize_suffix deserialize_suffix
  suffix_back x p =
      (Reads->>= _ (laws.key_back _ p.0) (Reads->>= _ (laws.key_back _ p.1) (Reads-return _)))

  signatures_back :
      (xs : List ℕ) → Reads (read_many (length xs) w.read_clsag) (write_each w.clsag xs) xs
  signatures_back xs =
      Reads-read_many _ w.clsag (λ s. Unit {0}) (λ s _. laws.clsag_back s) xs (all_units xs)

  pub uncommitted_suffix_back :
      (x : UncommittedTransactionSuffix)
      → IsUncommittedSuffix x
      → Reads (deserialize_uncommitted_suffix w) (serialize_uncommitted_suffix w x) x
  unfolding serialize_uncommitted_suffix deserialize_uncommitted_suffix
  uncommitted_suffix_back x p =
      (Reads->>= _ (laws.key_vector_back _ p.0 p.1) (
        Reads->>= _ (laws.key_vector_back _ p.2 p.3) (
          Reads->>= _ (laws.varint_back 64 _ p.4) (
            Reads->>= _ (signatures_back _)
              (Reads->>= _ (laws.range_proof_back _) (Reads-return _))))))

  pub normal_data_back :
      (x : NormalTransactionData)
      → IsNormalData x
      → Reads (deserialize_normal_data w) (serialize_normal_data w x) x
  unfolding serialize_normal_data deserialize_normal_data
  normal_data_back x p =
      (Reads->>= _ (laws.varint_back 64 _ p) (Reads->>= _ (laws.bytes_back _) (Reads-return _)))

  pub stake_data_back :
      (x : StakeTransactionData)
      → IsStakeData x
      → Reads (deserialize_stake_data w) (serialize_stake_data w x) x
  unfolding serialize_stake_data deserialize_stake_data
  stake_data_back x p =
      (Reads->>= _ (laws.varint_back 64 _ p.0) (
        Reads->>= _ (laws.key_back _ p.1)
          (Reads->>= _ (laws.key_back _ p.2) (Reads->>= _ (laws.key_back _ p.3) (Reads-return _)))))

  pub recall_data_back :
      (x : RecallStakeTransactionData)
      → IsRecallData x
      → Reads (deserialize_recall_data w) (serialize_recall_data w x) x
  unfolding serialize_recall_data deserialize_recall_data
  recall_data_back x p =
      (Reads->>= _ (laws.varint_back 64 _ p.0) (
        Reads->>= _ (laws.key_back _ p.1) (
          Reads->>= _ (laws.key_back _ p.2) (
            Reads->>= _ (laws.signature_back _ p.3)
              (Reads->>= _ (laws.signature_back _ p.4) (Reads-return _))))))
