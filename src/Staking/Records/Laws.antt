-- ===== src/Staking/Records/Laws.antt =====
-- About the bytes of candidates and stakes (include/staking).
use turtlecoin_v.Serial.{Wire, IsU64, IsKey}
use turtlecoin_v.Serial.Laws.{Reads, WireLaws, Reads->>=, Reads-return}
use turtlecoin_v.Staking.Records.{
  CandidateNode, serialize_candidate, deserialize_candidate, StakeRecord, serialize_stake,
  deserialize_stake,
}

-- The fields are in the range of their types.
pub record IsCandidate (n : CandidateNode) : Type 0 where
  pub record_version : IsU64 n.record_version
  pub public_signing_key : IsKey n.public_signing_key
  pub public_view_key : IsKey n.public_view_key
  pub public_spend_key : IsKey n.public_spend_key
  pub initial_stake : IsU64 n.initial_stake
  pub block_production_assigned : IsU64 n.block_production_assigned
  pub block_validation_assigned : IsU64 n.block_validation_assigned
  pub blocks_produced : IsU64 n.blocks_produced
  pub blocks_validated : IsU64 n.blocks_validated

pub record IsStake (s : StakeRecord) : Type 0 where
  pub record_version : IsU64 s.record_version
  pub candidate_public_key : IsKey s.candidate_public_key
  pub public_view_key : IsKey s.public_view_key
  pub public_spend_key : IsKey s.public_spend_key
  pub stake : IsU64 s.stake

module _ (w : Wire) (laws : WireLaws w) where
  -- A candidate.
  pub candidate_back :
      (n : CandidateNode)
      → IsCandidate n
      → Reads (deserialize_candidate w) (serialize_candidate w n) n
  unfolding serialize_candidate deserialize_candidate
  candidate_back n h = Reads->>= _ (laws.varint_back 64 _ h.record_version) (
      Reads->>= _ (laws.key_serialize_back _ h.public_signing_key) (
        Reads->>= _ (laws.key_serialize_back _ h.public_view_key) (
          Reads->>= _ (laws.key_serialize_back _ h.public_spend_key) (
            Reads->>= _ (laws.varint_back 64 _ h.initial_stake) (
              Reads->>= _ (laws.varint_back 64 _ h.block_production_assigned) (
                Reads->>= _ (laws.varint_back 64 _ h.block_validation_assigned) (
                  Reads->>= _ (laws.varint_back 64 _ h.blocks_produced)
                    (Reads->>= _ (laws.varint_back 64 _ h.blocks_validated) (Reads-return n)))))))))

  -- A stake.
  pub stake_back :
      (s : StakeRecord) → IsStake s → Reads (deserialize_stake w) (serialize_stake w s) s
  unfolding serialize_stake deserialize_stake
  stake_back s h = Reads->>= _ (laws.varint_back 64 _ h.record_version) (
      Reads->>= _ (laws.key_serialize_back _ h.candidate_public_key) (
        Reads->>= _ (laws.key_serialize_back _ h.public_view_key) (
          Reads->>= _ (laws.key_serialize_back _ h.public_spend_key)
            (Reads->>= _ (laws.varint_back 64 _ h.stake) (Reads-return s)))))
