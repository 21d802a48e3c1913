-- ===== src/Staking/Records.antt =====
-- `candidate_node_t` and `stake_t` (include/staking/candidate.h, include/staking/stake.h).
pub mod Laws
use turtlecoin_v.Base.{ℕ, List, [], ◌∷◌}
use turtlecoin_v.Serial.{Bytes, Reader, ◌>>=◌, return, Wire, emit}
use turtlecoin_v.Crypto.{Crypto}

abbrev pub candidate_record_version : ℕ
candidate_record_version = 1

pub record CandidateNode : Type 0 where
  pub record_version : ℕ
  pub public_signing_key : ℕ
  pub public_view_key : ℕ
  pub public_spend_key : ℕ
  pub initial_stake : ℕ
  pub block_production_assigned : ℕ
  pub block_validation_assigned : ℕ
  pub blocks_produced : ℕ
  pub blocks_validated : ℕ

-- The constructor from keys and a stake.
unfoldable pub new_candidate : ℕ → ℕ → ℕ → ℕ → CandidateNode
new_candidate public_signing_key public_view_key public_spend_key initial_stake = record {
  record_version = candidate_record_version;
  public_signing_key = public_signing_key;
  public_view_key = public_view_key;
  public_spend_key = public_spend_key;
  initial_stake = initial_stake;
  block_production_assigned = 0;
  block_validation_assigned = 0;
  blocks_produced = 0;
  blocks_validated = 0;
}

unfoldable pub serialize_candidate : Wire → CandidateNode → Bytes
serialize_candidate w n = emit (
    w.varint n.record_version
    ∷ w.key_serialize n.public_signing_key
    ∷ w.key_serialize n.public_view_key
    ∷ w.key_serialize n.public_spend_key
    ∷ w.varint n.initial_stake
    ∷ w.varint n.block_production_assigned
    ∷ w.varint n.block_validation_assigned
    ∷ w.varint n.blocks_produced
    ∷ w.varint n.blocks_validated
    ∷ [])

unfoldable pub deserialize_candidate : Wire → Reader CandidateNode
deserialize_candidate w = do
  record_version ← w.read_varint 64
  public_signing_key ← w.read_key
  public_view_key ← w.read_key
  public_spend_key ← w.read_key
  initial_stake ← w.read_varint 64
  block_production_assigned ← w.read_varint 64
  block_validation_assigned ← w.read_varint 64
  blocks_produced ← w.read_varint 64
  blocks_validated ← w.read_varint 64
  return (record {
    record_version = record_version;
    public_signing_key = public_signing_key;
    public_view_key = public_view_key;
    public_spend_key = public_spend_key;
    initial_stake = initial_stake;
    block_production_assigned = block_production_assigned;
    block_validation_assigned = block_validation_assigned;
    blocks_produced = blocks_produced;
    blocks_validated = blocks_validated;
  })

unfoldable pub candidate_hash : Wire → Crypto → CandidateNode → ℕ
candidate_hash w c n = c.sha3 (serialize_candidate w n)

pub record StakeRecord : Type 0 where
  pub record_version : ℕ
  pub candidate_public_key : ℕ
  pub public_view_key : ℕ
  pub public_spend_key : ℕ
  pub stake : ℕ

unfoldable pub serialize_stake : Wire → StakeRecord → Bytes
serialize_stake w s = emit (
    w.varint s.record_version
    ∷ w.key_serialize s.candidate_public_key
    ∷ w.key_serialize s.public_view_key
    ∷ w.key_serialize s.public_spend_key
    ∷ w.varint s.stake
    ∷ [])

unfoldable pub deserialize_stake : Wire → Reader StakeRecord
deserialize_stake w = do
  record_version ← w.read_varint 64
  candidate_public_key ← w.read_key
  public_view_key ← w.read_key
  public_spend_key ← w.read_key
  stake ← w.read_varint 64
  return (record {
    record_version = record_version;
    candidate_public_key = candidate_public_key;
    public_view_key = public_view_key;
    public_spend_key = public_spend_key;
    stake = stake;
  })

unfoldable pub stake_hash : Wire → Crypto → StakeRecord → ℕ
stake_hash w c s = c.sha3 (serialize_stake w s)

-- `id`, which leaves the candidate and the amount out.
unfoldable pub staker_id : Wire → Crypto → StakeRecord → ℕ
staker_id w c s =
    c.sha3 (emit (w.key_serialize s.public_view_key ∷ w.key_serialize s.public_spend_key ∷ []))
