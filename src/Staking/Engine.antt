-- ===== src/Staking/Engine.antt =====
-- `StakingEngine` (src/core/staking_engine.cpp) over the database of module Database.
pub mod Candidacy
use turtlecoin_v.Base.{ℕ, Bool, Option, none, some, ◌==◌, not, ltb, if◌then◌else◌}
use turtlecoin_v.Errors.{Error, success, fail, Outcome, ok, err, thrown}
use turtlecoin_v.Errors.ErrorCode.{
  staking_candidate_already_exists, staking_candidate_amount_invalid, staking_candidate_not_found,
  staking_stake_amount, tx_invalid_version,
}
use turtlecoin_v.Serial.{Wire}
use turtlecoin_v.Chain.Stake.{CommittedStakeTransaction}
use turtlecoin_v.Chain.Staker.{StakerTransaction}
use turtlecoin_v.Chain.RecallStake.{CommittedRecallStakeTransaction}
use turtlecoin_v.Chain.StakeRefund.{StakeRefundTransaction}
use turtlecoin_v.Database.{Lmdb, read, exists}
use turtlecoin_v.Database.Named
use turtlecoin_v.Staking.Records.{
  CandidateNode, new_candidate, serialize_candidate, deserialize_candidate,
}

-- The database "candidates" of the engine's environment.
abbrev pub candidates : ℕ
candidates = 0

abbrev pub required_candidacy_amount : ℕ
required_candidacy_amount = 100000

abbrev pub minimum_stake_amount : ℕ
minimum_stake_amount = 100

module _ (w : Wire) {Txn Env : Type 0} (db : Lmdb Txn Env) where
  unfoldable pub candidate_of : CommittedStakeTransaction → CandidateNode
  candidate_of tx =
      new_candidate tx.tx_data.candidate_public_key tx.tx_data.staker_public_view_key
        tx.tx_data.staker_public_spend_key tx.tx_data.stake_amount

  -- `none` means that the fuel for the put's retries ran out.
  unfoldable pub add_stake : ℕ → CommittedStakeTransaction → Env → Option (Error × Env)
  add_stake fuel tx env =
      let key = w.key_serialize tx.tx_data.candidate_public_key in
      if tx.prefix.header.version == 1
      then if exists db env candidates key
        then some (fail staking_candidate_already_exists, env)
        else if not (tx.tx_data.stake_amount == required_candidacy_amount)
        then some (fail staking_candidate_amount_invalid, env)
        else Named.put db fuel candidates key (serialize_candidate w (candidate_of tx)) env
      else if tx.prefix.header.version == 2
      then if not (exists db env candidates key)
        then some (fail staking_candidate_not_found, env)
        else if ltb tx.tx_data.stake_amount minimum_stake_amount
        then some (fail staking_stake_amount, env)
        else some (success, env)
      else some (fail tx_invalid_version, env)

  -- The two methods that are still to be written in the source.
  unfoldable pub del_stake :
      CommittedRecallStakeTransaction → StakeRefundTransaction → Env → Error × Env
  del_stake recall_tx refund_tx env = (success, env)

  unfoldable pub process_staker_tx : StakerTransaction → Env → Error × Env
  process_staker_tx tx env = (success, env)
