-- ===== src/Tests/Data.antt =====
-- Transactions and blocks for the tests.
use turtlecoin_v.Base.{ℕ, List, [], ◌∷◌}
use turtlecoin_v.Chain.TransactionType
use turtlecoin_v.Chain.Parts.{
  TransactionPrefix, TransactionOutput, StakerOutput, TransactionUserBody,
  UncommittedTransactionSuffix, CommittedTransactionSuffix,
}
use turtlecoin_v.Chain.Normal.{CommittedNormalTransaction}
use turtlecoin_v.Chain.Normal.Uncommitted.{UncommittedNormalTransaction}
use turtlecoin_v.Chain.Stake.{CommittedStakeTransaction}
use turtlecoin_v.Chain.Stake.Uncommitted.{UncommittedStakeTransaction}
use turtlecoin_v.Chain.RecallStake.{CommittedRecallStakeTransaction}
use turtlecoin_v.Chain.RecallStake.Uncommitted.{UncommittedRecallStakeTransaction}
use turtlecoin_v.Chain.Staker.{StakerTransaction}
use turtlecoin_v.Chain.StakeRefund.{StakeRefundTransaction}
use turtlecoin_v.Chain.Block.{Block, Reward}

abbrev output : TransactionOutput
output = record { public_ephemeral = 5; amount = 7; commitment = 9 }

abbrev pub prefix_of : ℕ → TransactionPrefix
prefix_of type = record {
  header = record { l_type = type; version = 1 };
  unlock_block = 4;
  public_key = 12;
}

abbrev body : TransactionUserBody
body = record { nonce = 6; fee = 3; key_images = 21 ∷ 22 ∷ []; outputs = output ∷ output ∷ [] }

abbrev suffix : CommittedTransactionSuffix
suffix = record { signature_hash = 31; range_proof_hash = 32 }

abbrev uncommitted_suffix : UncommittedTransactionSuffix
uncommitted_suffix = record {
  pseudo_commitments = 10 ∷ 11 ∷ [];
  ring_participants = 41 ∷ [];
  signatures = 21 ∷ 22 ∷ [];
  range_proof = 18;
}

abbrev pub normal : CommittedNormalTransaction
normal = record {
  prefix = prefix_of TransactionType.normal;
  body = body;
  tx_data = record { extra = 1 ∷ 2 ∷ [] };
  suffix = suffix;
}

abbrev pub new_normal : UncommittedNormalTransaction
new_normal = record {
  prefix = prefix_of TransactionType.normal;
  body = body;
  tx_data = record { extra = 1 ∷ 2 ∷ [] };
  suffix = uncommitted_suffix;
}

abbrev pub stake : CommittedStakeTransaction
stake = record {
  prefix = prefix_of TransactionType.stake;
  body = body;
  tx_data = record {
    stake_amount = 100;
    candidate_public_key = 51;
    staker_public_view_key = 52;
    staker_public_spend_key = 53;
  };
  suffix = suffix;
}

abbrev pub new_stake : UncommittedStakeTransaction
new_stake = record {
  prefix = prefix_of TransactionType.stake;
  body = body;
  tx_data = record {
    stake_amount = 100;
    candidate_public_key = 51;
    staker_public_view_key = 52;
    staker_public_spend_key = 53;
  };
  suffix = uncommitted_suffix;
}

abbrev pub recall_stake : CommittedRecallStakeTransaction
recall_stake = record {
  prefix = prefix_of TransactionType.recall_stake;
  body = body;
  tx_data = record {
    stake_amount = 100;
    candidate_public_key = 51;
    staker_id = 54;
    view_signature = 55;
    spend_signature = 56;
  };
  suffix = suffix;
}

abbrev pub new_recall_stake : UncommittedRecallStakeTransaction
new_recall_stake = record {
  prefix = prefix_of TransactionType.recall_stake;
  body = body;
  tx_data = record {
    stake_amount = 100;
    candidate_public_key = 51;
    staker_id = 54;
    view_signature = 55;
    spend_signature = 56;
  };
  suffix = uncommitted_suffix;
}

abbrev reward_output : StakerOutput
reward_output = record { staker_id = 61; amount = 8 }

abbrev pub reward : StakerTransaction
reward = record {
  header = record { l_type = TransactionType.staker; version = 1 };
  staker_outputs = reward_output ∷ [];
  staker_penalties = [];
}

abbrev pub refund : StakeRefundTransaction
refund = record {
  prefix = prefix_of TransactionType.stake_refund;
  secret_key = 11;
  recall_stake_tx = 71;
  outputs = output ∷ [];
}

-- A block before it is signed.
abbrev pub unsigned : List ℕ → Block
unsigned hashes = record {
  version = 1;
  previous_blockhash = 81;
  timestamp = 82;
  block_index = 3;
  reward_tx = Reward.staker reward;
  transactions = hashes;
  producer_public_key = 0;
  producer_signature = 0;
  validator_signatures = [];
}
