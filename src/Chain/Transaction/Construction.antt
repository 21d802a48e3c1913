-- ===== src/Chain/Transaction/Construction.antt =====
-- About check_construction on the variant of all transactions (include/types.h, include/blockchain).
use turtlecoin_v.Base.{◌≡◌, ◌↔◌}
use turtlecoin_v.Errors.{success}
use turtlecoin_v.Crypto.{Crypto}
use turtlecoin_v.Chain.UserChecks.Laws.{DedupeLaw}
use turtlecoin_v.Chain.Genesis.Laws as GenesisLaws
use turtlecoin_v.Chain.Staker.Laws as StakerLaws
use turtlecoin_v.Chain.Normal.Laws as NormalLaws
use turtlecoin_v.Chain.Stake.Laws as StakeLaws
use turtlecoin_v.Chain.RecallStake.Laws as RecallStakeLaws
use turtlecoin_v.Chain.StakeRefund.Laws as StakeRefundLaws
use turtlecoin_v.Chain.Transaction.{
  Transaction, genesis, staker, normal, stake, recall_stake, stake_refund, check_construction,
}

-- The conditions on a transaction of each kind.
abbrev pub IsConstructed : Crypto → Transaction → Type 0
IsConstructed c (genesis tx) = GenesisLaws.IsConstructed c tx
IsConstructed c (staker tx) = StakerLaws.IsConstructed c tx
IsConstructed c (normal tx) = NormalLaws.IsConstructed c tx
IsConstructed c (stake tx) = StakeLaws.IsConstructed c tx
IsConstructed c (recall_stake tx) = RecallStakeLaws.IsConstructed c tx
IsConstructed c (stake_refund tx) = StakeRefundLaws.IsConstructed c tx

-- If removing duplicates keeps the length of only the lists without any: a transaction of any of
-- the six kinds passes check_construction exactly when it satisfies IsConstructed, the conditions
-- listed for its kind.
pub construction-success_iff :
    (c : Crypto)
    → DedupeLaw c
    → (tx : Transaction) → (check_construction c tx ≡ success) ↔ IsConstructed c tx
unfolding check_construction
construction-success_iff c dedupe (genesis tx) = GenesisLaws.genesis_construction-success_iff c tx
construction-success_iff c dedupe (staker tx) = StakerLaws.staker_construction-success_iff c tx
construction-success_iff c dedupe (normal tx) =
    NormalLaws.normal_construction-success_iff c dedupe tx
construction-success_iff c dedupe (stake tx) = StakeLaws.stake_construction-success_iff c dedupe tx
construction-success_iff c dedupe (recall_stake tx) =
    RecallStakeLaws.recall_stake_construction-success_iff c dedupe tx
construction-success_iff c dedupe (stake_refund tx) =
    StakeRefundLaws.stake_refund_construction-success_iff c tx
