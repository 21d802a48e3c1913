-- ===== src/Chain/Transaction.antt =====
-- `transaction_t`, the variant of all transactions that blocks hold (include/types.h).
pub mod Laws
pub mod Construction
use turtlecoin_v.Base.{ℕ, Bool, ◌==◌, if◌then◌else◌}
use turtlecoin_v.Errors.{Error, ErrorCode, Outcome, ok, err}
use turtlecoin_v.Errors.ErrorCode.{unknown_transaction_type}
use turtlecoin_v.Serial.{Bytes, Reader, ◌>>=◌, return, peek, Wire}
use turtlecoin_v.Crypto.{Crypto}
use turtlecoin_v.Chain.TransactionType
use turtlecoin_v.Chain.Genesis
use turtlecoin_v.Chain.Genesis.{GenesisTransaction}
use turtlecoin_v.Chain.Staker
use turtlecoin_v.Chain.Staker.{StakerTransaction}
use turtlecoin_v.Chain.Normal
use turtlecoin_v.Chain.Normal.{CommittedNormalTransaction}
use turtlecoin_v.Chain.Stake
use turtlecoin_v.Chain.Stake.{CommittedStakeTransaction}
use turtlecoin_v.Chain.RecallStake
use turtlecoin_v.Chain.RecallStake.{CommittedRecallStakeTransaction}
use turtlecoin_v.Chain.StakeRefund
use turtlecoin_v.Chain.StakeRefund.{StakeRefundTransaction}

pub data Transaction : Type 0 where
  genesis : GenesisTransaction → Transaction
  staker : StakerTransaction → Transaction
  normal : CommittedNormalTransaction → Transaction
  recall_stake : CommittedRecallStakeTransaction → Transaction
  stake : CommittedStakeTransaction → Transaction
  stake_refund : StakeRefundTransaction → Transaction

-- `std::visit` of the methods that every alternative has.
unfoldable pub serialize : Wire → Transaction → Bytes
serialize w (genesis tx) = Genesis.serialize w tx
serialize w (staker tx) = Staker.serialize w tx
serialize w (normal tx) = Normal.serialize w tx
serialize w (recall_stake tx) = RecallStake.serialize w tx
serialize w (stake tx) = Stake.serialize w tx
serialize w (stake_refund tx) = StakeRefund.serialize w tx

unfoldable pub hash : Wire → Crypto → Transaction → ℕ
hash w c (genesis tx) = Genesis.hash w c tx
hash w c (staker tx) = Staker.hash w c tx
hash w c (normal tx) = Normal.hash w c tx
hash w c (recall_stake tx) = RecallStake.hash w c tx
hash w c (stake tx) = Stake.hash w c tx
hash w c (stake_refund tx) = StakeRefund.hash w c tx

unfoldable pub check_construction : Crypto → Transaction → Error
check_construction c (genesis tx) = Genesis.check_construction c tx
check_construction c (staker tx) = Staker.check_construction c tx
check_construction c (normal tx) = Normal.check_construction c tx
check_construction c (recall_stake tx) = RecallStake.check_construction c tx
check_construction c (stake tx) = Stake.check_construction c tx
check_construction c (stake_refund tx) = StakeRefund.check_construction c tx

wrap : {A : Type 0} → Reader A → (A → Transaction) → Reader (Outcome Transaction)
wrap r f = do tx ← r; return (ok (f tx))

-- `switch (type)` of `BlockchainStorage::get_transaction`, on the type that was peeked.
unfoldable pub deserialize_as : Wire → ℕ → Reader (Outcome Transaction)
unfolding wrap
deserialize_as w type =
    if type == TransactionType.genesis
    then wrap (Genesis.deserialize w) genesis
    else if type == TransactionType.staker
    then wrap (Staker.deserialize w) staker
    else if type == TransactionType.normal
    then wrap (Normal.deserialize w) normal
    else if type == TransactionType.stake
    then wrap (Stake.deserialize w) stake
    else if type == TransactionType.recall_stake
    then wrap (RecallStake.deserialize w) recall_stake
    else if type == TransactionType.stake_refund
    then wrap (StakeRefund.deserialize w) stake_refund
    else return (err unknown_transaction_type)

unfoldable pub deserialize : Wire → Reader (Outcome Transaction)
deserialize w = do type ← peek (w.read_varint 64); deserialize_as w type
