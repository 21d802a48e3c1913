-- ===== src/Chain/Transaction/Laws.antt =====
-- About the bytes of the variant of all transactions (include/types.h) and the choice by type.
use turtlecoin_v.Base.{ℕ, ◌≡◌}
use turtlecoin_v.Errors.{ok}
use turtlecoin_v.Serial.{Bytes, Reader, Wire}
use turtlecoin_v.Serial.Laws.{
  Reads, WireLaws, Reads->>=, Reads-return, Peeks, Peeks-Reads, Peeks-append, Reads-peek,
  Reads-whole,
}
use turtlecoin_v.Chain.TransactionType
use turtlecoin_v.Chain.Parts.{
  TransactionHeader, serialize_header, TransactionPrefix, serialize_prefix,
}
use turtlecoin_v.Chain.Parts.RoundTrip.{IsHeader, IsPrefix}
use turtlecoin_v.Chain.Genesis
use turtlecoin_v.Chain.Genesis.{GenesisTransaction}
use turtlecoin_v.Chain.Genesis.Laws as GenesisLaws
use turtlecoin_v.Chain.Staker
use turtlecoin_v.Chain.Staker.{StakerTransaction}
use turtlecoin_v.Chain.Staker.Laws as StakerLaws
use turtlecoin_v.Chain.Normal
use turtlecoin_v.Chain.Normal.{CommittedNormalTransaction}
use turtlecoin_v.Chain.Normal.Laws as NormalLaws
use turtlecoin_v.Chain.Stake
use turtlecoin_v.Chain.Stake.{CommittedStakeTransaction}
use turtlecoin_v.Chain.Stake.Laws as StakeLaws
use turtlecoin_v.Chain.RecallStake
use turtlecoin_v.Chain.RecallStake.{CommittedRecallStakeTransaction}
use turtlecoin_v.Chain.RecallStake.Laws as RecallStakeLaws
use turtlecoin_v.Chain.StakeRefund
use turtlecoin_v.Chain.StakeRefund.{StakeRefundTransaction}
use turtlecoin_v.Chain.StakeRefund.Laws as StakeRefundLaws
use turtlecoin_v.Chain.Transaction.{
  Transaction, genesis, staker, normal, stake, recall_stake, stake_refund, serialize, deserialize,
  deserialize_as, wrap,
}

-- The fields are in the range of their types, and the type field is that of the alternative.
abbrev pub IsTransaction : Transaction → Type 0
IsTransaction (genesis tx) =
    GenesisLaws.IsTransaction tx × (tx.prefix.header.l_type ≡ TransactionType.genesis)
IsTransaction (staker tx) =
    StakerLaws.IsTransaction tx × (tx.header.l_type ≡ TransactionType.staker)
IsTransaction (normal tx) =
    NormalLaws.IsTransaction tx × (tx.prefix.header.l_type ≡ TransactionType.normal)
IsTransaction (stake tx) =
    StakeLaws.IsTransaction tx × (tx.prefix.header.l_type ≡ TransactionType.stake)
IsTransaction (recall_stake tx) =
    RecallStakeLaws.IsTransaction tx × (tx.prefix.header.l_type ≡ TransactionType.recall_stake)
IsTransaction (stake_refund tx) =
    StakeRefundLaws.IsTransaction tx × (tx.prefix.header.l_type ≡ TransactionType.stake_refund)

-- The type of a transaction.
abbrev type_of : Transaction → ℕ
type_of (genesis tx) = tx.prefix.header.l_type
type_of (staker tx) = tx.header.l_type
type_of (normal tx) = tx.prefix.header.l_type
type_of (stake tx) = tx.prefix.header.l_type
type_of (recall_stake tx) = tx.prefix.header.l_type
type_of (stake_refund tx) = tx.prefix.header.l_type

Reads-wrap :
    {A : Type 0} (r : Reader A) (f : A → Transaction) {bs : Bytes} {a : A}
    → Reads r bs a
    → Reads (wrap r f) bs (ok (f a))
unfolding wrap
Reads-wrap r f h = Reads-whole (Reads->>= _ h (Reads-return _))

module _ (w : Wire) (laws : WireLaws w) where
  pub header_front :
      (h : TransactionHeader)
      → IsHeader h
      → Peeks (w.read_varint 64) (serialize_header w h) h.l_type
  unfolding serialize_header
  header_front h p = Peeks-append _ (Peeks-Reads (laws.varint_back 64 _ p.0))

  pub prefix_front :
      (x : TransactionPrefix)
      → IsPrefix x
      → Peeks (w.read_varint 64) (serialize_prefix w x) x.header.l_type
  unfolding serialize_prefix
  prefix_front x p = Peeks-append _ (header_front x.header p.0)

  type_front :
      (tx : Transaction) → IsTransaction tx → Peeks (w.read_varint 64) (serialize w tx) (type_of tx)
  unfolding serialize Genesis.serialize Staker.serialize Normal.serialize Stake.serialize
      RecallStake.serialize StakeRefund.serialize
  type_front (genesis tx) p = Peeks-append _ (prefix_front tx.prefix p.0.0)
  type_front (staker tx) p = Peeks-append _ (header_front tx.header p.0.0)
  type_front (normal tx) p = Peeks-append _ (prefix_front tx.prefix p.0.0)
  type_front (stake tx) p = Peeks-append _ (prefix_front tx.prefix p.0.0)
  type_front (recall_stake tx) p = Peeks-append _ (prefix_front tx.prefix p.0.0)
  type_front (stake_refund tx) p = Peeks-append _ (prefix_front tx.prefix p.0.0)

  chosen :
      (tx : Transaction)
      → IsTransaction tx
      → Reads (deserialize_as w (type_of tx)) (serialize w tx) (ok tx)
  unfolding serialize deserialize_as
  chosen (genesis tx) p =
      simp p.1 (
        Reads-wrap (Genesis.deserialize w) genesis
          (GenesisLaws.deserialize-serialize w laws tx p.0))
  chosen (staker tx) p =
      simp p.1
        (Reads-wrap (Staker.deserialize w) staker (StakerLaws.deserialize-serialize w laws tx p.0))
  chosen (normal tx) p =
      simp p.1
        (Reads-wrap (Normal.deserialize w) normal (NormalLaws.deserialize-serialize w laws tx p.0))
  chosen (stake tx) p =
      simp p.1
        (Reads-wrap (Stake.deserialize w) stake (StakeLaws.deserialize-serialize w laws tx p.0))
  chosen (recall_stake tx) p = simp p.1 (
      Reads-wrap (RecallStake.deserialize w) recall_stake
        (RecallStakeLaws.deserialize-serialize w laws tx p.0))
  chosen (stake_refund tx) p = simp p.1 (
      Reads-wrap (StakeRefund.deserialize w) stake_refund
        (StakeRefundLaws.deserialize-serialize w laws tx p.0))

  -- With WireLaws: a transaction of any of the six kinds, with fields in the range of their types
  -- and the type of its kind, is recognised by its type and read back from its bytes.
  pub transaction_round_trip :
      (tx : Transaction) → IsTransaction tx → Reads (deserialize w) (serialize w tx) (ok tx)
  unfolding deserialize
  transaction_round_trip tx p = Reads-peek _ (type_front tx p) (chosen tx p)
