-- ===== src/Validator/Uncommitted.antt =====
-- About the variant of uncommitted transactions (include/types.h): what check_construction asks of
-- each kind, their hashes once committed, and the nonces that mining finds.
use turtlecoin_v.Base.{ℕ, ◌≡◌, ◌↔◌, true}
use turtlecoin_v.Errors.{success}
use turtlecoin_v.Serial.{Wire}
use turtlecoin_v.Crypto.{Crypto}
use turtlecoin_v.Chain.TransactionType
use turtlecoin_v.Chain.UserChecks.Laws.{DedupeLaw}
use turtlecoin_v.Chain.Normal
use turtlecoin_v.Chain.Normal.Uncommitted as UncommittedNormal
use turtlecoin_v.Chain.Normal.Laws as NormalLaws
use turtlecoin_v.Chain.Stake
use turtlecoin_v.Chain.Stake.Uncommitted as UncommittedStake
use turtlecoin_v.Chain.Stake.Laws as StakeLaws
use turtlecoin_v.Chain.RecallStake
use turtlecoin_v.Chain.RecallStake.Uncommitted as UncommittedRecall
use turtlecoin_v.Chain.RecallStake.Laws as RecallStakeLaws
use turtlecoin_v.Validator.{
  UncommittedTransaction, normal, stake, recall_stake, check_uncommitted_construction,
}

-- The conditions on each kind; a stake transaction has none that would do.
abbrev pub IsConstructed : Crypto → UncommittedTransaction → Type 0
IsConstructed c (normal tx) = NormalLaws.IsUncommittedConstructed c tx
IsConstructed c (stake tx) = ⊥
IsConstructed c (recall_stake tx) = RecallStakeLaws.IsUncommittedConstructed c tx

-- If removing duplicates keeps the length of only the lists without any: an uncommitted normal or
-- recall-stake transaction passes check_construction exactly when it satisfies the conditions of a
-- committed one and those on its commitments, proofs and signatures, and an uncommitted stake
-- transaction never passes.
pub uncommitted_construction-success_iff :
    (c : Crypto)
    → DedupeLaw c
    → (tx : UncommittedTransaction)
    → (check_uncommitted_construction c tx ≡ success) ↔ IsConstructed c tx
unfolding check_uncommitted_construction
uncommitted_construction-success_iff c dedupe (normal tx) =
    NormalLaws.normal_uncommitted-success_iff c dedupe tx
uncommitted_construction-success_iff c dedupe (stake tx) =
    (StakeLaws.uncommitted_rejected c tx, (λ h. absurd h))
uncommitted_construction-success_iff c dedupe (recall_stake tx) =
    RecallStakeLaws.recall_stake_uncommitted-success_iff c dedupe tx

-- The type field is that of the alternative.
abbrev pub IsTyped : UncommittedTransaction → Type 0
IsTyped (normal tx) = tx.prefix.header.l_type ≡ TransactionType.normal
IsTyped (stake tx) = tx.prefix.header.l_type ≡ TransactionType.stake
IsTyped (recall_stake tx) = tx.prefix.header.l_type ≡ TransactionType.recall_stake

-- The committed form has the same hash and the same proof of work.
abbrev pub HasHashKept : Wire → Crypto → UncommittedTransaction → Type 0
HasHashKept w c (normal tx) =
    (Normal.hash w c (UncommittedNormal.to_committed w c tx) ≡ UncommittedNormal.hash w c tx)
    × (Normal.pow_hash w c (UncommittedNormal.to_committed w c tx)
        ≡ UncommittedNormal.pow_hash w c tx)
HasHashKept w c (stake tx) =
    (Stake.hash w c (UncommittedStake.to_committed w c tx) ≡ UncommittedStake.hash w c tx)
    × (Stake.pow_hash w c (UncommittedStake.to_committed w c tx) ≡ UncommittedStake.pow_hash w c tx)
HasHashKept w c (recall_stake tx) =
    (RecallStake.hash w c (UncommittedRecall.to_committed w c tx) ≡ UncommittedRecall.hash w c tx)
    × (RecallStake.pow_hash w c (UncommittedRecall.to_committed w c tx)
        ≡ UncommittedRecall.pow_hash w c tx)

-- Committing an uncommitted transaction of any of the three kinds, with the type of its kind,
-- changes neither its hash nor the hash of its proof of work.
pub hash-to_committed :
    (w : Wire) (c : Crypto) (tx : UncommittedTransaction) → IsTyped tx → HasHashKept w c tx
hash-to_committed w c (normal tx) e = NormalLaws.normal_hash-to_committed w c tx e
hash-to_committed w c (stake tx) e = StakeLaws.stake_hash-to_committed w c tx e
hash-to_committed w c (recall_stake tx) e = RecallStakeLaws.recall_stake_hash-to_committed w c tx e

-- `mine` says that it found a nonce.
abbrev pub IsMined : Wire → Crypto → ℕ → UncommittedTransaction → Type 0
IsMined w c wanted (normal tx) = (UncommittedNormal.mine w c tx wanted).1 ≡ true
IsMined w c wanted (stake tx) = (UncommittedStake.mine w c tx wanted).1 ≡ true
IsMined w c wanted (recall_stake tx) = (UncommittedRecall.mine w c tx wanted).1 ≡ true

-- The transaction that `mine` leaves passes `pow_verify`.
abbrev pub IsVerified : Wire → Crypto → ℕ → UncommittedTransaction → Type 0
IsVerified w c wanted (normal tx) =
    UncommittedNormal.pow_verify w c (UncommittedNormal.mine w c tx wanted).0 wanted ≡ true
IsVerified w c wanted (stake tx) =
    UncommittedStake.pow_verify w c (UncommittedStake.mine w c tx wanted).0 wanted ≡ true
IsVerified w c wanted (recall_stake tx) =
    UncommittedRecall.pow_verify w c (UncommittedRecall.mine w c tx wanted).0 wanted ≡ true

-- If mine says that it found a nonce for an uncommitted transaction of any of the three kinds, the
-- transaction that it leaves passes pow_verify.
pub mine-pow_verify :
    (w : Wire) (c : Crypto) (tx : UncommittedTransaction) (wanted : ℕ)
    → IsMined w c wanted tx
    → IsVerified w c wanted tx
mine-pow_verify w c (normal tx) wanted h = NormalLaws.normal_mine-pow_verify w c tx wanted h
mine-pow_verify w c (stake tx) wanted h = StakeLaws.stake_mine-pow_verify w c tx wanted h
mine-pow_verify w c (recall_stake tx) wanted h =
    RecallStakeLaws.recall_stake_mine-pow_verify w c tx wanted h
