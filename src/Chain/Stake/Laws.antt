-- ===== src/Chain/Stake/Laws.antt =====
-- A stake transaction: round trips, what check_construction accepts, and the committed form.
use turtlecoin_v.Base.{ℕ, true, ◌≡◌, ◌≢◌, ◌↔◌, ◌<◌, ◌⊎◌, false, arith}
use turtlecoin_v.Errors.{success, fail}
use turtlecoin_v.Errors.ErrorCode.{tx_staking_public_keys_reuse}
use turtlecoin_v.Serial.{Wire}
use turtlecoin_v.Serial.Laws.{Reads, WireLaws, Reads->>=, Reads-return}
use turtlecoin_v.Crypto.{Crypto}
use turtlecoin_v.Chain.TransactionType
use turtlecoin_v.Chain.Parts.RoundTrip.{
  IsPrefix, IsBody, IsStakeData, IsSuffix, IsUncommittedSuffix, prefix_back, body_back,
  stake_data_back, suffix_back, uncommitted_suffix_back,
}
use turtlecoin_v.Chain.Mining.Laws.{mine_nonce-found}
use turtlecoin_v.Chain.UserChecks.Laws.{DedupeLaw, IsGoodBody, check_user_body-success_iff}
use turtlecoin_v.Chain.Stake.{
  CommittedStakeTransaction, serialize, deserialize, check_construction, serialize_digest, digest,
  hash, pow_hash,
}
use turtlecoin_v.Chain.Stake.Uncommitted
use turtlecoin_v.Chain.Stake.Uncommitted.{UncommittedStakeTransaction}

-- Every field is in the range of its type.
abbrev pub IsTransaction : CommittedStakeTransaction → Type 0
IsTransaction tx = IsPrefix tx.prefix × IsBody tx.body × IsStakeData tx.tx_data × IsSuffix tx.suffix

abbrev pub IsUncommitted : UncommittedStakeTransaction → Type 0
IsUncommitted tx =
    IsPrefix tx.prefix × IsBody tx.body × IsStakeData tx.tx_data × IsUncommittedSuffix tx.suffix

module _ (w : Wire) (laws : WireLaws w) where
  pub deserialize-serialize :
      (tx : CommittedStakeTransaction)
      → IsTransaction tx
      → Reads (deserialize w) (serialize w tx) tx
  unfolding serialize deserialize
  deserialize-serialize tx p = Reads->>= _ (prefix_back w laws _ p.0) (
      Reads->>= _ (body_back w laws _ p.1) (
        Reads->>= _ (stake_data_back w laws _ p.2)
          (Reads->>= _ (suffix_back w laws _ p.3) (Reads-return _))))

  -- An uncommitted stake transaction is read back from its bytes.
  pub stake_uncommitted_round_trip :
      (tx : UncommittedStakeTransaction)
      → IsUncommitted tx
      → Reads (Uncommitted.deserialize w) (Uncommitted.serialize w tx) tx
  unfolding Uncommitted.serialize Uncommitted.deserialize
  stake_uncommitted_round_trip tx p = Reads->>= _ (prefix_back w laws _ p.0) (
      Reads->>= _ (body_back w laws _ p.1) (
        Reads->>= _ (stake_data_back w laws _ p.2)
          (Reads->>= _ (uncommitted_suffix_back w laws _ p.3) (Reads-return _))))

pub record IsConstructed (c : Crypto) (tx : CommittedStakeTransaction) : Type 0 where
  pub version : (tx.prefix.header.version ≡ 1) ⊎ (tx.prefix.header.version ≡ 2)
  pub public_key : c.key_empty tx.prefix.public_key ≡ false
  pub good_body : IsGoodBody c tx.body
  pub stake_given : 0 < tx.tx_data.stake_amount
  pub candidate_given : c.key_empty tx.tx_data.candidate_public_key ≡ false
  pub view_key_given : c.key_empty tx.tx_data.staker_public_view_key ≡ false
  pub spend_key_given : c.key_empty tx.tx_data.staker_public_spend_key ≡ false

-- If removing duplicates keeps the length of only the lists without any: a stake transaction
-- passes check_construction exactly when it satisfies IsConstructed.
pub stake_construction-success_iff :
    (c : Crypto)
    → DedupeLaw c
    → (tx : CommittedStakeTransaction) → (check_construction c tx ≡ success) ↔ IsConstructed c tx
unfolding check_construction
stake_construction-success_iff c dedupe tx =
    ground (arith, check_user_body-success_iff c dedupe tx.body)

-- No uncommitted stake transaction passes check_construction: the test for the reuse of keys
-- compares the view key with itself.
pub uncommitted_rejected :
    (c : Crypto) (tx : UncommittedStakeTransaction) → Uncommitted.check_construction c tx ≢ success
unfolding Uncommitted.check_construction
uncommitted_rejected c tx = ground arith

-- If removing duplicates keeps the length of only the lists without any: an uncommitted stake
-- transaction whose committed form satisfies IsConstructed is rejected for the reuse of its keys.
pub uncommitted_rejected_reuse :
    (w : Wire) (c : Crypto)
    → DedupeLaw c
    → (tx : UncommittedStakeTransaction) → IsConstructed c (Uncommitted.to_committed w c tx)
    → Uncommitted.check_construction c tx ≡ fail tx_staking_public_keys_reuse
unfolding Uncommitted.check_construction Uncommitted.to_committed
uncommitted_rejected_reuse w c dedupe tx h =
    ground (arith, check_user_body-success_iff c dedupe tx.body)

-- Turning a transaction of the right type into its committed form keeps its prefix.
committed_prefix :
    (w : Wire) (c : Crypto) (tx : UncommittedStakeTransaction)
    → tx.prefix.header.l_type ≡ TransactionType.stake
    → (Uncommitted.to_committed w c tx).prefix ≡ tx.prefix
unfolding Uncommitted.to_committed
committed_prefix w c tx e = ground arith

committed_digest :
    (w : Wire) (c : Crypto) (tx : UncommittedStakeTransaction)
    → tx.prefix.header.l_type ≡ TransactionType.stake
    → serialize_digest w (Uncommitted.to_committed w c tx) ≡ Uncommitted.serialize_digest w tx
unfolding serialize_digest Uncommitted.serialize_digest Uncommitted.to_committed
committed_digest w c tx e = cc (committed_prefix w c tx e)

-- Committing an uncommitted transaction with the type of a stake one changes neither its hash nor
-- the hash of its proof of work.
pub stake_hash-to_committed :
    (w : Wire) (c : Crypto) (tx : UncommittedStakeTransaction)
    → tx.prefix.header.l_type ≡ TransactionType.stake
    → (hash w c (Uncommitted.to_committed w c tx) ≡ Uncommitted.hash w c tx)
      × (pow_hash w c (Uncommitted.to_committed w c tx) ≡ Uncommitted.pow_hash w c tx)
unfolding hash digest pow_hash Uncommitted.hash Uncommitted.digest Uncommitted.pow_hash
    Uncommitted.to_committed
stake_hash-to_committed w c tx e = (cc (committed_digest w c tx e), cc (committed_digest w c tx e))

-- If mine says that it found a nonce for an uncommitted stake transaction, the transaction that it
-- leaves passes pow_verify.
pub stake_mine-pow_verify :
    (w : Wire) (c : Crypto) (tx : UncommittedStakeTransaction) (wanted : ℕ)
    → (Uncommitted.mine w c tx wanted).1 ≡ true
    → Uncommitted.pow_verify w c (Uncommitted.mine w c tx wanted).0 wanted ≡ true
unfolding Uncommitted.mine Uncommitted.pow_verify Uncommitted.zeros_at
stake_mine-pow_verify w c tx wanted h =
    ground (arith, mine_nonce-found (Uncommitted.zeros_at w c tx) wanted tx.body.nonce h)
