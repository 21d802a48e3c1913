-- ===== src/Chain/Normal/Laws.antt =====
-- A normal transaction: round trips, what check_construction accepts, and the committed form.
use turtlecoin_v.Base.{ℕ, true, ◌≡◌, ◌↔◌, ◌≤◌, false, length, arith}
use turtlecoin_v.Errors.{success}
use turtlecoin_v.Config.{maximum_extra_size}
use turtlecoin_v.Serial.{Wire}
use turtlecoin_v.Serial.Laws.{Reads, WireLaws, Reads->>=, Reads-return}
use turtlecoin_v.Crypto.{Crypto}
use turtlecoin_v.Chain.TransactionType
use turtlecoin_v.Chain.Parts.RoundTrip.{
  IsPrefix, IsBody, IsNormalData, IsSuffix, IsUncommittedSuffix, prefix_back, body_back,
  normal_data_back, suffix_back, uncommitted_suffix_back,
}
use turtlecoin_v.Chain.Mining.Laws.{mine_nonce-found}
use turtlecoin_v.Chain.UserChecks.Laws.{
  DedupeLaw, IsGoodBody, IsGoodSuffix, check_user_body-success_iff, check_user_suffix-success_iff,
}
use turtlecoin_v.Chain.Normal.{
  CommittedNormalTransaction, serialize, deserialize, check_construction, serialize_digest, digest,
  hash, pow_hash,
}
use turtlecoin_v.Chain.Normal.Uncommitted
use turtlecoin_v.Chain.Normal.Uncommitted.{UncommittedNormalTransaction}

-- Every field is in the range of its type.
abbrev pub IsTransaction : CommittedNormalTransaction → Type 0
IsTransaction tx =
    IsPrefix tx.prefix × IsBody tx.body × IsNormalData tx.tx_data × IsSuffix tx.suffix

abbrev pub IsUncommitted : UncommittedNormalTransaction → Type 0
IsUncommitted tx =
    IsPrefix tx.prefix × IsBody tx.body × IsNormalData tx.tx_data × IsUncommittedSuffix tx.suffix

module _ (w : Wire) (laws : WireLaws w) where
  pub deserialize-serialize :
      (tx : CommittedNormalTransaction)
      → IsTransaction tx
      → Reads (deserialize w) (serialize w tx) tx
  unfolding serialize deserialize
  deserialize-serialize tx p = Reads->>= _ (prefix_back w laws _ p.0) (
      Reads->>= _ (body_back w laws _ p.1) (
        Reads->>= _ (normal_data_back w laws _ p.2)
          (Reads->>= _ (suffix_back w laws _ p.3) (Reads-return _))))

  -- With WireLaws: an uncommitted normal transaction with fields in the range of their types is
  -- read back from its bytes.
  pub normal_uncommitted_round_trip :
      (tx : UncommittedNormalTransaction)
      → IsUncommitted tx
      → Reads (Uncommitted.deserialize w) (Uncommitted.serialize w tx) tx
  unfolding Uncommitted.serialize Uncommitted.deserialize
  normal_uncommitted_round_trip tx p = Reads->>= _ (prefix_back w laws _ p.0) (
      Reads->>= _ (body_back w laws _ p.1) (
        Reads->>= _ (normal_data_back w laws _ p.2)
          (Reads->>= _ (uncommitted_suffix_back w laws _ p.3) (Reads-return _))))

pub record IsConstructed (c : Crypto) (tx : CommittedNormalTransaction) : Type 0 where
  pub version : tx.prefix.header.version ≡ 1
  pub public_key : c.key_empty tx.prefix.public_key ≡ false
  pub good_body : IsGoodBody c tx.body
  pub small_extra : length tx.tx_data.extra ≤ maximum_extra_size

-- If removing duplicates keeps the length of only the lists without any: a normal transaction
-- passes check_construction exactly when it satisfies IsConstructed.
pub normal_construction-success_iff :
    (c : Crypto)
    → DedupeLaw c
    → (tx : CommittedNormalTransaction) → (check_construction c tx ≡ success) ↔ IsConstructed c tx
unfolding check_construction
normal_construction-success_iff c dedupe tx =
    ground (arith, check_user_body-success_iff c dedupe tx.body)

pub record IsUncommittedConstructed (c : Crypto) (tx : UncommittedNormalTransaction) : Type 0 where
  pub version : tx.prefix.header.version ≡ 1
  pub public_key : c.key_empty tx.prefix.public_key ≡ false
  pub good_body : IsGoodBody c tx.body
  pub small_extra : length tx.tx_data.extra ≤ maximum_extra_size
  pub good_suffix : IsGoodSuffix c tx.body tx.suffix

-- If removing duplicates keeps the length of only the lists without any: an uncommitted normal
-- transaction passes check_construction exactly when it satisfies IsUncommittedConstructed, the
-- conditions of a committed one and those on its commitments, proofs and signatures.
pub normal_uncommitted-success_iff :
    (c : Crypto)
    → DedupeLaw c
    → (tx : UncommittedNormalTransaction)
    → (Uncommitted.check_construction c tx ≡ success) ↔ IsUncommittedConstructed c tx
unfolding Uncommitted.check_construction
normal_uncommitted-success_iff c dedupe tx = ground (
  arith,
  check_user_body-success_iff c dedupe tx.body,
  check_user_suffix-success_iff c tx.body tx.suffix,
)

-- Turning a transaction of the right type into its committed form keeps its prefix.
committed_prefix :
    (w : Wire) (c : Crypto) (tx : UncommittedNormalTransaction)
    → tx.prefix.header.l_type ≡ TransactionType.normal
    → (Uncommitted.to_committed w c tx).prefix ≡ tx.prefix
unfolding Uncommitted.to_committed
committed_prefix w c tx e = ground arith

committed_digest :
    (w : Wire) (c : Crypto) (tx : UncommittedNormalTransaction)
    → tx.prefix.header.l_type ≡ TransactionType.normal
    → serialize_digest w (Uncommitted.to_committed w c tx) ≡ Uncommitted.serialize_digest w tx
unfolding serialize_digest Uncommitted.serialize_digest Uncommitted.to_committed
committed_digest w c tx e = cc (committed_prefix w c tx e)

-- Committing an uncommitted transaction with the type of a normal one changes neither its hash nor
-- the hash of its proof of work.
pub normal_hash-to_committed :
    (w : Wire) (c : Crypto) (tx : UncommittedNormalTransaction)
    → tx.prefix.header.l_type ≡ TransactionType.normal
    → (hash w c (Uncommitted.to_committed w c tx) ≡ Uncommitted.hash w c tx)
      × (pow_hash w c (Uncommitted.to_committed w c tx) ≡ Uncommitted.pow_hash w c tx)
unfolding hash digest pow_hash Uncommitted.hash Uncommitted.digest Uncommitted.pow_hash
    Uncommitted.to_committed
normal_hash-to_committed w c tx e = (cc (committed_digest w c tx e), cc (committed_digest w c tx e))

-- If mine says that it found a nonce for an uncommitted normal transaction, the transaction that
-- it leaves passes pow_verify.
pub normal_mine-pow_verify :
    (w : Wire) (c : Crypto) (tx : UncommittedNormalTransaction) (wanted : ℕ)
    → (Uncommitted.mine w c tx wanted).1 ≡ true
    → Uncommitted.pow_verify w c (Uncommitted.mine w c tx wanted).0 wanted ≡ true
unfolding Uncommitted.mine Uncommitted.pow_verify Uncommitted.zeros_at
normal_mine-pow_verify w c tx wanted h =
    ground (arith, mine_nonce-found (Uncommitted.zeros_at w c tx) wanted tx.body.nonce h)
