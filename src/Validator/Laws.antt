-- ===== src/Validator/Laws.antt =====
-- About the validator (src/core/transaction_validator.cpp): the proof of work and the fee, the key
-- images, the ring and its signatures.
use turtlecoin_v.Base.{
  ℕ, ◌≡◌, ◌≢◌, ◌≤◌, ◌↔◌, refl, true, false, not, Option, none, some, List, [], ◌∷◌, map, All, arith,
}
use turtlecoin_v.Errors.{Error, success, fail, Outcome, ok, err, thrown, reject_if}
use turtlecoin_v.Errors.ErrorCode.{tx_invalid_range_proof, tx_key_image_already_exists}
use turtlecoin_v.Serial.{Wire}
use turtlecoin_v.Crypto.{Crypto}
use turtlecoin_v.Fees.{Floats, calculate_transaction_fee}
use turtlecoin_v.Chain.Parts.{TransactionOutput}
use turtlecoin_v.Chain.Stake.Uncommitted.{UncommittedStakeTransaction, check_construction}
use turtlecoin_v.Chain.Stake.Laws.{uncommitted_rejected}
use turtlecoin_v.Database.{Lmdb}
use turtlecoin_v.Storage.{key_image_exists, any_key_image_exists, get_transaction_outputs}
use turtlecoin_v.Validator.{
  UncommittedTransaction, uncommitted_body, uncommitted_suffix, ◌>>◌, check_pow_zeros,
  check_pow_and_fee, check_uncommitted, check_uncommitted_construction, check_unlocked,
  check_signatures, uncommitted_digest, validate_ring, validate_uncommitted,
}

-- A success of two checks in a row is a success of both.
pub >>-success :
    (first rest : Option Error)
    → (first >> rest) ≡ some success
    → (first ≡ some success) × (rest ≡ some success)
>>-success none rest h = cc
>>-success (some success) rest h = (cc, h)
>>-success (some (fail e)) rest h = cc

module _ {F : Type 0} (fl : Floats F) where
  -- If the fee calculation gives an amount, the proof of work and the fee pass exactly when the
  -- hash has a leading zero and the fee is at least that amount.
  pub check_pow_and_fee-success_iff :
      (pow_zeros fee size required : ℕ)
      → calculate_transaction_fee fl size pow_zeros ≡ some required
      → (check_pow_and_fee fl pow_zeros fee size ≡ some success)
        ↔ ((1 ≤ pow_zeros) × (required ≤ fee))
  unfolding check_pow_and_fee check_pow_zeros
  check_pow_and_fee-success_iff pow_zeros fee size required e = ground (arith, e)

  module _ (w : Wire) (c : Crypto) where
    -- Each signature verifies against the key image of its position.
    abbrev pub IsSigned : ℕ → List ℕ → List ℕ → List ℕ → List ℕ → Type 0
    IsSigned digest keys commitments [] images = Unit
    IsSigned digest keys commitments (g ∷ gs) [] = ⊥
    IsSigned digest keys commitments (g ∷ gs) (k ∷ ks) =
        (c.check_ring_signature digest k keys g commitments ≡ true)
        × IsSigned digest keys commitments gs ks

    check_unlocked-success :
        (block_index : ℕ) (inputs : List (TransactionOutput × ℕ))
        → check_unlocked fl w c block_index inputs ≡ success
        → All (λ o. block_index ≤ o.1) inputs
    unfolding check_unlocked
    check_unlocked-success block_index [] h = tt
    check_unlocked-success block_index (o ∷ os) h =
        (ground arith, check_unlocked-success block_index os (ground arith))

    check_signatures-success :
        (digest : ℕ) (keys commitments signatures images : List ℕ)
        → check_signatures fl w c digest keys commitments signatures images ≡ some success
        → IsSigned digest keys commitments signatures images
    unfolding check_signatures
    check_signatures-success digest keys commitments [] images h = tt
    check_signatures-success digest keys commitments (g ∷ gs) [] h = cc
    check_signatures-success digest keys commitments (g ∷ gs) (k ∷ ks) h =
        (ground arith, check_signatures-success digest keys commitments gs ks (ground arith))

    -- An uncommitted stake transaction never passes the validator's check.
    pub check_uncommitted-stake_rejected :
        (tx : UncommittedStakeTransaction)
        → check_uncommitted fl w c (UncommittedTransaction.stake tx) ≢ some success
    unfolding check_uncommitted check_uncommitted_construction
    check_uncommitted-stake_rejected tx h =
        uncommitted_rejected c tx (ground (arith, >>-success (some (check_construction c tx)) _ h))

    module _ {Txn Env : Type 0} (db : Lmdb Txn Env) where
      any_key_image_exists-false :
          (images : List ℕ) (env : Env)
          → any_key_image_exists w c db images env ≡ false
          → All (λ k. key_image_exists w c db k env ≡ false) images
      unfolding any_key_image_exists
      any_key_image_exists-false [] env h = tt
      any_key_image_exists-false (k ∷ ks) env h =
          (ground arith, any_key_image_exists-false ks env (ground arith))

      -- The ring of an uncommitted transaction: its participants are stored, each with an unlock
      -- block that is not below the index given, and every signature verifies over them.
      pub record IsRing (block_index : ℕ) (tx : UncommittedTransaction) (env : Env) : Type 0 where
        pub inputs : List (TransactionOutput × ℕ)
        pub fetched :
            get_transaction_outputs w c db (uncommitted_suffix tx).ring_participants env ≡ ok inputs
        pub unlocked : All (λ o. block_index ≤ o.1) inputs
        pub signed :
            IsSigned
              (uncommitted_digest fl w c tx)
              (map (λ o. o.0.public_ephemeral) inputs)
              (map (λ o. o.0.commitment) inputs)
              (uncommitted_suffix tx).signatures
              (uncommitted_body tx).key_images

      fetched-IsRing :
          (block_index : ℕ) (tx : UncommittedTransaction) (env : Env)
          (found : Outcome (List (TransactionOutput × ℕ)))
          → get_transaction_outputs w c db (uncommitted_suffix tx).ring_participants env ≡ found
          → (elim found [
            | thrown ↦ none
            | err e ↦ some (fail e)
            | ok inputs ↦
                some (check_unlocked fl w c block_index inputs)
                >> check_signatures fl w c
                    (uncommitted_digest fl w c tx)
                    (map (λ o. o.0.public_ephemeral) inputs)
                    (map (λ o. o.0.commitment) inputs)
                    (uncommitted_suffix tx).signatures
                    (uncommitted_body tx).key_images
          ])
            ≡ some success
          → IsRing block_index tx env
      fetched-IsRing block_index tx env (ok inputs) e h =
          let (u, s) = >>-success (some (check_unlocked fl w c block_index inputs)) _ h in
          record {
            inputs = inputs;
            fetched = e;
            unlocked = check_unlocked-success block_index inputs (ground (arith, u));
            signed = check_signatures-success _ _ _ _ _ s;
          }
      fetched-IsRing block_index tx env (err x) e h = cc
      fetched-IsRing block_index tx env thrown e h = cc

      validate_ring-success :
          (block_index : ℕ) (tx : UncommittedTransaction) (env : Env)
          → validate_ring fl w c db block_index tx env ≡ some success
          → IsRing block_index tx env
      unfolding validate_ring
      validate_ring-success block_index tx env h = fetched-IsRing block_index tx env _ refl h

      -- What an accepted uncommitted transaction satisfies.
      pub record IsAccepted (block_index : ℕ) (tx : UncommittedTransaction) (env : Env)
          : Type 0 where
        pub checked : check_uncommitted fl w c tx ≡ some success
        pub in_range :
            c.range_proof_verify
              (uncommitted_suffix tx).range_proof
              (map (λ o. o.commitment) (uncommitted_body tx).outputs)
            ≡ true
        pub unspent :
            All (λ k. key_image_exists w c db k env ≡ false) (uncommitted_body tx).key_images
        pub ring : IsRing block_index tx env

      -- If validate accepts an uncommitted transaction, it passes the check, its range proof
      -- verifies, no key image is stored, its ring members are stored with unlock blocks not below
      -- the index, and every signature verifies against its key image.
      pub validate_uncommitted-IsAccepted :
          (block_index : ℕ) (tx : UncommittedTransaction) (env : Env)
          → validate_uncommitted fl w c db block_index tx env ≡ some success
          → IsAccepted block_index tx env
      unfolding validate_uncommitted
      validate_uncommitted-IsAccepted block_index tx env h =
          let (checked, h1) = >>-success (check_uncommitted fl w c tx) _ h in
          let (proof, h2) =
            >>-success
              (some (
                reject_if
                  (not (
                    c.range_proof_verify (uncommitted_suffix tx).range_proof
                      (map (λ o. o.commitment) (uncommitted_body tx).outputs)))
                  tx_invalid_range_proof))
              _ h1 in
          let (images, h3) =
            >>-success
              (some (
                reject_if (any_key_image_exists w c db (uncommitted_body tx).key_images env)
                  tx_key_image_already_exists))
              _ h2 in
          record {
            checked = checked;
            in_range = ground (arith, proof);
            unspent = any_key_image_exists-false _ env (ground (arith, images));
            ring = validate_ring-success block_index tx env h3;
          }
