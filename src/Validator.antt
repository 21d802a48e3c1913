-- ===== src/Validator.antt =====
-- `TransactionValidator` (src/core/transaction_validator.cpp) over the storage of module Storage.
-- `none` is an exception, or the read past the end of the key images that the construction excludes.
pub mod Laws
pub mod Uncommitted
pub mod DoubleSpend
use turtlecoin_v.Base.{
  ℕ, ◌+◌, Bool, true, false, Option, none, some, List, [], ◌∷◌, ltb, ◌==◌, not, if◌then◌else◌, map,
}
use turtlecoin_v.Errors.{Error, success, fail, ErrorCode, Outcome, ok, err, thrown, reject_if}
use turtlecoin_v.Errors.ErrorCode.{
  tx_minimum_pow, tx_low_fee, tx_secret_key, tx_output_public_ephemeral, tx_output_amount,
  tx_output_commitment, tx_invalid_range_proof, tx_key_image_already_exists, tx_output_locked,
  tx_invalid_ring_signature, tx_genesis_already_exists,
}
use turtlecoin_v.Config.{minimum_pow_zeros, genesis_output_amount}
use turtlecoin_v.Serial.{Wire}
use turtlecoin_v.Crypto.{Crypto}
use turtlecoin_v.Chain.Parts.{TransactionOutput, TransactionUserBody, UncommittedTransactionSuffix}
use turtlecoin_v.Chain.Genesis
use turtlecoin_v.Chain.Genesis.{GenesisTransaction}
use turtlecoin_v.Chain.Normal
use turtlecoin_v.Chain.Normal.Uncommitted as UncommittedNormal
use turtlecoin_v.Chain.Normal.Uncommitted.{UncommittedNormalTransaction}
use turtlecoin_v.Chain.Stake
use turtlecoin_v.Chain.Stake.Uncommitted as UncommittedStake
use turtlecoin_v.Chain.Stake.Uncommitted.{UncommittedStakeTransaction}
use turtlecoin_v.Chain.RecallStake
use turtlecoin_v.Chain.RecallStake.Uncommitted as UncommittedRecall
use turtlecoin_v.Chain.RecallStake.Uncommitted.{UncommittedRecallStakeTransaction}
use turtlecoin_v.Chain.Transaction
use turtlecoin_v.Chain.Transaction.{Transaction}
use turtlecoin_v.Fees.{Floats, calculate_transaction_fee}
use turtlecoin_v.Address
use turtlecoin_v.Address.{Base58}
use turtlecoin_v.Database.{Lmdb}
use turtlecoin_v.Storage.{any_key_image_exists, get_transaction_outputs, block_exists}
use Prim.Native.String.{String}

-- `uncommitted_transaction_t`
pub data UncommittedTransaction : Type 0 where
  normal : UncommittedNormalTransaction → UncommittedTransaction
  stake : UncommittedStakeTransaction → UncommittedTransaction
  recall_stake : UncommittedRecallStakeTransaction → UncommittedTransaction

-- The parts that the visitors use of each alternative.
unfoldable pub uncommitted_body : UncommittedTransaction → TransactionUserBody
uncommitted_body (UncommittedTransaction.normal tx) = tx.body
uncommitted_body (UncommittedTransaction.stake tx) = tx.body
uncommitted_body (UncommittedTransaction.recall_stake tx) = tx.body

unfoldable pub uncommitted_suffix : UncommittedTransaction → UncommittedTransactionSuffix
uncommitted_suffix (UncommittedTransaction.normal tx) = tx.suffix
uncommitted_suffix (UncommittedTransaction.stake tx) = tx.suffix
uncommitted_suffix (UncommittedTransaction.recall_stake tx) = tx.suffix

unfoldable pub check_uncommitted_construction : Crypto → UncommittedTransaction → Error
check_uncommitted_construction c (UncommittedTransaction.normal tx) =
    UncommittedNormal.check_construction c tx
check_uncommitted_construction c (UncommittedTransaction.stake tx) =
    UncommittedStake.check_construction c tx
check_uncommitted_construction c (UncommittedTransaction.recall_stake tx) =
    UncommittedRecall.check_construction c tx

-- `if (error) { return error; }` before code that may throw.
infixl 5 ◌>>◌
abbrev pub ◌>>◌ : Option Error → Option Error → Option Error
none >> rest = none
some success >> rest = rest
some (fail e) >> rest = some (fail e)

-- What the genesis transaction must pay, as `Configuration::Transaction::Genesis` says.
pub record GenesisTerms : Type 0 where
  pub tx_private_key : ℕ
  pub destination_wallet : String

-- `check_pow_zeros`
unfoldable pub check_pow_zeros : ℕ → Error
check_pow_zeros pow_zeros = reject_if (ltb pow_zeros minimum_pow_zeros) tx_minimum_pow

module _ {F : Type 0} (fl : Floats F) where
  -- The proof of work and the fee of a user transaction.
  unfoldable pub check_pow_and_fee : ℕ → ℕ → ℕ → Option Error
  check_pow_and_fee pow_zeros fee tx_size =
      some (check_pow_zeros pow_zeros) >> elim (calculate_transaction_fee fl tx_size pow_zeros) [
        | none ↦ none
        | some required ↦ some (reject_if (ltb fee required) tx_low_fee)
      ]

  module _ (w : Wire) (c : Crypto) where
    -- The loop over the outputs of the genesis transaction, from index `i` on.
    unfoldable pub check_genesis_outputs : ℕ → ℕ → ℕ → List TransactionOutput → Error
    check_genesis_outputs derivation public_spend i [] = success
    check_genesis_outputs derivation public_spend i (o ∷ os) =
        let scalar = c.derivation_to_scalar derivation i in
        let rest = check_genesis_outputs derivation public_spend (i + 1) os in
        if not (c.derive_public_key scalar public_spend == o.public_ephemeral)
        then fail tx_output_public_ephemeral
        else if not (
            c.toggle_masked_amount (c.generate_amount_mask scalar) o.amount
            == genesis_output_amount)
        then fail tx_output_amount
        else if not (
            c.generate_pedersen_commitment (c.generate_commitment_blinding_factor scalar)
              genesis_output_amount
            == o.commitment)
        then fail tx_output_commitment
        else rest

    unfoldable pub check_genesis : Base58 → GenesisTerms → GenesisTransaction → Option Error
    check_genesis b terms tx =
        if not (tx.secret_key == terms.tx_private_key)
        then some (fail tx_secret_key)
        else elim (Address.decode w b terms.destination_wallet) [
          | thrown ↦ none
          | err e ↦ some (fail e)
          | ok (public_spend, public_view) ↦ some (
              check_genesis_outputs (c.generate_key_derivation public_view tx.secret_key)
                public_spend 0 tx.outputs)
        ]

    unfoldable pub uncommitted_pow_and_fee : UncommittedTransaction → Option Error
    uncommitted_pow_and_fee (UncommittedTransaction.normal tx) =
        check_pow_and_fee (c.leading_zeros (UncommittedNormal.pow_hash w c tx)) tx.body.fee
          (UncommittedNormal.byte_size w tx)
    uncommitted_pow_and_fee (UncommittedTransaction.stake tx) =
        check_pow_and_fee (c.leading_zeros (UncommittedStake.pow_hash w c tx)) tx.body.fee
          (UncommittedStake.byte_size w tx)
    uncommitted_pow_and_fee (UncommittedTransaction.recall_stake tx) =
        check_pow_and_fee (c.leading_zeros (UncommittedRecall.pow_hash w c tx)) tx.body.fee
          (UncommittedRecall.byte_size w tx)

    -- `check(uncommitted_transaction_t)`
    unfoldable pub check_uncommitted : UncommittedTransaction → Option Error
    check_uncommitted tx = some (check_uncommitted_construction c tx) >> uncommitted_pow_and_fee tx

    -- The second visit of `check(transaction_t)`.
    unfoldable pub check_terms : Base58 → GenesisTerms → Transaction → Option Error
    check_terms b terms (Transaction.normal tx) =
        check_pow_and_fee (c.leading_zeros (Normal.pow_hash w c tx)) tx.body.fee
          (Normal.byte_size w tx)
    check_terms b terms (Transaction.stake tx) =
        check_pow_and_fee (c.leading_zeros (Stake.pow_hash w c tx)) tx.body.fee
          (Stake.byte_size w tx)
    check_terms b terms (Transaction.recall_stake tx) =
        check_pow_and_fee (c.leading_zeros (RecallStake.pow_hash w c tx)) tx.body.fee
          (RecallStake.byte_size w tx)
    check_terms b terms (Transaction.genesis tx) = check_genesis b terms tx
    check_terms b terms (Transaction.staker tx) = some success
    check_terms b terms (Transaction.stake_refund tx) = some success

    -- `check(transaction_t)`
    unfoldable pub check : Base58 → GenesisTerms → Transaction → Option Error
    check b terms tx = some (Transaction.check_construction c tx) >> check_terms b terms tx

    -- The test of each ring member: `if (unlock_block < block_index)`.
    unfoldable pub check_unlocked : ℕ → List (TransactionOutput × ℕ) → Error
    check_unlocked block_index [] = success
    check_unlocked block_index (o ∷ os) =
        let rest = check_unlocked block_index os in
        if ltb o.1 block_index then fail tx_output_locked else rest

    -- The loop over the signatures, each with the key image of the same position.
    unfoldable pub check_signatures : ℕ → List ℕ → List ℕ → List ℕ → List ℕ → Option Error
    check_signatures digest public_keys commitments [] key_images = some success
    check_signatures digest public_keys commitments (g ∷ gs) [] = none
    check_signatures digest public_keys commitments (g ∷ gs) (k ∷ ks) =
        let rest = check_signatures digest public_keys commitments gs ks in
        if not (c.check_ring_signature digest k public_keys g commitments)
        then some (fail tx_invalid_ring_signature)
        else rest

    unfoldable pub uncommitted_digest : UncommittedTransaction → ℕ
    uncommitted_digest (UncommittedTransaction.normal tx) = UncommittedNormal.digest w c tx
    uncommitted_digest (UncommittedTransaction.stake tx) = UncommittedStake.digest w c tx
    uncommitted_digest (UncommittedTransaction.recall_stake tx) = UncommittedRecall.digest w c tx

    module _ {Txn Env : Type 0} (db : Lmdb Txn Env) where
      -- The ring: fetch the participants, test that none is locked, and check the signatures.
      unfoldable pub validate_ring : ℕ → UncommittedTransaction → Env → Option Error
      validate_ring block_index tx env =
          elim (get_transaction_outputs w c db (uncommitted_suffix tx).ring_participants env) [
            | thrown ↦ none
            | err e ↦ some (fail e)
            | ok inputs ↦
                some (check_unlocked block_index inputs)
                >> check_signatures (uncommitted_digest tx) (map (λ o. o.0.public_ephemeral) inputs)
                    (map (λ o. o.0.commitment) inputs) (uncommitted_suffix tx).signatures
                    (uncommitted_body tx).key_images
          ]

      -- `validate(block_index, uncommitted_transaction_t)`
      unfoldable pub validate_uncommitted : ℕ → UncommittedTransaction → Env → Option Error
      validate_uncommitted block_index tx env = do
        check_uncommitted tx
        some (
            reject_if
              (not (
                c.range_proof_verify (uncommitted_suffix tx).range_proof
                  (map (λ o. o.commitment) (uncommitted_body tx).outputs)))
              tx_invalid_range_proof)
        some (
            reject_if (any_key_image_exists w c db (uncommitted_body tx).key_images env)
              tx_key_image_already_exists)
        validate_ring block_index tx env

      -- The visit of `validate(block_index, transaction_t)`.
      unfoldable pub validate_new : Transaction → Env → Error
      validate_new (Transaction.normal tx) env =
          reject_if (any_key_image_exists w c db tx.body.key_images env) tx_key_image_already_exists
      validate_new (Transaction.stake tx) env =
          reject_if (any_key_image_exists w c db tx.body.key_images env) tx_key_image_already_exists
      validate_new (Transaction.recall_stake tx) env =
          reject_if (any_key_image_exists w c db tx.body.key_images env) tx_key_image_already_exists
      validate_new (Transaction.genesis tx) env =
          reject_if (block_exists w c db 0 env) tx_genesis_already_exists
      validate_new (Transaction.staker tx) env = success
      validate_new (Transaction.stake_refund tx) env = success

      -- `validate(block_index, transaction_t)`; the block's index is not looked at.
      unfoldable pub validate : Base58 → GenesisTerms → ℕ → Transaction → Env → Option Error
      validate b terms block_index tx env = check b terms tx >> some (validate_new tx env)
