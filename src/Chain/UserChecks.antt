-- ===== src/Chain/UserChecks.antt =====
-- The checks that stand, word for word, in the check_construction methods of all user transactions
-- (include/blockchain/transaction_normal.h, transaction_stake.h, transaction_recall_stake.h): those
-- of the inputs and outputs, and those of an uncommitted transaction's proofs.
pub mod Laws
use turtlecoin_v.Base.{ℕ, Bool, length, ltb, ◌==◌, not, ◌||◌, map}
use turtlecoin_v.Errors.{Error, success, ◌>>◌, reject_if, check_each}
use turtlecoin_v.Errors.ErrorCode.{
  tx_missing_fee, tx_invalid_input_count, tx_invalid_key_image, tx_duplicate_key_image,
  tx_invalid_output_count, tx_invalid_pseudo_commitment_count, tx_commitments_do_not_balance,
  tx_invalid_range_proof, tx_sig_size_mismatch, tx_invalid_signature,
}
use turtlecoin_v.Config.{maximum_inputs, minimum_outputs, maximum_outputs, ring_size}
use turtlecoin_v.Crypto.{Crypto}
use turtlecoin_v.Chain.Parts.{TransactionUserBody, UncommittedTransactionSuffix, check_output}

-- From `if (fee == 0)` to the loop over the outputs.
unfoldable pub check_user_body : Crypto → TransactionUserBody → Error
check_user_body c b = do
  reject_if (b.fee == 0) tx_missing_fee
  reject_if (length b.key_images == 0 || ltb maximum_inputs (length b.key_images))
      tx_invalid_input_count
  check_each (λ k. reject_if (not (c.check_subgroup k)) tx_invalid_key_image) b.key_images
  reject_if (not (length (c.dedupe_sort b.key_images) == length b.key_images))
      tx_duplicate_key_image
  reject_if (ltb (length b.outputs) minimum_outputs || ltb maximum_outputs (length b.outputs))
      tx_invalid_output_count
  check_each (check_output c) b.outputs

-- From the comparison with the pseudo commitments to the end.
unfoldable pub check_user_suffix :
    Crypto → TransactionUserBody → UncommittedTransactionSuffix → Error
check_user_suffix c b s = do
  reject_if (not (length b.key_images == length s.pseudo_commitments))
      tx_invalid_pseudo_commitment_count
  reject_if
      (not
        (c.check_commitments_parity s.pseudo_commitments (map (λ o. o.commitment) b.outputs) b.fee))
      tx_commitments_do_not_balance
  reject_if (not (c.range_proof_construction s.range_proof)) tx_invalid_range_proof
  reject_if (not (length b.key_images == length s.signatures)) tx_sig_size_mismatch
  check_each (λ g. reject_if (not (c.clsag_construction ring_size g)) tx_invalid_signature)
      s.signatures
