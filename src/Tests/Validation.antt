-- ===== src/Tests/Validation.antt =====
-- The theorems on the validator at concrete inputs.
use turtlecoin_v.Base.{◌≡◌, ◌≢◌, ◌≤◌, ◌↔◌, refl, some, [], ◌∷◌}
use mathlib.Core.List.Memᴰ
use turtlecoin_v.Errors.{success}
use turtlecoin_v.Serial.{Bytes}
use turtlecoin_v.Chain.Transaction.{Transaction}
use turtlecoin_v.Fees.{calculate_transaction_fee}
use turtlecoin_v.Validator.{
  UncommittedTransaction, GenesisTerms, check_pow_and_fee, check_uncommitted, validate,
  validate_uncommitted,
}
use turtlecoin_v.Validator.Laws.{
  IsAccepted, check_pow_and_fee-success_iff, validate_uncommitted-IsAccepted,
}
use turtlecoin_v.Validator.DoubleSpend.{validate-double_spend, validate_uncommitted-double_spend}
use turtlecoin_v.Tests.Cells.{cells}
use turtlecoin_v.Tests.Coder.{letters}
use turtlecoin_v.Tests.Toy.{toy, Store, store, store_laws, empty_store, entry, hundredths}
use turtlecoin_v.Tests.Data.{normal, new_normal}
use turtlecoin_v.Tests.Stored.{block, transactions, stored, put_block_done}
use turtlecoin_v.Storage.Table

required : calculate_transaction_fee hundredths 400 2 ≡ some 4
unfolding calculate_transaction_fee turtlecoin_v.Fees.calculate_transaction_discount
    turtlecoin_v.Fees.discounted_fee turtlecoin_v.Fees.calculate_base_transaction_fee
required = refl

check_pow_and_fee-success_iff_example :
    (check_pow_and_fee hundredths 2 5 400 ≡ some success) ↔ ((1 ≤ 2) × (4 ≤ 5))
check_pow_and_fee-success_iff_example = check_pow_and_fee-success_iff hundredths 2 5 400 4 required

-- A store with the ring participant of the uncommitted transaction, in the order in which it is read.
abbrev ring_store : Store
ring_store = entry Table.transaction_outputs (41 ∷ []) (some (5 ∷ 7 ∷ 9 ∷ 4 ∷ [])) empty_store

accepted :
    validate_uncommitted hundredths cells toy store 3
      (UncommittedTransaction.normal new_normal)
      ring_store
    ≡ some success
unfolding validate_uncommitted check_uncommitted
    turtlecoin_v.Validator.check_uncommitted_construction
    turtlecoin_v.Chain.Normal.Uncommitted.check_construction
    turtlecoin_v.Chain.UserChecks.check_user_body turtlecoin_v.Chain.Parts.check_output
    turtlecoin_v.Chain.UserChecks.check_user_suffix turtlecoin_v.Validator.uncommitted_pow_and_fee
    check_pow_and_fee turtlecoin_v.Validator.check_pow_zeros
    turtlecoin_v.Chain.Normal.Uncommitted.pow_hash
    turtlecoin_v.Chain.Normal.Uncommitted.serialize_digest turtlecoin_v.Chain.Parts.serialize_prefix
    turtlecoin_v.Chain.Parts.serialize_header turtlecoin_v.Chain.Parts.serialize_body
    turtlecoin_v.Chain.Parts.serialize_outputs turtlecoin_v.Serial.write_each
    turtlecoin_v.Chain.Normal.Uncommitted.byte_size turtlecoin_v.Chain.Normal.Uncommitted.digest
    turtlecoin_v.Chain.Normal.Uncommitted.serialize turtlecoin_v.Chain.Parts.deserialize_output
    turtlecoin_v.Chain.Parts.serialize_normal_data turtlecoin_v.Chain.Parts.serialize_output
    turtlecoin_v.Chain.Parts.serialize_uncommitted_suffix turtlecoin_v.Database.exists
    turtlecoin_v.Database.read turtlecoin_v.Fees.calculate_base_transaction_fee
    turtlecoin_v.Fees.calculate_transaction_discount calculate_transaction_fee
    turtlecoin_v.Fees.discounted_fee turtlecoin_v.Serial.return turtlecoin_v.Serial.◌>>=◌
    turtlecoin_v.Storage.any_key_image_exists turtlecoin_v.Storage.get_transaction_output
    turtlecoin_v.Storage.get_transaction_outputs turtlecoin_v.Storage.key_image_exists
    turtlecoin_v.Storage.read_output_record turtlecoin_v.Validator.check_signatures
    turtlecoin_v.Validator.check_unlocked turtlecoin_v.Validator.uncommitted_body
    turtlecoin_v.Validator.uncommitted_digest turtlecoin_v.Validator.uncommitted_suffix
    turtlecoin_v.Validator.validate_ring
accepted = refl

validate_uncommitted-IsAccepted_example :
    IsAccepted hundredths cells toy store 3 (UncommittedTransaction.normal new_normal) ring_store
validate_uncommitted-IsAccepted_example =
    validate_uncommitted-IsAccepted hundredths cells toy store 3
      (UncommittedTransaction.normal new_normal) ring_store accepted

validate-double_spend_example :
    validate hundredths cells toy store letters
      (record { tx_private_key = 1; destination_wallet = "" })
      4
      (Transaction.normal normal)
      stored
    ≢ some success
unfolding turtlecoin_v.Storage.key_images_of
validate-double_spend_example =
    validate-double_spend cells toy store hundredths store_laws 1 block transactions empty_store
      stored letters (record { tx_private_key = 1; destination_wallet = "" }) 4
      (Transaction.normal normal) (Transaction.normal normal) 21 put_block_done (Memᴰ.head refl)
      (Memᴰ.head refl) (Memᴰ.head refl)

validate_uncommitted-double_spend_example :
    validate_uncommitted hundredths cells toy store 4
      (UncommittedTransaction.normal new_normal)
      stored
    ≢ some success
unfolding turtlecoin_v.Storage.key_images_of turtlecoin_v.Validator.uncommitted_body
validate_uncommitted-double_spend_example =
    validate_uncommitted-double_spend cells toy store hundredths store_laws 1 block transactions
      empty_store stored 4 (Transaction.normal normal) (UncommittedTransaction.normal new_normal) 22
      put_block_done (Memᴰ.head refl) (Memᴰ.tail (Memᴰ.head refl)) (Memᴰ.tail (Memᴰ.head refl))
