-- ===== src/Errors.antt =====
-- Error codes and the class Error (src/errors/errors.h, src/errors/errors.cpp).
-- An Error whose code is SUCCESS converts to false, every other one to true: the type below keeps
-- that split in its constructors, and leaves out the message, the line and the file name.
pub mod Laws
use turtlecoin_v.Base.{Bool, true, false, List, [], ◌∷◌}

-- `enum ErrorCode` without SUCCESS.
pub data ErrorCode : Type 0 where
  json_parse_error upnp_failure upnp_not_supported zmq_connect_error zmq_bind_error : ErrorCode
  zmq_generic_error p2p_seed_connect p2p_dupe_connect http_body_required_but_not_found : ErrorCode
  peerlist_add_failure base58_decode address_prefix_mismatch address_decode db_empty : ErrorCode
  db_block_not_found db_transaction_not_found db_transaction_output_not_found : ErrorCode
  block_txn_order block_txn_mismatch unknown_transaction_type tx_not_found : ErrorCode
  tx_invalid_version tx_key_image_already_exists tx_duplicate_key_image tx_invalid_key_image :
      ErrorCode
  tx_minimum_pow tx_low_fee tx_missing_fee tx_extra_too_large tx_keypair_mismatch : ErrorCode
  tx_public_key tx_secret_key tx_stake_no_amount tx_staker_id tx_recall_view_signature : ErrorCode
  tx_recall_spend_signature tx_recall_stake_tx_hash tx_output_public_ephemeral : ErrorCode
  tx_output_amount tx_output_commitment tx_output_locked tx_staker_reward_amount : ErrorCode
  tx_staker_reward_id tx_invalid_range_proof tx_sig_size_mismatch tx_invalid_signature : ErrorCode
  tx_invalid_output_count tx_invalid_input_count tx_public_view_key_not_found : ErrorCode
  tx_public_spend_key_not_found tx_invalid_pseudo_commitment_count : ErrorCode
  tx_commitments_do_not_balance tx_invalid_ring_signature tx_genesis_already_exists : ErrorCode
  tx_staking_public_keys_reuse staking_candidate_already_exists staking_candidate_not_found :
      ErrorCode
  staking_candidate_amount_invalid staking_staker_not_found staking_stake_amount : ErrorCode
  aes_wrong_password aes_decryption_error lmdb_error lmdb_empty lmdb_keyexist lmdb_notfound :
      ErrorCode
  lmdb_page_notfound lmdb_corrupted lmdb_panic lmdb_version_mismatch lmdb_invalid : ErrorCode
  lmdb_map_full lmdb_dbs_full lmdb_readers_full lmdb_tls_full lmdb_txn_full lmdb_cursor_full :
      ErrorCode
  lmdb_page_full lmdb_map_resized lmdb_incompatible lmdb_bad_rslot lmdb_bad_txn : ErrorCode
  lmdb_bad_valsize lmdb_bad_dbi : ErrorCode

-- `class Error`.
pub data Error : Type 0 where
  success : Error
  fail : ErrorCode → Error

-- `Error::operator bool`: is this an error?
unfoldable pub is_error : Error → Bool
is_error success = false
is_error (fail _) = true

-- `if (error) { return error; }`, and then what follows.
infixl 5 ◌>>◌
abbrev pub ◌>>◌ : Error → Error → Error
success >> rest = rest
fail e >> rest = fail e

-- `if (test) { return MAKE_ERROR(code); }`
abbrev pub reject_if : Bool → ErrorCode → Error
reject_if true e = fail e
reject_if false e = success

-- A loop that returns the first error of its body.
abbrev pub check_each : {A : Type 0} → (A → Error) → List A → Error
check_each f [] = success
check_each f (x ∷ xs) = f x >> check_each f xs

-- A call that returns a tuple of an Error and values, or throws.
pub data Outcome (A : Type 0) : Type 0 where
  ok : A → Outcome A
  err : ErrorCode → Outcome A
  thrown : Outcome A
