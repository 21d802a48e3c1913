-- ===== src/Tests/Transactions.antt =====
-- The theorems on transactions, mining, fees and addresses at concrete inputs.
use turtlecoin_v.Base.{
  ℕ, ◌≡◌, ◌↔◌, ◌<◌, ◌≤◌, ◌+◌, ◌*◌, ◌⊎◌, inl, inr, refl, true, false, Bool-cases, some, arith,
}
use turtlecoin_v.Errors.{success, ok}
use turtlecoin_v.Serial.Laws.{Reads}
use turtlecoin_v.Chain.Transaction.{Transaction, serialize, deserialize}
use turtlecoin_v.Chain.Transaction.Laws.{transaction_round_trip}
use turtlecoin_v.Chain.Transaction
use turtlecoin_v.Chain.Transaction.Construction.{construction-success_iff}
use turtlecoin_v.Chain.Transaction.Construction
use turtlecoin_v.Validator.{UncommittedTransaction, check_uncommitted_construction}
use turtlecoin_v.Validator.Uncommitted
use turtlecoin_v.Validator.Uncommitted.{
  uncommitted_construction-success_iff, hash-to_committed, mine-pow_verify,
}
use turtlecoin_v.Chain.Normal.Uncommitted as UncommittedNormal
use turtlecoin_v.Chain.Normal.Laws.{normal_uncommitted_round_trip}
use turtlecoin_v.Chain.Stake
use turtlecoin_v.Chain.Stake.Uncommitted as UncommittedStake
use turtlecoin_v.Chain.RecallStake.Uncommitted as UncommittedRecall
use turtlecoin_v.Chain.UserChecks.{check_user_body}
use turtlecoin_v.Chain.Parts.{check_output}
use turtlecoin_v.Chain.Mining.{mine_nonce}
use turtlecoin_v.Chain.Mining.Laws.{mine_nonce-found, mine_nonce-exhausted}
use turtlecoin_v.Fees.{calculate_base_transaction_fee, calculate_transaction_fee}
use turtlecoin_v.Fees.Laws.{calculate_base_transaction_fee-chunks, calculate_transaction_fee_bounds}
use turtlecoin_v.Tests.Cells.{cells, cells_laws}
use turtlecoin_v.Tests.Toy.{toy, toy_dedupe, hundredths, hundredths_laws}
use turtlecoin_v.Tests.Data.{normal, new_normal, new_stake, recall_stake, new_recall_stake}

transaction_round_trip_example :
    Reads
      (deserialize cells)
      (serialize cells (Transaction.normal normal))
      (ok (Transaction.normal normal))
transaction_round_trip_example =
    transaction_round_trip cells cells_laws (Transaction.normal normal) (ground arith)

normal_uncommitted_round_trip_example :
    Reads
      (UncommittedNormal.deserialize cells)
      (UncommittedNormal.serialize cells new_normal)
      new_normal
normal_uncommitted_round_trip_example =
    normal_uncommitted_round_trip cells cells_laws new_normal (ground arith)

stake_passes :
    Stake.check_construction toy (UncommittedStake.to_committed cells toy new_stake) ≡ success
unfolding Stake.check_construction UncommittedStake.to_committed check_user_body check_output
stake_passes = refl

not_found : (mine_nonce (λ n. 0) 1 0).found ≡ false
not_found = elim (Bool-cases (mine_nonce (λ n. 0) 1 0).found) [
  | inl e ↦ absurd (omega (arith, mine_nonce-found (λ n. 0) 1 0 e))
  | inr e ↦ e
]

mine_nonce-exhausted_example : 0 < 1
mine_nonce-exhausted_example =
    mine_nonce-exhausted (λ n. 0) 1 0 9 not_found (inr (omega arith, omega arith))

calculate_base_transaction_fee-chunks_example :
    (chunks : ℕ) × (calculate_base_transaction_fee hundredths 400 ≡ chunks + 1)
    × (400 ≤ 320 + chunks * 32)
    × ((chunks ≡ 0) ⊎ (320 + chunks * 32 < 400 + 32))
calculate_base_transaction_fee-chunks_example =
    calculate_base_transaction_fee-chunks hundredths hundredths_laws 400 (omega arith)

calculate_transaction_fee_bounds_example :
    (fee : ℕ) × (calculate_transaction_fee hundredths 4000 5 ≡ some fee)
    × (1 ≤ fee)
    × (fee ≤ calculate_base_transaction_fee hundredths 4000)
calculate_transaction_fee_bounds_example =
    calculate_transaction_fee_bounds hundredths hundredths_laws 4000 5 (omega arith) (omega arith)

recall_stake_mined : (UncommittedRecall.mine cells toy new_recall_stake 16).1 ≡ true
unfolding UncommittedRecall.mine UncommittedRecall.zeros_at UncommittedRecall.with_nonce
    UncommittedRecall.pow_hash UncommittedRecall.serialize_digest mine_nonce
    turtlecoin_v.Chain.Parts.serialize_prefix turtlecoin_v.Chain.Parts.serialize_header
    turtlecoin_v.Chain.Parts.serialize_body turtlecoin_v.Chain.Parts.serialize_outputs
    turtlecoin_v.Serial.write_each turtlecoin_v.Chain.Parts.serialize_output
    turtlecoin_v.Chain.Parts.serialize_recall_data
recall_stake_mined = refl

construction-success_iff_example :
    (Transaction.check_construction toy (Transaction.recall_stake recall_stake) ≡ success)
    ↔ Construction.IsConstructed toy (Transaction.recall_stake recall_stake)
construction-success_iff_example =
    construction-success_iff toy toy_dedupe (Transaction.recall_stake recall_stake)

uncommitted_construction-success_iff_example :
    (check_uncommitted_construction toy (UncommittedTransaction.normal new_normal) ≡ success)
    ↔ Uncommitted.IsConstructed toy (UncommittedTransaction.normal new_normal)
uncommitted_construction-success_iff_example =
    uncommitted_construction-success_iff toy toy_dedupe (UncommittedTransaction.normal new_normal)

hash-to_committed_example :
    Uncommitted.HasHashKept cells toy (UncommittedTransaction.stake new_stake)
hash-to_committed_example =
    hash-to_committed cells toy (UncommittedTransaction.stake new_stake) refl

mine-pow_verify_example :
    Uncommitted.IsVerified cells toy 16 (UncommittedTransaction.recall_stake new_recall_stake)
mine-pow_verify_example =
    mine-pow_verify cells toy (UncommittedTransaction.recall_stake new_recall_stake) 16
      recall_stake_mined
