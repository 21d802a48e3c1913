-- ===== src/Storage/Seeking.antt =====
-- The methods on cursors of `BlockchainStorage` (src/core/blockchain_storage.cpp).
pub mod Sorted
pub mod Drawn
pub mod Returned
pub mod Enough
use turtlecoin_v.Base.{
  ℕ, Bool, true, false, not, ◌||◌, ◌==◌, ltb, Option, some, none, List, [], ◌∷◌, ◌++◌, length,
  if◌then◌else◌,
}
use turtlecoin_v.Errors.{ErrorCode, Outcome, ok, err, thrown}
use turtlecoin_v.Errors.ErrorCode.{
  lmdb_notfound, db_block_not_found, db_transaction_output_not_found,
}
use turtlecoin_v.Serial.{Bytes, Wire}
use turtlecoin_v.Crypto.{Crypto}
use turtlecoin_v.Chain.Parts.{TransactionOutput, output_hash}
use turtlecoin_v.Database.{Lmdb}
use turtlecoin_v.Database.Cursor
use turtlecoin_v.Database.Cursor.{Cursor}
use turtlecoin_v.Storage.{read_output_record}
use turtlecoin_v.Storage.Table
use turtlecoin_v.Tools.PriorityQueue.{push_all}

-- `error == LMDB_NOTFOUND`
unfoldable pub is_not_found : ErrorCode → Bool
is_not_found lmdb_notfound = true
is_not_found _ = false

module _ (w : Wire) (c : Crypto) {Txn Env : Type 0} (db : Lmdb Txn Env) (cursor : Cursor Txn) where
  unfoldable pub get_block_by_timestamp : ℕ → Env → Outcome (ℕ × ℕ)
  get_block_by_timestamp timestamp env =
      elim (Cursor.get_uint64_value w cursor (db.begin env) Table.block_timestamps timestamp) [
        | err e ↦ err db_block_not_found
        | thrown ↦ thrown
        | ok result ↦ ok result
      ]

  -- What an entry gives: an output, or none where the loop continues.
  unfoldable pub examine : ℕ → ℕ → Bytes → Outcome (Option TransactionOutput)
  examine block_index key value = elim (read_output_record w value) [
    | none ↦ thrown
    | some ((output, unlock_block), _) ↦
        if not (output_hash w c output == key) || ltb unlock_block block_index
        then ok none
        else ok (some output)
  ]

  -- One turn of the loop with its random hash. After another error than LMDB_NOTFOUND, the key is
  -- the default one and the value is empty.
  unfoldable pub draw : ℕ → ℕ → Env → Outcome (Option TransactionOutput)
  draw block_index random_hash env =
      elim (Cursor.get w cursor (db.begin env) Table.transaction_outputs random_hash) [
        | thrown ↦ thrown
        | err e ↦ if is_not_found e then ok none else examine block_index c.key_default []
        | ok (key, value) ↦ examine block_index key value
      ]

  -- `std::find(...) != end()`, where outputs are equal if their hashes are.
  unfoldable pub includes : TransactionOutput → List TransactionOutput → Bool
  includes o [] = false
  includes o (x ∷ xs) = output_hash w c x == output_hash w c o || includes o xs

  -- `operator<` of outputs, turned around.
  unfoldable pub above : TransactionOutput → TransactionOutput → Bool
  above x y = ltb (output_hash w c y) (output_hash w c x)

  -- `std::sort`, as insertions one after the other.
  unfoldable pub sort : List TransactionOutput → List TransactionOutput
  sort results = push_all above results []

  -- The loop with the hashes that `random_hash` returns; `none` means that there were too few.
  unfoldable pub draw_all :
      ℕ → ℕ → Env → List ℕ → List TransactionOutput → Option (Outcome (List TransactionOutput))
  draw_all block_index count env [] results =
      if ltb (length results) count then none else some (ok results)
  draw_all block_index count env (h ∷ hs) results =
      let skip = draw_all block_index count env hs results in
      if not (ltb (length results) count)
      then some (ok results)
      else elim (draw block_index h env) [
        | thrown ↦ some thrown
        | err e ↦ some (err e)
        | ok none ↦ skip
        | ok (some output) ↦
            let more = draw_all block_index count env hs (results ++ (output ∷ [])) in
            if includes output results then skip else more
      ]

  unfoldable pub get_random_outputs :
      List ℕ → ℕ → ℕ → Env → Option (Outcome (List TransactionOutput))
  get_random_outputs hashes block_index count env =
      if ltb (db.count env Table.transaction_outputs) count
      then some (err db_transaction_output_not_found)
      else elim (draw_all block_index count env hashes []) [
        | none ↦ none
        | some thrown ↦ some thrown
        | some (err e) ↦ some (err e)
        | some (ok results) ↦ some (ok (sort results))
      ]
