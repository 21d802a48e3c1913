-- ===== src/Tests/Blocks.antt =====
-- The theorems on blocks, the database, the storage and the validator at concrete inputs.
use turtlecoin_v.Base.{ℕ, ◌≡◌, ◌↔◌, refl, true, some, [], ◌∷◌, length, map, arith}
use turtlecoin_v.Errors.{Error, ok}
use turtlecoin_v.Errors.ErrorCode.{block_txn_mismatch}
use turtlecoin_v.Serial.{Bytes}
use turtlecoin_v.Serial.Laws.{Reads}
use turtlecoin_v.Chain.Transaction
use turtlecoin_v.Chain.Transaction.{Transaction}
use turtlecoin_v.Chain.Block
use turtlecoin_v.Chain.Block.{Block, full, validate_construction}
use turtlecoin_v.Chain.Block.RoundTrip.{block_round_trip}
use turtlecoin_v.Chain.Block.Signing.{
  IsSigned, sign_block, validate_construction-true_iff, sign_block-validates,
}
use turtlecoin_v.Database.Laws.{SameData}
use turtlecoin_v.Storage.{put_block, block_hash, get_block_hash}
use turtlecoin_v.Storage.Put.{IsBlockFound, put_block-success, put_block-fail}
use turtlecoin_v.Storage.Total.{put_block_total}
use turtlecoin_v.Storage.Lookup.{get_block_hash-put_block}
use turtlecoin_v.Tests.Cells.{cells, cells_laws}
use turtlecoin_v.Tests.Toy.{toy, toy_signature, store, store_laws, empty_store, tiny}
use turtlecoin_v.Tests.Data.{unsigned}
use turtlecoin_v.Tests.Stored.{
  block, transactions, stored, put_block_done, block_hash_small, full_then_fits,
}

block_round_trip_example :
    (bytes : Bytes) × (Block.serialize cells toy full (unsigned (91 ∷ 92 ∷ [])) ≡ some bytes)
    × Reads (Block.deserialize cells toy) bytes (unsigned (91 ∷ 92 ∷ []))
block_round_trip_example = block_round_trip cells cells_laws toy (unsigned (91 ∷ 92 ∷ [])) (record {
  version = omega arith;
  previous = omega arith;
  timestamp = omega arith;
  index = omega arith;
  reward = ground arith;
  hash_count = omega arith;
  hashes = ground arith;
  hash_order = ground arith;
  producer_key = omega arith;
  producer_signature = omega arith;
  no_producer = λ h. (refl, refl);
  validator_count = omega arith;
  validators = tt;
  validator_order = tt;
})

validate_construction-true_iff_example :
    (validate_construction cells toy (unsigned []) ≡ some true) ↔ IsSigned cells toy (unsigned [])
validate_construction-true_iff_example = validate_construction-true_iff cells toy (unsigned [])

sign_block-validates_example :
    (b : Block) × (sign_block cells toy 1 (2 ∷ 3 ∷ []) (unsigned []) ≡ some b)
    × (validate_construction cells toy b ≡ some true)
unfolding Block.reward_has_outputs
sign_block-validates_example =
    sign_block-validates cells toy toy_signature 1 2 (3 ∷ []) (unsigned []) refl refl (omega arith)
      (λ d. ground arith) (ground arith)

put_block-success_example :
    (length transactions ≡ length block.transactions)
    × (toy.sha3_hashes block.transactions
        ≡ toy.sha3_hashes (map (Transaction.hash cells toy) transactions))
    × IsBlockFound cells toy store store_laws stored block transactions
put_block-success_example =
    put_block-success cells toy store store_laws 1 block transactions empty_store stored
      put_block_done

put_block-fail_example : SameData store empty_store empty_store
unfolding put_block
put_block-fail_example =
    put_block-fail cells toy store store_laws 1 block [] empty_store empty_store block_txn_mismatch
      refl

put_block_total_example :
    (out : Error × ℕ) × (put_block cells toy tiny 10 block transactions 0 ≡ some out)
put_block_total_example =
    put_block_total cells toy tiny 9 10 block transactions 0 (omega arith) full_then_fits

get_block_hash-put_block_example :
    get_block_hash cells toy store block.block_index stored ≡ ok (block_hash cells toy block)
get_block_hash-put_block_example =
    get_block_hash-put_block cells toy store store_laws cells_laws 1 block transactions empty_store
      stored block_hash_small put_block_done
