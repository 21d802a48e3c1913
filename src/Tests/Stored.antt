-- ===== src/Tests/Stored.antt =====
-- A block of one transaction, named by its hash, and the store after it.
use turtlecoin_v.Base.{◌≡◌, refl, false, some, List, [], ◌∷◌, arith}
use turtlecoin_v.Errors.{success}
use turtlecoin_v.Serial.{IsKey}
use turtlecoin_v.Chain.Transaction
use turtlecoin_v.Chain.Transaction.{Transaction}
use turtlecoin_v.Chain.Block
use turtlecoin_v.Chain.Block.{Block}
use turtlecoin_v.Database.{attempt, is_full}
use turtlecoin_v.Database.Retry.{expanded_times}
use turtlecoin_v.Storage.{put_block, put_block_writes, block_hash}
use turtlecoin_v.Tests.Cells.{cells}
use turtlecoin_v.Tests.Toy.{toy, Store, store, empty_store, tiny}
use turtlecoin_v.Tests.Data.{normal, unsigned}

abbrev pub block : Block
block = unsigned (185 ∷ [])

abbrev pub transactions : List Transaction
transactions = Transaction.normal normal ∷ []

abbrev pub stored : Store
stored = (put_block_writes cells toy store block transactions empty_store).1

pub put_block_done :
    put_block cells toy store 1 block transactions empty_store ≡ some (success, stored)
unfolding turtlecoin_v.Database.◌>>◌ turtlecoin_v.Database.is_full turtlecoin_v.Database.attempt
    turtlecoin_v.Database.retry turtlecoin_v.Database.each put_block put_block_writes
    Transaction.hash turtlecoin_v.Chain.Normal.hash turtlecoin_v.Chain.Normal.digest
    turtlecoin_v.Chain.Normal.serialize_digest turtlecoin_v.Chain.Parts.serialize_prefix
    turtlecoin_v.Chain.Parts.serialize_header turtlecoin_v.Chain.Parts.serialize_body
    turtlecoin_v.Chain.Parts.serialize_outputs turtlecoin_v.Serial.write_each
    turtlecoin_v.Chain.Parts.serialize_output turtlecoin_v.Chain.Parts.serialize_normal_data
    turtlecoin_v.Storage.key_images_of turtlecoin_v.Storage.outputs_of
    turtlecoin_v.Storage.put_block_bytes turtlecoin_v.Storage.put_block_index
    turtlecoin_v.Storage.put_block_timestamp turtlecoin_v.Storage.put_key_image
    turtlecoin_v.Storage.put_record turtlecoin_v.Storage.put_transaction
    turtlecoin_v.Storage.put_transaction_output turtlecoin_v.Storage.reward_transaction
put_block_done = refl

hash_value : block_hash cells toy block ≡ 425
unfolding block_hash Block.message_digest Block.serialize Block.serialize_head
    Block.serialize_reward Block.serialize_producer turtlecoin_v.Chain.Staker.serialize
    turtlecoin_v.Serial.write_each Block.has_producer turtlecoin_v.Chain.Parts.serialize_header
    turtlecoin_v.Chain.Parts.serialize_staker_output
hash_value = refl

pub block_hash_small : IsKey (block_hash cells toy block)
block_hash_small = omega (arith, hash_value)

pub full_then_fits :
    is_full
      (attempt tiny
        (put_block_writes cells toy tiny block transactions)
        (expanded_times tiny 9 (put_block_writes cells toy tiny block transactions) 0)).0
    ≡ false
unfolding expanded_times turtlecoin_v.Database.◌>>◌ turtlecoin_v.Database.is_full
    turtlecoin_v.Database.attempt turtlecoin_v.Database.each put_block_writes Transaction.hash
    turtlecoin_v.Chain.Normal.hash turtlecoin_v.Chain.Normal.digest
    turtlecoin_v.Chain.Normal.serialize_digest turtlecoin_v.Chain.Parts.serialize_prefix
    turtlecoin_v.Chain.Parts.serialize_header turtlecoin_v.Chain.Parts.serialize_body
    turtlecoin_v.Chain.Parts.serialize_outputs turtlecoin_v.Serial.write_each
    turtlecoin_v.Chain.Parts.serialize_output turtlecoin_v.Chain.Parts.serialize_normal_data
    turtlecoin_v.Storage.key_images_of turtlecoin_v.Storage.outputs_of
    turtlecoin_v.Storage.put_block_bytes turtlecoin_v.Storage.put_block_index
    turtlecoin_v.Storage.put_block_timestamp turtlecoin_v.Storage.put_key_image
    turtlecoin_v.Storage.put_record turtlecoin_v.Storage.put_transaction
    turtlecoin_v.Storage.put_transaction_output turtlecoin_v.Storage.reward_transaction
full_then_fits = refl
