-- ===== src/Tests/Machines.antt =====
-- The theorems on environments, databases, stakes and containers at concrete inputs.
use turtlecoin_v.Base.{
  ℕ, ◌≡◌, ◌<◌, refl, true, false, Bool, Option, none, some, List, [], ◌∷◌, ◌⊎◌, inl, inr, arith,
}
use turtlecoin_v.Errors.{success, fail, ErrorCode, ok}
use turtlecoin_v.Errors.ErrorCode.{staking_candidate_already_exists, db_block_not_found}
use turtlecoin_v.Serial.{emit}
use turtlecoin_v.Chain.Transaction
use turtlecoin_v.Chain.Stake.{CommittedStakeTransaction}
use turtlecoin_v.Chain.Block.{Block}
use turtlecoin_v.Database.{Lmdb, exists, read, retry}
use turtlecoin_v.Database.Laws.{SameData}
use turtlecoin_v.Database.Named
use turtlecoin_v.Database.Named.{put_refines}
use turtlecoin_v.Database.Environment.{
  Environment, EnvInfo, EnvStat, begin_transaction, commit, expand,
}
use turtlecoin_v.Database.Environment.Counting.{
  IsCounted, writers, Reach, Step, counting_invariant, resize_without_writers,
}
use turtlecoin_v.Storage.{block_hash, block_bytes, block_exists}
use turtlecoin_v.Storage.Removal.{get_block, del_block, del_block_writes, rewind}
use turtlecoin_v.Storage.Removal.Gone.{rewind_stuck}
use turtlecoin_v.Storage.Removal.Unfound.{IsBlockUnfound, del_block_removes}
use turtlecoin_v.Staking.Records.{serialize_candidate}
use turtlecoin_v.Staking.Engine.{candidates, candidate_of, add_stake}
use turtlecoin_v.Staking.Engine.Candidacy.{candidacy_stored, candidacy_once, refusal_keeps_data}
use turtlecoin_v.Tests.Cells.{cells}
use turtlecoin_v.Tests.Toy.{toy, Store, store, store_laws, empty_store, entry}
use turtlecoin_v.Tests.Data.{normal, stake}
use turtlecoin_v.Tests.Stored.{block, transactions}

abbrev written : Store
written = entry 0 (7 ∷ []) (some (8 ∷ [])) empty_store

put_done : Named.put store 1 0 (7 ∷ []) (8 ∷ []) empty_store ≡ some (success, written)
unfolding Named.put turtlecoin_v.Database.retry turtlecoin_v.Database.attempt
    turtlecoin_v.Database.is_full
put_done = refl

put_refines_example :
    (read store written 0 (7 ∷ []) ≡ some (8 ∷ []))
    × Named.Updates store empty_store written 0 (7 ∷ [])
put_refines_example =
    put_refines store store_laws 1 0 (7 ∷ []) (8 ∷ []) empty_store (success, written) put_done

abbrev opened : Environment
opened = record { is_open = true; open_txns = 0; map_size = 4096; transactions = [] }

abbrev writing : Environment
writing = (begin_transaction (λ i. success) (λ i. (success, 0)) false opened).1

abbrev committed : Environment
committed = (commit success 0 writing).1

reached : Reach opened committed
reached =
    Reach.next (Reach.next Reach.here (Step.began (λ i. success) (λ i. (success, 0)) false opened))
      (Step.committed success 0 writing)

counting_invariant_example : IsCounted committed
counting_invariant_example = counting_invariant refl reached

abbrev room : ErrorCode ⊎ EnvInfo
room = inr (record { map_size = 4096 })

abbrev pages : ErrorCode ⊎ EnvStat
pages = inr (record { page_size = 4096 })

expanded : (expand room pages success 2 committed).0 ≡ success
unfolding expand commit begin_transaction turtlecoin_v.Database.Environment.begin_tries
    turtlecoin_v.Database.Environment.at turtlecoin_v.Database.Environment.transaction_register
    turtlecoin_v.Database.Environment.end_transaction
    turtlecoin_v.Database.Environment.transaction_unregister turtlecoin_v.Database.Environment.info
    turtlecoin_v.Database.Environment.stats turtlecoin_v.Database.Environment.set_map_size
expanded = refl

resize_without_writers_example : writers committed.transactions ≡ 0
resize_without_writers_example = resize_without_writers refl reached room pages success 2 expanded

abbrev counted : Lmdb Store Store
counted = record store { count = λ env d. 1 }

abbrev one_block : Store
one_block = entry 1 (0 ∷ []) (some (425 ∷ [])) empty_store

first_there : block_exists cells toy counted 0 one_block ≡ true
unfolding block_exists exists
first_there = refl

second_missing : block_exists cells toy counted 1 one_block ≡ false
unfolding block_exists exists
second_missing = refl

one_counted : 0 < turtlecoin_v.Storage.Removal.get_block_count cells toy counted one_block
unfolding turtlecoin_v.Storage.Removal.get_block_count
one_counted = omega arith

rewind_stuck_example :
    rewind cells toy counted 5 0 one_block ≡ some (ok (fail db_block_not_found), one_block)
unfolding turtlecoin_v.Storage.Removal.get_block_count
rewind_stuck_example =
    rewind_stuck cells toy counted 5 0 one_block first_there one_counted second_missing

abbrev kept : Store
kept = entry 3 (185 ∷ []) (some (425 ∷ Transaction.serialize cells (Transaction.normal normal))) (
    entry 1 (block.block_index ∷ []) (some (425 ∷ []))
      (entry 0 (425 ∷ []) (some (block_bytes cells toy block)) empty_store))

got : get_block cells toy store block.block_index kept ≡ ok (block, transactions)
unfolding get_block turtlecoin_v.Storage.get_block_hash read
    turtlecoin_v.Storage.Removal.get_block_by_hash turtlecoin_v.Storage.Removal.read_block
    turtlecoin_v.Chain.Block.deserialize turtlecoin_v.Serial.◌>>=◌ block_bytes
    turtlecoin_v.Chain.Block.serialize turtlecoin_v.Chain.Block.serialize_head
    turtlecoin_v.Chain.Block.deserialize_reward turtlecoin_v.Serial.peek
    turtlecoin_v.Chain.Block.serialize_reward turtlecoin_v.Chain.Staker.serialize
    turtlecoin_v.Chain.Parts.serialize_header turtlecoin_v.Chain.Block.deserialize_reward_as
    turtlecoin_v.Chain.Staker.deserialize turtlecoin_v.Chain.Parts.deserialize_header
    turtlecoin_v.Base.Ordered.insert turtlecoin_v.Base.Ordered.insert_all
    turtlecoin_v.Chain.Block.deserialize_entry turtlecoin_v.Chain.Block.deserialize_producer
    turtlecoin_v.Chain.Block.has_producer turtlecoin_v.Chain.Block.serialize_entry
    turtlecoin_v.Chain.Block.serialize_producer turtlecoin_v.Chain.Normal.deserialize
    turtlecoin_v.Chain.Parts.deserialize_body turtlecoin_v.Chain.Parts.deserialize_normal_data
    turtlecoin_v.Chain.Parts.deserialize_output turtlecoin_v.Chain.Parts.deserialize_outputs
    turtlecoin_v.Chain.Parts.deserialize_prefix turtlecoin_v.Chain.Parts.deserialize_staker_output
    turtlecoin_v.Chain.Parts.deserialize_suffix turtlecoin_v.Chain.Parts.serialize_output
    turtlecoin_v.Chain.Parts.serialize_outputs turtlecoin_v.Chain.Parts.serialize_prefix
    turtlecoin_v.Chain.Parts.serialize_staker_output Transaction.deserialize
    Transaction.deserialize_as turtlecoin_v.Serial.read_many turtlecoin_v.Serial.return
    turtlecoin_v.Serial.write_each turtlecoin_v.Storage.Removal.get_each
    turtlecoin_v.Storage.get_transaction turtlecoin_v.Storage.read_transaction_record
    Transaction.serialize turtlecoin_v.Chain.Normal.serialize
    turtlecoin_v.Chain.Parts.serialize_body turtlecoin_v.Chain.Parts.serialize_normal_data
    turtlecoin_v.Chain.Parts.serialize_suffix
got = refl

abbrev emptied : Store
emptied = (del_block_writes cells toy store block transactions kept).1

emptied_done :
    retry store 1 (del_block_writes cells toy store block transactions) kept
    ≡ some (success, emptied)
unfolding retry turtlecoin_v.Database.◌>>◌ turtlecoin_v.Database.is_full
    turtlecoin_v.Database.attempt turtlecoin_v.Database.each del_block_writes
    turtlecoin_v.Storage.Removal.del_transaction turtlecoin_v.Storage.Removal.del_record
    turtlecoin_v.Storage.Removal.del_key_image turtlecoin_v.Storage.Removal.del_transaction_output
    turtlecoin_v.Storage.Removal.del_block_timestamp turtlecoin_v.Storage.Removal.del_block_index
    turtlecoin_v.Storage.Removal.del_block_bytes turtlecoin_v.Storage.key_images_of
    turtlecoin_v.Storage.outputs_of
emptied_done = refl

del_block_done : del_block cells toy store 1 block.block_index kept ≡ some (ok success, emptied)
unfolding del_block
del_block_done = rw (got, emptied_done, del_block) refl

del_block_removes_example : IsBlockUnfound cells toy store emptied block transactions
del_block_removes_example =
    del_block_removes cells toy store store_laws 1 block.block_index block transactions kept emptied
      got del_block_done

abbrev candidacy : CommittedStakeTransaction
candidacy = record stake { tx_data = record stake.tx_data { stake_amount = 100000 } }

abbrev proposed : Store
proposed =
    entry 0 (candidacy.tx_data.candidate_public_key ∷ [])
      (some (serialize_candidate cells (candidate_of cells store candidacy))) empty_store

candidacy_done : add_stake cells store 1 candidacy empty_store ≡ some (success, proposed)
unfolding add_stake exists Named.put turtlecoin_v.Database.retry turtlecoin_v.Database.attempt
    turtlecoin_v.Database.is_full
candidacy_done = refl

candidacy_stored_example :
    (candidacy.tx_data.stake_amount ≡ 100000)
    × (exists store empty_store candidates (candidacy.tx_data.candidate_public_key ∷ []) ≡ false)
    × (read store proposed candidates (candidacy.tx_data.candidate_public_key ∷ [])
        ≡ some (serialize_candidate cells (candidate_of cells store candidacy)))
    × Named.Updates store empty_store proposed candidates
        (candidacy.tx_data.candidate_public_key ∷ [])
candidacy_stored_example =
    candidacy_stored cells store store_laws 1 candidacy empty_store proposed refl candidacy_done

candidacy_once_example :
    add_stake cells store 5 candidacy proposed
    ≡ some (fail staking_candidate_already_exists, proposed)
candidacy_once_example =
    candidacy_once cells store store_laws 1 5 candidacy candidacy empty_store proposed refl refl
      refl candidacy_done

candidacy_refused :
    add_stake cells store 5 candidacy proposed
    ≡ some (fail staking_candidate_already_exists, proposed)
unfolding add_stake exists
candidacy_refused = refl

refusal_keeps_data_example : SameData store proposed proposed
refusal_keeps_data_example =
    refusal_keeps_data cells store store_laws 5 candidacy proposed proposed
      staking_candidate_already_exists candidacy_refused
