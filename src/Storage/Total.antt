-- ===== src/Storage/Total.antt =====
-- About `put_block` (src/core/blockchain_storage.cpp) and the number of times it is tried.
use turtlecoin_v.Base.{
  ℕ, ◌≡◌, ◌<◌, refl, false, some, List, length, ◌==◌, map, Bool-cases, inl, inr,
}
use turtlecoin_v.Errors.{Error, fail}
use turtlecoin_v.Errors.ErrorCode.{block_txn_mismatch, block_txn_order}
use turtlecoin_v.Serial.{Wire}
use turtlecoin_v.Crypto.{Crypto}
use turtlecoin_v.Chain.Transaction
use turtlecoin_v.Chain.Transaction.{Transaction}
use turtlecoin_v.Chain.Block.{Block}
use turtlecoin_v.Database.{Lmdb, is_full, attempt}
use turtlecoin_v.Database.Retry.{expanded_times, retry_total}
use turtlecoin_v.Storage.{put_block_writes, put_block}

module _ (w : Wire) (c : Crypto) {Txn Env : Type 0} (db : Lmdb Txn Env) where
  -- If an attempt at the writes of a block is not refused for a full map after n expansions,
  -- put_block answers with more than n rounds of fuel.
  pub put_block_total :
      (n fuel : ℕ) (b : Block) (txs : List Transaction) (env : Env)
      → n < fuel
      → is_full
          (attempt db
            (put_block_writes w c db b txs)
            (expanded_times db n (put_block_writes w c db b txs) env)).0
        ≡ false
      → (out : Error × Env) × (put_block w c db fuel b txs env ≡ some out)
  unfolding put_block
  put_block_total n fuel b txs env lt fits =
      elim (Bool-cases (length txs == length b.transactions)) [
        | inr e ↦ rw e ((fail block_txn_mismatch, env), refl)
        | inl e ↦
            elim (Bool-cases
              (c.sha3_hashes b.transactions == c.sha3_hashes (map (Transaction.hash w c) txs))) [
                | inr o ↦ rw (e, o) ((fail block_txn_order, env), refl)
                | inl o ↦
                    rw (e, o) (retry_total db n fuel (put_block_writes w c db b txs) env lt fits)
              ]
      ]
