-- ===== src/Validator/DoubleSpend.antt =====
-- About the storage and the validator together: key images that a stored block has spent
-- (src/core/blockchain_storage.cpp, src/core/transaction_validator.cpp).
use turtlecoin_v.Base.{ℕ, ◌≡◌, ◌≢◌, sym, subst, true, some, List, [], ◌∷◌, All, arith}
use mathlib.Core.List.{Memᴰ}
use mathlib.Core.Option.{some-injective}
use mathlib.Core.List.Memᴰ
use turtlecoin_v.Errors.{success}
use turtlecoin_v.Serial.{Wire}
use turtlecoin_v.Crypto.{Crypto}
use turtlecoin_v.Fees.{Floats}
use turtlecoin_v.Address.{Base58}
use turtlecoin_v.Chain.Transaction.{Transaction}
use turtlecoin_v.Chain.Block.{Block}
use turtlecoin_v.Database.{Lmdb}
use turtlecoin_v.Database.Laws.{LmdbLaws}
use turtlecoin_v.Storage.{key_images_of, key_image_exists, any_key_image_exists, put_block}
use turtlecoin_v.Storage.Put.{put_block-success}
use turtlecoin_v.Validator.{
  UncommittedTransaction, uncommitted_body, GenesisTerms, validate_new, validate,
  validate_uncommitted,
}
use turtlecoin_v.Validator.Laws.{>>-success, validate_uncommitted-IsAccepted}

All-lookup : {A : Type 0} (P : A → Type 0) {x : A} (xs : List A) → All P xs → Memᴰ x xs → P x
All-lookup P [] p m = absurd (Memᴰ.not-nil m)
All-lookup P (x ∷ xs) p (Memᴰ.head e) = subst P (sym e) p.0
All-lookup P (x ∷ xs) p (Memᴰ.tail m) = All-lookup P xs p.1 m

module _ (w : Wire) (c : Crypto) {Txn Env : Type 0} (db : Lmdb Txn Env) where
  any_key_image_exists-true :
      (k : ℕ) (images : List ℕ) (env : Env)
      → Memᴰ k images
      → key_image_exists w c db k env ≡ true
      → any_key_image_exists w c db images env ≡ true
  unfolding any_key_image_exists
  any_key_image_exists-true k [] env m h = absurd (Memᴰ.not-nil m)
  any_key_image_exists-true k (x ∷ xs) env (Memᴰ.head e) h = cc
  any_key_image_exists-true k (x ∷ xs) env (Memᴰ.tail m) h =
      ground (arith, any_key_image_exists-true k xs env m h)

  module _ {F : Type 0} (fl : Floats F) where
    spent_rejected_new :
        (k : ℕ) (tx : Transaction) (env : Env)
        → Memᴰ k (key_images_of tx)
        → key_image_exists w c db k env ≡ true
        → validate_new fl w c db tx env ≢ success
    unfolding validate_new key_images_of
    spent_rejected_new k (Transaction.normal tx) env m h =
        ground (arith, any_key_image_exists-true k _ env m h)
    spent_rejected_new k (Transaction.stake tx) env m h =
        ground (arith, any_key_image_exists-true k _ env m h)
    spent_rejected_new k (Transaction.recall_stake tx) env m h =
        ground (arith, any_key_image_exists-true k _ env m h)
    spent_rejected_new k (Transaction.genesis tx) env m h = absurd (Memᴰ.not-nil m)
    spent_rejected_new k (Transaction.staker tx) env m h = absurd (Memᴰ.not-nil m)
    spent_rejected_new k (Transaction.stake_refund tx) env m h = absurd (Memᴰ.not-nil m)

    module _ (laws : LmdbLaws db) where
      spent_exists :
          (fuel : ℕ) (b : Block) (txs : List Transaction) (env env' : Env) (tx : Transaction)
          (k : ℕ)
          → put_block w c db fuel b txs env ≡ some (success, env')
          → Memᴰ tx txs
          → Memᴰ k (key_images_of tx)
          → key_image_exists w c db k env' ≡ true
      spent_exists fuel b txs env env' tx k stored m spent =
          let (_, _, found) = put_block-success w c db laws fuel b txs env env' stored in
          All-lookup _ _ (All-lookup _ txs found.found m).images spent

      -- Over an LMDB that obeys LmdbLaws: once put_block has stored a block, validate accepts no
      -- committed transaction that spends a key image of one of the block's transactions.
      pub validate-double_spend :
          (fuel : ℕ) (b : Block) (txs : List Transaction) (env env' : Env) (base58 : Base58)
          (terms : GenesisTerms) (block_index : ℕ) (tx again : Transaction) (k : ℕ)
          → put_block w c db fuel b txs env ≡ some (success, env')
          → Memᴰ tx txs
          → Memᴰ k (key_images_of tx)
          → Memᴰ k (key_images_of again)
          → validate fl w c db base58 terms block_index again env' ≢ some success
      unfolding validate
      validate-double_spend fuel b txs env env' base58 terms block_index tx again k stored m spent
            respent h =
          spent_rejected_new k again env' respent
            (spent_exists fuel b txs env env' tx k stored m spent)
            (some-injective _ _ (>>-success _ _ h).1)

      -- Over an LMDB that obeys LmdbLaws: once put_block has stored a block, validate accepts no
      -- uncommitted transaction that spends a key image of one of the block's transactions.
      pub validate_uncommitted-double_spend :
          (fuel : ℕ) (b : Block) (txs : List Transaction) (env env' : Env) (block_index : ℕ)
          (tx : Transaction) (again : UncommittedTransaction) (k : ℕ)
          → put_block w c db fuel b txs env ≡ some (success, env')
          → Memᴰ tx txs
          → Memᴰ k (key_images_of tx)
          → Memᴰ k (uncommitted_body again).key_images
          → validate_uncommitted fl w c db block_index again env' ≢ some success
      validate_uncommitted-double_spend fuel b txs env env' block_index tx again k stored m spent
            respent h =
          let free =
            All-lookup _ _
              (validate_uncommitted-IsAccepted fl w c db block_index again env' h).unspent
              respent in
          cc (free, spent_exists fuel b txs env env' tx k stored m spent)
