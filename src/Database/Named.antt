-- ===== src/Database/Named.antt =====
-- `LMDBDatabase` (src/database/db_lmdb.cpp): the methods that run in a transaction of their own.
-- `none` of a write means that the fuel for retries ran out.
use turtlecoin_v.Base.{ℕ, ◌≡◌, Option, some, none, ◌⊎◌, inl, inr, ◌∙◌, List, [], ◌∷◌}
use turtlecoin_v.Errors.{Error, success, fail}
use turtlecoin_v.Serial.{Bytes}
use turtlecoin_v.Database.{Lmdb, retry, read}
use turtlecoin_v.Database.Laws.{LmdbLaws, SameData}
use turtlecoin_v.Database.Retry.{attempt-commits, Outcomes, retry-Outcomes}

module _ {Txn Env : Type 0} (db : Lmdb Txn Env) where
  unfoldable pub put : ℕ → ℕ → Bytes → Bytes → Env → Option (Error × Env)
  put fuel d k v env = retry db fuel (λ t. db.put t d k v) env

  unfoldable pub del : ℕ → ℕ → Bytes → Env → Option (Error × Env)
  del fuel d k env = retry db fuel (λ t. db.del t d k) env

  unfoldable pub del_value : ℕ → ℕ → Bytes → Bytes → Env → Option (Error × Env)
  del_value fuel d k v env = retry db fuel (λ t. db.del_value t d k v) env

  -- `get_all`, over the keys that `list_keys` found: a key without a value is passed over.
  unfoldable pub get_all : ℕ → List Bytes → Env → List Bytes
  get_all d [] env = []
  get_all d (k ∷ ks) env = elim (read db env d k) [
    | none ↦ get_all d ks env
    | some v ↦ v ∷ get_all d ks env
  ]

  -- The two sides agree but for the entry of one key.
  pub record Updates (env env' : Env) (d : ℕ) (k : Bytes) : Type 0 where
    pub others :
        (d' : ℕ) (k' : Bytes) → (read db env' d' k' ≡ read db env d' k') ⊎ ((d' ≡ d) × (k' ≡ k))

  -- What an answer says about the data.
  abbrev pub PutOutcome : ℕ → Bytes → Bytes → Env → Error × Env → Type 0
  PutOutcome d k v env (success, env') = (read db env' d k ≡ some v) × Updates env env' d k
  PutOutcome d k v env (fail x, env') = SameData db env env'

  abbrev pub DelOutcome : ℕ → Bytes → Env → Error × Env → Type 0
  DelOutcome d k env (success, env') = (read db env' d k ≡ none) × Updates env env' d k
  DelOutcome d k env (fail x, env') = SameData db env env'

  module _ (laws : LmdbLaws db) where
    put-PutOutcome :
        (d : ℕ) (k v : Bytes) (env : Env) (out : Error × Env)
        → Outcomes db laws (λ t. db.put t d k v) env out
        → PutOutcome d k v env out
    unfolding read
    put-PutOutcome d k v env (Error.success, env') (before, same, e) =
        let (t, done, visible) = attempt-commits db laws (λ t. db.put t d k v) before env' e in
        (
          visible d k ∙ laws.put_same (db.begin before) t d k v done,
          record {
            others = λ d' k'. elim (laws.put_other (db.begin before) t d k v d' k' done) [
              | inl kept ↦ inl (visible d' k' ∙ kept ∙ same.same d' k')
              | inr at_key ↦ inr at_key
            ];
          },
        )
    put-PutOutcome d k v env (Error.fail x, env') same = same

    del-DelOutcome :
        (d : ℕ) (k : Bytes) (env : Env) (out : Error × Env)
        → Outcomes db laws (λ t. db.del t d k) env out
        → DelOutcome d k env out
    unfolding read
    del-DelOutcome d k env (Error.success, env') (before, same, e) =
        let (t, done, visible) = attempt-commits db laws (λ t. db.del t d k) before env' e in
        (
          visible d k ∙ laws.del_same (db.begin before) t d k done,
          record {
            others = λ d' k'. elim (laws.del_other (db.begin before) t d k d' k' done) [
              | inl kept ↦ inl (visible d' k' ∙ kept ∙ same.same d' k')
              | inr at_key ↦ inr at_key
            ];
          },
        )
    del-DelOutcome d k env (Error.fail x, env') same = same

    -- Over an LMDB that obeys LmdbLaws: a put on a database refines the update of a map from keys
    -- to values; if it succeeds, its key has the value and other entries are as before, and if it
    -- fails, all data are as before.
    pub put_refines :
        (fuel d : ℕ) (k v : Bytes) (env : Env) (out : Error × Env)
        → put fuel d k v env ≡ some out
        → PutOutcome d k v env out
    unfolding put
    put_refines fuel d k v env out e =
        put-PutOutcome d k v env out (retry-Outcomes db laws fuel _ env out e)

    -- Refines the removal from a map.
    pub del_refines :
        (fuel d : ℕ) (k : Bytes) (env : Env) (out : Error × Env)
        → del fuel d k env ≡ some out
        → DelOutcome d k env out
    unfolding del
    del_refines fuel d k env out e =
        del-DelOutcome d k env out (retry-Outcomes db laws fuel _ env out e)
