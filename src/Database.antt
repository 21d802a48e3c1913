-- ===== src/Database.antt =====
-- LMDB as the wrapper of src/database/db_lmdb.h uses it. The C library is not part of the
-- repository, so its transactions and environments are a parameter; the wrapper's calls on a
-- transaction, and the macro that expands the map and tries again, are modelled.
pub mod Laws
pub mod Environment
pub mod Present
pub mod Retry
pub mod Named
pub mod Cursor
use turtlecoin_v.Base.{ℕ, zero, suc, Bool, true, false, Option, none, some, List, [], ◌∷◌}
use turtlecoin_v.Errors.{Error, success, fail, ErrorCode}
use turtlecoin_v.Errors.ErrorCode.{lmdb_map_full, lmdb_txn_full}
use turtlecoin_v.Serial.{Bytes}

-- `Txn` is a transaction with what it has written; `Env` is an environment with what has been
-- committed. A failed `get` gives no value, and its code is not looked at by the callers.
pub record Lmdb (Txn Env : Type 0) : Type 0 where
  pub begin : Env → Txn
  pub get : Txn → ℕ → Bytes → Option Bytes
  pub put : Txn → ℕ → Bytes → Bytes → Error × Txn
  pub del : Txn → ℕ → Bytes → Error × Txn
  pub del_value : Txn → ℕ → Bytes → Bytes → Error × Txn
  pub commit : Env → Txn → Error × Env
  pub count : Env → ℕ → ℕ
  pub expand : Env → Error × Env

-- A step of a transaction: what it writes, and an error that ends the chain.
abbrev pub Action : Type 0 → Type 0
Action Txn = Txn → Error × Txn

abbrev pub continue_with : {Txn : Type 0} → Action Txn → Error × Txn → Error × Txn
continue_with rest (success, t) = rest t
continue_with rest (fail e, t) = (fail e, t)

infixl 5 ◌>>◌
unfoldable pub ◌>>◌ : {Txn : Type 0} → Action Txn → Action Txn → Action Txn
◌>>◌ first rest t = continue_with rest (first t)

-- A loop whose body returns on an error.
unfoldable pub each : {Txn A : Type 0} → (A → Action Txn) → List A → Action Txn
each f [] t = (success, t)
each f (x ∷ xs) t = continue_with (each f xs) (f x t)

-- The test of `MDB_CHECK_TXN_EXPAND`.
unfoldable pub is_full : Error → Bool
is_full (fail lmdb_map_full) = true
is_full (fail lmdb_txn_full) = true
is_full _ = false

module _ {Txn Env : Type 0} (db : Lmdb Txn Env) where
  -- A transaction that runs `action` and commits; leaving the scope on an error aborts it.
  unfoldable pub attempt : Action Txn → Env → Error × Env
  attempt action env =
      let (e, t) = action (db.begin env) in
      elim e [ success ↦ db.commit env t | fail x ↦ (fail x, env) ]

  -- `MDB_CHECK_TXN_EXPAND`: a full map is expanded, and the work begins again at the label. `none`
  -- means that the fuel ran out.
  unfoldable pub retry : ℕ → Action Txn → Env → Option (Error × Env)
  retry zero action env = none
  retry (suc fuel) action env =
      let (e, env') = attempt action env in
      let (x, env'') = db.expand env' in
      elim (is_full e) [
        | false ↦ some (e, env')
        | true ↦ elim x [ success ↦ retry fuel action env'' | fail _ ↦ some (e, env'') ]
      ]

  -- A read-only transaction.
  unfoldable pub read : Env → ℕ → Bytes → Option Bytes
  read env d k = db.get (db.begin env) d k

  unfoldable pub exists : Env → ℕ → Bytes → Bool
  exists env d k = elim (db.get (db.begin env) d k) [ none ↦ false | some _ ↦ true ]
