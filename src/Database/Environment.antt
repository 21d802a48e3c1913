-- ===== src/Database/Environment.antt =====
-- The environment and the transactions of src/database/db_lmdb.cpp as a machine of states: the count
-- of open transactions, which the map's resizing looks at, and the transaction objects. The results
-- of the calls of the C library are arguments.
pub mod Counting
use turtlecoin_v.Base.{
  ℕ, zero, suc, Option, none, some, ltb, ◌⊎◌, inl, inr, ◌+◌, ◌-◌, ◌*◌, ◌==◌, Bool, true, false,
  List, [], ◌∷◌, ◌++◌, not, ◌&&◌, ◌||◌, if◌then◌else◌, length, leb,
}
use turtlecoin_v.Errors.{Error, success, fail, ErrorCode, Outcome, ok, err, thrown}
use turtlecoin_v.Errors.ErrorCode.{lmdb_error, lmdb_bad_txn, lmdb_map_resized}

-- An `LMDBTransaction`: m_readonly, and whether m_txn is there.
pub record Transaction : Type 0 where
  pub readonly : Bool
  pub live : Bool

-- An `LMDB`: whether m_env is there, m_open_txns, the size of the map as the C library has it, and
-- the transaction objects made so far, by number.
pub record Environment : Type 0 where
  pub is_open : Bool
  pub open_txns : ℕ
  pub map_size : ℕ
  pub transactions : List Transaction

-- `MDB_envinfo` and `MDB_stat` as far as they are read.
pub record EnvInfo : Type 0 where
  pub map_size : ℕ

pub record EnvStat : Type 0 where
  pub page_size : ℕ

unfoldable pub transaction_register : Transaction → Environment → Environment
transaction_register t e = if t.readonly then e else record e { open_txns = e.open_txns + 1 }

unfoldable pub transaction_unregister : Transaction → Environment → Environment
transaction_unregister t e =
    if t.readonly
    then e
    else if e.open_txns == 0
    then e
    else record e { open_txns = e.open_txns - 1 }

-- `result` is that of mdb_env_set_mapsize, which with the size 0 takes the size that another process
-- has set.
unfoldable pub detect_map_size : Error → ℕ → Environment → Error × Environment
detect_map_size result size e =
    if not (e.open_txns == 0)
    then (fail lmdb_error, e)
    else elim result [ success ↦ (success, record e { map_size = size }) | fail x ↦ (fail x, e) ]

-- `info()` and `stats()`, by the results of the calls that they make.
unfoldable pub info : ErrorCode ⊎ EnvInfo → Environment → ErrorCode ⊎ EnvInfo
info result e = if e.is_open then result else inl lmdb_error

unfoldable pub stats : ErrorCode ⊎ EnvStat → Environment → ErrorCode ⊎ EnvStat
stats result e = if e.is_open then result else inl lmdb_error

unfoldable pub set_map_size : Error → ℕ → Environment → Error × Environment
set_map_size success size e = (success, record e { map_size = size })
set_map_size (fail x) size e = (fail x, e)

-- `expand(pages)`
unfoldable pub expand :
    ErrorCode ⊎ EnvInfo → ErrorCode ⊎ EnvStat → Error → ℕ → Environment → Error × Environment
expand info_result stats_result result pages e =
    if not (e.open_txns == 0) then (fail lmdb_error, e) else elim (info info_result e) [
      | inl x ↦ (fail x, e)
      | inr l_info ↦ elim (stats stats_result e) [
        | inl x ↦ (fail x, e)
        | inr l_stats ↦ set_map_size result (l_stats.page_size * pages + l_info.map_size) e
      ]
    ]

unfoldable pub flush : Error → Environment → Error
flush result e = if e.is_open then result else fail lmdb_error

-- `close`, which does not look at the count.
unfoldable pub close : Error → Environment → Error × Environment
close result e = elim (flush result e) [
  | fail x ↦ (fail x, e)
  | success ↦ (success, record e { is_open = false })
]

-- The loop of `txn_setup` from the try `i` on: what mdb_txn_begin returns at each try, and what the
-- detection of the size meets. `false` is the exception.
unfoldable pub begin_tries :
    (ℕ → Error) → (ℕ → Error × ℕ) → ℕ → ℕ → Environment → Bool × Environment
begin_tries begun sizes zero i e = (true, e)
begin_tries begun sizes (suc left) i e =
    let resized = detect_map_size (sizes i).0 (sizes i).1 e in
    let again = begin_tries begun sizes left (i + 1) resized.1 in
    elim (begun i) [
      | success ↦ (true, e)
      | fail lmdb_map_resized ↦ if ltb i 2 then again else (false, e)
      | fail _ ↦ (false, e)
    ]

-- The constructor of a transaction, with the object that it makes.
unfoldable pub begin_transaction :
    (ℕ → Error) → (ℕ → Error × ℕ) → Bool → Environment → Bool × Environment
begin_transaction begun sizes readonly e =
    let (done, e') = begin_tries begun sizes 3 0 e in
    let t : Transaction = record { readonly = readonly; live = true } in
    if done
    then (true, transaction_register t (record e' { transactions = e'.transactions ++ (t ∷ []) }))
    else (false, e')

unfoldable pub at : ℕ → List Transaction → Option Transaction
at i [] = none
at zero (t ∷ ts) = some t
at (suc i) (t ∷ ts) = at i ts

-- `m_txn = nullptr`
unfoldable pub end_at : ℕ → List Transaction → List Transaction
end_at i [] = []
end_at zero (t ∷ ts) = record t { live = false } ∷ ts
end_at (suc i) (t ∷ ts) = t ∷ end_at i ts

unfoldable pub end_transaction : ℕ → Transaction → Environment → Environment
end_transaction i t e =
    transaction_unregister t (record e { transactions = end_at i e.transactions })

-- `abort`, and the destructor.
unfoldable pub abort : ℕ → Environment → Environment
abort i e = elim (at i e.transactions) [
  | none ↦ e
  | some t ↦ if not t.live then e else end_transaction i t e
]

-- `commit`; `result` is that of mdb_txn_commit.
unfoldable pub commit : Error → ℕ → Environment → Error × Environment
commit result i e = elim (at i e.transactions) [
  | none ↦ (fail lmdb_error, e)
  | some t ↦ if not t.live then (fail lmdb_error, e) else (result, end_transaction i t e)
]

-- `renew` and `reset`, both of which call mdb_txn_renew.
unfoldable pub renew : Error → Transaction → Error
renew result t = if not t.live || not t.readonly then fail lmdb_bad_txn else result

unfoldable pub reset : Error → Transaction → Error
reset result t = if not t.live || not t.readonly then fail lmdb_bad_txn else result
