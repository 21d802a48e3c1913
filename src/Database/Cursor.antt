-- ===== src/Database/Cursor.antt =====
-- The reads of `LMDBCursor` (src/database/db_lmdb.h and .cpp) at a key. What the C library returns
-- for a cursor of a transaction and a database, moved to a key, is a parameter.
use turtlecoin_v.Base.{
  ℕ, ◌≡◌, refl, Bool, not, ◌||◌, Option, some, none, List, [], ◌∷◌, ◌++◌, map, if◌then◌else◌,
}
use turtlecoin_v.Errors.{Error, success, fail, ErrorCode, Outcome, ok, err, thrown}
use turtlecoin_v.Errors.ErrorCode.{lmdb_error, lmdb_empty}
use turtlecoin_v.Serial.{Bytes, Reader, Wire}

-- `mdb_cursor_get`: an entry, or an error.
pub data Position : Type 0 where
  found : (key value : Bytes) → Position
  failed : ErrorCode → Position

-- The operation `MDB_SET_RANGE`: the first entry whose key is not below the given one. The second
-- field is `uint64` of a reader, in the order of bytes that the wrapper asks for.
pub record Cursor (Txn : Type 0) : Type 0 where
  pub set_range : Txn → ℕ → Bytes → Position
  pub read_uint64 : Reader ℕ

-- The calls of the C library on a cursor that is there; without one they are errors. `is_open` says that
-- m_cursor is not null, and the last argument is what the library returns.
unfoldable pub count : (is_open : Bool) → Error × ℕ → Error × ℕ
count is_open result = if not is_open then (fail lmdb_error, 0) else result

unfoldable pub del : (is_open : Bool) → Error → Error
del is_open result = if not is_open then fail lmdb_error else result

unfoldable pub renew : (is_open readonly : Bool) → Error → Error
renew is_open readonly result = if not is_open || not readonly then fail lmdb_error else result

-- The overload without a key; an error gives no bytes.
unfoldable pub get_at : (is_open : Bool) → Position → Error × Bytes × Bytes
get_at is_open position =
    if not is_open
    then (fail lmdb_error, [], [])
    else elim position [ found key value ↦ (success, key, value) | failed e ↦ (fail e, [], []) ]

-- The loop of `get_all` over what MDB_SET and then MDB_NEXT_DUP return, up to the first error; `none`
-- means that there is none among them.
unfoldable pub collect : List Position → Option (List Bytes)
collect [] = none
collect (failed e ∷ positions) = some []
collect (found key value ∷ positions) = elim (collect positions) [
  | none ↦ none
  | some values ↦ some (value ∷ values)
]

unfoldable pub get_all : Bytes → List Position → Option (Error × Bytes × List Bytes)
get_all key positions = elim (collect positions) [
  | none ↦ none
  | some [] ↦ some (fail lmdb_empty, key, [])
  | some (v ∷ vs) ↦ some (success, key, v ∷ vs)
]

collect-found :
    (key : Bytes) (values : List Bytes) (e : ErrorCode) (behind : List Position)
    → collect (map (found key) values ++ (failed e ∷ behind)) ≡ some values
unfolding collect
collect-found key [] e behind = refl
collect-found key (v ∷ vs) e behind = rw (collect-found key vs e behind) refl

-- An entry's duplicates are all read: a key that is found with these values gives them, in order, and
-- what lies behind the first error is not looked at.
get_all-values :
    (key : Bytes) (value : Bytes) (values : List Bytes) (e : ErrorCode) (behind : List Position)
    → get_all key (map (found key) (value ∷ values) ++ (failed e ∷ behind))
      ≡ some (success, key, value ∷ values)
unfolding get_all collect
get_all-values key value values e behind = rw (collect-found key values e behind) refl

-- The overload for numbers, which reads the key again.
unfoldable pub get_all_uint64 :
    Wire → Reader ℕ → ℕ → List Position → Option (Outcome (ℕ × List Bytes))
get_all_uint64 w read_uint64 key positions = elim (get_all (w.uint64 key) positions) [
  | none ↦ none
  | some (fail e, _, _) ↦ some (err e)
  | some (success, bytes, values) ↦ elim (read_uint64 bytes) [
    | none ↦ some thrown
    | some (k, _) ↦ some (ok (k, values))
  ]
]

-- The overload of `put` for numbers, over the C library's call.
unfoldable pub put_uint64 : Wire → (store : Bytes → Bytes → Error) → ℕ → Bytes → Error
put_uint64 w store key value = store (w.uint64 key) value

module _ (w : Wire) {Txn : Type 0} (cursor : Cursor Txn) where
  -- Key and value of an entry, the key as `r` reads it.
  unfoldable pub get_as : {K : Type 0} → Reader K → Txn → ℕ → Bytes → Outcome (K × Bytes)
  get_as r t d bytes = elim (cursor.set_range t d bytes) [
    | failed e ↦ err e
    | found key value ↦ elim (r key) [ none ↦ thrown | some (k, _) ↦ ok (k, value) ]
  ]

  -- The template with a structure as the key, for a hash.
  unfoldable pub get : Txn → ℕ → ℕ → Outcome (ℕ × Bytes)
  get t d key = get_as w.read_key t d (w.key_serialize key)

  unfoldable pub get_uint64 : Txn → ℕ → ℕ → Outcome (ℕ × Bytes)
  get_uint64 t d key = get_as cursor.read_uint64 t d (w.uint64 key)

  -- The template with a number as the key and a structure as the value, for a hash.
  unfoldable pub get_uint64_value : Txn → ℕ → ℕ → Outcome (ℕ × ℕ)
  get_uint64_value t d key = elim (get_uint64 t d key) [
    | err e ↦ err e
    | thrown ↦ thrown
    | ok (k, value) ↦ elim (w.read_key value) [ none ↦ thrown | some (v, _) ↦ ok (k, v) ]
  ]
