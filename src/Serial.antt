-- ===== src/Serial.antt =====
-- The byte streams of the crypto library's serializer_t and deserializer_t, which the structures'
-- serialize and deserialize methods call. That library is a git submodule, so its encodings are the
-- parameter `Wire`; what the structures do with them is modelled.
-- A key or hash (32 bytes) and a signature (64 bytes) is the number of its place in the order of
-- the type's `operator<`; a ring signature and a range proof are numbered as well.
pub mod Laws
use turtlecoin_v.Base.{ℕ, zero, suc, ◌+◌, ◌^◌, ◌<◌, Bool, Option, none, some, List, [], ◌∷◌, ◌++◌}

abbrev pub Bytes : Type 0
Bytes = List ℕ

-- `deserializer_t`: the bytes not read yet are the state, and `none` is an exception.
abbrev pub Reader : Type 0 → Type 0
Reader A = Bytes → Option (A × Bytes)

infixl 5 ◌>>=◌
unfoldable pub ◌>>=◌ : {A B : Type 0} → Reader A → (A → Reader B) → Reader B
◌>>=◌ r f bs = elim (r bs) [ none ↦ none | some (a, rest) ↦ f a rest ]

unfoldable pub return : {A : Type 0} → A → Reader A
return a bs = some (a, bs)

-- A read that throws.
abbrev pub throw : {A : Type 0} → Reader A
throw bs = none

-- `reader.varint<T>(true)` and the like: read, and leave the position where it was.
unfoldable pub peek : {A : Type 0} → Reader A → Reader A
peek r bs = elim (r bs) [ none ↦ none | some (a, rest) ↦ some (a, bs) ]

-- The calls of serializer_t and deserializer_t. A `read_varint` takes the width of its type in bits.
-- `key_serialize` and `signature_serialize` are the keys' own `serialize(writer)`;
-- `uint64` is the fixed-width form in which database keys are written.
pub record Wire : Type 0 where
  pub varint : ℕ → Bytes
  pub key : ℕ → Bytes
  pub signature : ℕ → Bytes
  pub key_serialize : ℕ → Bytes
  pub signature_serialize : ℕ → Bytes
  pub boolean : Bool → Bytes
  pub uint64 : ℕ → Bytes
  pub key_vector : List ℕ → Bytes
  pub bytes : Bytes → Bytes
  pub clsag : ℕ → Bytes
  pub range_proof : ℕ → Bytes
  pub read_varint : ℕ → Reader ℕ
  pub read_key : Reader ℕ
  pub read_signature : Reader ℕ
  pub read_boolean : Reader Bool
  pub read_key_vector : Reader (List ℕ)
  pub read_bytes : ℕ → Reader Bytes
  pub read_clsag : Reader ℕ
  pub read_range_proof : Reader ℕ

-- What successive calls of a writer leave in its buffer.
abbrev pub emit : List Bytes → Bytes
emit [] = []
emit (chunk ∷ chunks) = chunk ++ emit chunks

-- `for (const auto &x : xs) { x.serialize(writer); }`
unfoldable pub write_each : {A : Type 0} → (A → Bytes) → List A → Bytes
write_each f [] = []
write_each f (x ∷ xs) = f x ++ write_each f xs

-- `for (size_t i = 0; i < count; ++i) { xs.emplace_back(reader); }`
unfoldable pub read_many : {A : Type 0} → ℕ → Reader A → Reader (List A)
read_many zero r = return []
read_many (suc n) r = do x ← r; xs ← read_many n r; return (x ∷ xs)

-- The ranges of the values that the structures hold.
abbrev pub IsU16 : ℕ → Type 0
IsU16 n = n < 2 ^ 16

abbrev pub IsU64 : ℕ → Type 0
IsU64 n = n < 2 ^ 64

abbrev pub IsKey : ℕ → Type 0
IsKey n = n < 2 ^ 256

abbrev pub IsSignature : ℕ → Type 0
IsSignature n = n < 2 ^ 512
