-- ===== src/Tests/Cells.antt =====
-- A wire on which every number is one cell, and it reads back what it writes.
use turtlecoin_v.Base.{
  ℕ, zero, suc, ◌≡◌, refl, Bool, true, false, Option, none, some, List, [], ◌∷◌, ◌++◌, length, ap,
}
use turtlecoin_v.Serial.{Bytes, Reader, Wire}
use turtlecoin_v.Serial.Laws.{WireLaws}

abbrev one : ℕ → Bytes
one n = n ∷ []

abbrev pub read_one : Reader ℕ
read_one [] = none
read_one (n ∷ rest) = some (n, rest)

abbrev boolean : Bool → Bytes
boolean true = 1 ∷ []
boolean false = 0 ∷ []

abbrev read_boolean : Reader Bool
read_boolean [] = none
read_boolean (zero ∷ rest) = some (false, rest)
read_boolean (suc n ∷ rest) = some (true, rest)

abbrev push : ℕ → Option (Bytes × Bytes) → Option (Bytes × Bytes)
push n none = none
push n (some (taken, rest)) = some (n ∷ taken, rest)

abbrev read_cells : ℕ → Reader Bytes
read_cells zero bs = some ([], bs)
read_cells (suc n) [] = none
read_cells (suc n) (b ∷ bs) = push b (read_cells n bs)

abbrev vector : List ℕ → Bytes
vector ks = length ks ∷ ks

abbrev read_vector : Reader (List ℕ)
read_vector [] = none
read_vector (n ∷ rest) = read_cells n rest

abbrev pub cells : Wire
cells = record {
  varint = one;
  key = one;
  signature = one;
  key_serialize = one;
  signature_serialize = one;
  boolean = boolean;
  uint64 = one;
  key_vector = vector;
  bytes = λ bs. bs;
  clsag = one;
  range_proof = one;
  read_varint = λ width. read_one;
  read_key = read_one;
  read_signature = read_one;
  read_boolean = read_boolean;
  read_key_vector = read_vector;
  read_bytes = read_cells;
  read_clsag = read_one;
  read_range_proof = read_one;
}

cells_back : (ks rest : List ℕ) → read_cells (length ks) (ks ++ rest) ≡ some (ks, rest)
cells_back [] rest = refl
cells_back (k ∷ ks) rest = ap (push k) (cells_back ks rest)

boolean_back : (b : Bool) (rest : Bytes) → read_boolean (boolean b ++ rest) ≡ some (b, rest)
boolean_back true rest = refl
boolean_back false rest = refl

pub cells_laws : WireLaws cells
cells_laws = record {
  varint_back = λ width n small. record { back = λ rest. refl };
  key_back = λ k small. record { back = λ rest. refl };
  signature_back = λ s small. record { back = λ rest. refl };
  key_serialize_back = λ k small. record { back = λ rest. refl };
  signature_serialize_back = λ s small. record { back = λ rest. refl };
  boolean_back = λ b. record { back = boolean_back b };
  key_vector_back = λ ks small keys. record { back = cells_back ks };
  bytes_back = λ bs. record { back = cells_back bs };
  clsag_back = λ s. record { back = λ rest. refl };
  range_proof_back = λ p. record { back = λ rest. refl };
}
