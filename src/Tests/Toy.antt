-- ===== src/Tests/Toy.antt =====
-- Concrete external functions for the tests: a crypto library on numbers, floats in hundredths, a
-- coder of addresses, and stores.
use turtlecoin_v.Base.{
  ℕ, ◌+◌, ◌-◌, ◌*◌, ◌/◌, ◌≤◌, ◌≡◌, ◌≢◌, ◌↔◌, ◌⊎◌, inl, inr, refl, Bool, true, false, ◌&&◌, Option,
  none, some, List, [], ◌∷◌, length, All, ◌==◌, ltb, if◌then◌else◌, Bool-cases, arith,
}
use turtlecoin_v.Errors.{success, fail}
use turtlecoin_v.Errors.ErrorCode.{lmdb_map_full}
use turtlecoin_v.Serial.{Bytes}
use turtlecoin_v.Crypto.{Crypto}
use turtlecoin_v.Chain.UserChecks.Laws.{DedupeLaw}
use turtlecoin_v.Chain.Block.Signing.{SignatureLaw}
use turtlecoin_v.Fees.{Floats}
use turtlecoin_v.Fees.Laws.{FloatLaws}
use turtlecoin_v.Database.{Lmdb}
use turtlecoin_v.Database.Laws.{LmdbLaws}
use native.Mathlib.Nat.{mul-le-mul_left}

abbrev total : List ℕ → ℕ
total [] = 0
total (x ∷ xs) = x + total xs

abbrev occurs : ℕ → List ℕ → Bool
occurs x [] = false
occurs x (y ∷ ys) = let later = occurs x ys in if x == y then true else later

abbrev dedupe : List ℕ → List ℕ
dedupe [] = []
dedupe (x ∷ xs) = let rest = dedupe xs in if occurs x xs then rest else x ∷ rest

abbrev pub toy : Crypto
toy = record {
  sha3 = total;
  sha3_hashes = total;
  argon2id = λ h iterations memory threads. h;
  leading_zeros = λ h. h;
  key_default = 0;
  signature_default = 0;
  key_empty = λ k. k == 0;
  signature_empty = λ s. s == 0;
  check_subgroup = λ k. ltb 0 k;
  dedupe_sort = dedupe;
  crypto_z = 0;
  secret_key_to_public_key = λ k. k + 1;
  generate_signature = λ digest k. digest + (k + 1);
  check_signature = λ digest k s. s == digest + k;
  generate_key_derivation = λ view k. view + k;
  derivation_to_scalar = λ d i. d + i;
  derive_public_key = λ s k. s + k;
  generate_commitment_blinding_factor = λ s. s;
  generate_amount_mask = λ s. s;
  toggle_masked_amount = λ mask a. a - mask;
  generate_pedersen_commitment = λ blinding a. blinding + a;
  check_commitments_parity = λ pseudo outputs fee. total pseudo == total outputs + fee;
  range_proof_construction = λ p. ltb 0 p;
  range_proof_hash = λ p. p + 1;
  range_proof_verify = λ p commitments. p == total commitments;
  clsag_construction = λ size s. ltb 0 s;
  check_ring_signature = λ digest k keys s commitments. s == k;
}

occurs-false_iff : (x : ℕ) (xs : List ℕ) → (occurs x xs ≡ false) ↔ All (λ y. x ≢ y) xs
occurs-false_iff x [] = ground arith
occurs-false_iff x (y ∷ ys) = ground (arith, occurs-false_iff x ys)

dedupe_le : (xs : List ℕ) → length (dedupe xs) ≤ length xs
dedupe_le [] = omega arith
dedupe_le (x ∷ xs) = ground (arith, dedupe_le xs)

pub toy_dedupe : DedupeLaw toy
toy_dedupe [] = ground arith
toy_dedupe (x ∷ xs) = ground (arith, occurs-false_iff x xs, toy_dedupe xs, dedupe_le xs)

pub toy_signature : SignatureLaw toy
toy_signature k digest = ground arith

-- Floats in hundredths, rounded down.
abbrev pub hundredths : Floats ℕ
hundredths = record {
  of_nat = λ n. n * 100;
  sub = λ a b. a - b;
  mul = λ a b. a * b / 100;
  div = λ a b. a * 100 / b;
  floor_u64 = λ a. a / 100;
  ceil_quotient = λ m n. (m + (n - 1)) / n;
}

-- A store keeps its entries in a function, and always has room.
abbrev pub Store : Type 0
Store = ℕ → Bytes → Option Bytes

abbrev pub empty_store : Store
empty_store d k = none

abbrev same_bytes : Bytes → Bytes → Bool
same_bytes [] [] = true
same_bytes [] (y ∷ ys) = false
same_bytes (x ∷ xs) [] = false
same_bytes (x ∷ xs) (y ∷ ys) = (x == y) && same_bytes xs ys

abbrev pub entry : ℕ → Bytes → Option Bytes → Store → Store
entry d k v s d' k' = if (d' == d) && same_bytes k' k then v else s d' k'

abbrev pub store : Lmdb Store Store
store = record {
  begin = λ s. s;
  get = λ s d k. s d k;
  put = λ s d k v. (success, entry d k (some v) s);
  del = λ s d k. (success, entry d k none s);
  del_value = λ s d k v. (success, entry d k none s);
  commit = λ env s. (success, s);
  count = λ env d. 0;
  expand = λ env. (success, env);
}

same_bytes_iff : (xs ys : Bytes) → (same_bytes xs ys ≡ true) ↔ (xs ≡ ys)
same_bytes_iff [] [] = ground arith
same_bytes_iff [] (y ∷ ys) = ground arith
same_bytes_iff (x ∷ xs) [] = ground arith
same_bytes_iff (x ∷ xs) (y ∷ ys) = ground (arith, same_bytes_iff xs ys)

entry_same : (d : ℕ) (k : Bytes) (v : Option Bytes) (s : Store) → entry d k v s d k ≡ v
entry_same d k v s = ground (arith, same_bytes_iff k k)

entry_other :
    (d : ℕ) (k : Bytes) (v : Option Bytes) (s : Store) (d' : ℕ) (k' : Bytes)
    → (entry d k v s d' k' ≡ s d' k') ⊎ ((d' ≡ d) × (k' ≡ k))
entry_other d k v s d' k' = elim (Bool-cases ((d' == d) && same_bytes k' k)) [
  | inl e ↦ inr (ground arith, (same_bytes_iff k' k).0 (ground arith))
  | inr e ↦ inl (rw e refl)
]

-- An environment that counts its room: each write takes one, and each expansion gives one.
abbrev pub tiny : Lmdb ℕ ℕ
tiny = record {
  begin = λ room. room;
  get = λ room d k. none;
  put = λ room d k v. if room == 0 then (fail lmdb_map_full, room) else (success, room - 1);
  del = λ room d k. (success, room);
  del_value = λ room d k v. (success, room);
  commit = λ env room. (success, env);
  count = λ env d. 0;
  expand = λ env. (success, env + 1);
}

product_small :
    (base n : ℕ)
    → n ≤ 15
    → base * 100 * (n * 100 * (2 * 100) / 100 * 100 / (100 * 100)) / 100 / 100 ≤ base
product_small base n h =
    let small : n * 100 * (2 * 100) / 100 * 100 / (100 * 100) ≤ 30 = omega arith in
    let product = mul-le-mul_left (base * 100) small in omega (arith, product)

pub hundredths_laws : FloatLaws hundredths
hundredths_laws = record {
  quotient_exact = λ m h. refl;
  sub_exact = λ m n le small. omega arith;
  product_small = product_small;
  product_zero = λ base. omega arith;
}

pub store_laws : LmdbLaws store
store_laws = record {
  put_same = λ t t' d k v e. cc (entry_same d k (some v) t, e);
  put_other = λ t t' d k v d' k' e. elim (entry_other d k (some v) t d' k') [
    | inl same ↦ inl (cc (same, e))
    | inr here ↦ inr here
  ];
  del_same = λ t t' d k e. cc (entry_same d k none t, e);
  del_other = λ t t' d k d' k' e. elim (entry_other d k none t d' k') [
    | inl same ↦ inl (cc (same, e))
    | inr here ↦ inr here
  ];
  del_value_absent = λ t t' d k v d' k' e absent. elim (entry_other d k none t d' k') [
    | inl same ↦ cc (same, e, absent)
    | inr (same_d, same_k) ↦ cc (entry_same d k none t, same_d, same_k, e)
  ];
  commit_done = λ env env' t d k e. cc;
  commit_failed = λ env env' t x d k e. cc;
  expand_same = λ env d k. refl;
}
