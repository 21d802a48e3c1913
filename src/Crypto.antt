-- ===== src/Crypto.antt =====
-- The crypto library, a git submodule: its functions are a parameter of the model.
-- Keys, hashes, commitments and signatures are numbers, as module Serial says.
use turtlecoin_v.Base.{ℕ, Bool, List}
use turtlecoin_v.Serial.{Bytes}

pub record Crypto : Type 0 where
  -- `Crypto::Hashing`: over bytes, over a vector of hashes, and the proof of work
  pub sha3 : Bytes → ℕ
  pub sha3_hashes : List ℕ → ℕ
  pub argon2id : ℕ → ℕ → ℕ → ℕ → ℕ
  pub leading_zeros : ℕ → ℕ
  -- default-constructed values, and `empty()` of a key or hash and of a signature
  pub key_default : ℕ
  pub signature_default : ℕ
  pub key_empty : ℕ → Bool
  pub signature_empty : ℕ → Bool
  -- key images
  pub check_subgroup : ℕ → Bool
  pub dedupe_sort : List ℕ → List ℕ
  -- keys and plain signatures (digest, public key, signature); `crypto_z` is `Crypto::Z`
  pub crypto_z : ℕ
  pub secret_key_to_public_key : ℕ → ℕ
  pub generate_signature : ℕ → ℕ → ℕ
  pub check_signature : ℕ → ℕ → ℕ → Bool
  -- one-time keys
  pub generate_key_derivation : ℕ → ℕ → ℕ
  pub derivation_to_scalar : ℕ → ℕ → ℕ
  pub derive_public_key : ℕ → ℕ → ℕ
  -- `Crypto::RingCT`
  pub generate_commitment_blinding_factor : ℕ → ℕ
  pub generate_amount_mask : ℕ → ℕ
  pub toggle_masked_amount : ℕ → ℕ → ℕ
  pub generate_pedersen_commitment : ℕ → ℕ → ℕ
  pub check_commitments_parity : List ℕ → List ℕ → ℕ → Bool
  -- range proofs and ring signatures
  pub range_proof_construction : ℕ → Bool
  pub range_proof_hash : ℕ → ℕ
  pub range_proof_verify : ℕ → List ℕ → Bool
  pub clsag_construction : ℕ → ℕ → Bool
  pub check_ring_signature : ℕ → ℕ → List ℕ → ℕ → List ℕ → Bool
