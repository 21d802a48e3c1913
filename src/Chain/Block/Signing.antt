-- ===== src/Chain/Block/Signing.antt =====
-- About `validate_construction` and the signing methods of a block (include/blockchain/block.h).
use turtlecoin_v.Base.{
  ℕ, ◌≡◌, ◌≢◌, ◌<◌, ◌↔◌, ◌∙◌, refl, true, false, Option, none, some, List, [], ◌∷◌, ◌++◌, length,
  All, Bool-cases, inl, inr, arith,
}
use turtlecoin_v.Base.Ordered
use turtlecoin_v.Serial.{Wire}
use turtlecoin_v.Crypto.{Crypto}
use turtlecoin_v.Chain.Block.{
  Block, entry_key, append_validator_signature, serialize_head, has_producer, serialize_producer,
  serialize, message_digest, producer_sign, validator_sign, check_entries,
  validate_producer_signature, validate_validator_signatures, reward_has_outputs,
  validate_construction,
}

check_entries-true_iff :
    (c : Crypto) (d : ℕ) (es : List (ℕ × ℕ))
    → (check_entries c d es ≡ true) ↔ All (λ e. c.check_signature d e.0 e.1 ≡ true) es
unfolding check_entries
check_entries-true_iff c d [] = ground arith
check_entries-true_iff c d (e ∷ es) = ground (arith, check_entries-true_iff c d es)

-- The digests that the producer and the validators sign.
producer_digest : Wire → Crypto → Block → ℕ
producer_digest w c b = c.sha3 (serialize_head w b)

validator_digest : Wire → Crypto → Block → ℕ
validator_digest w c b = c.sha3 (serialize_head w b ++ serialize_producer w c b)

-- A reward is paid, the producer has signed the head and is no validator, and there are validators,
-- who all signed the head with the producer's signature.
pub record IsSigned (w : Wire) (c : Crypto) (b : Block) : Type 0 where
  pub rewarded : reward_has_outputs b.reward_tx ≡ true
  pub independent : Ordered.contains entry_key b.producer_public_key b.validator_signatures ≡ false
  pub produced :
      c.check_signature (c.sha3 (serialize_head w b)) b.producer_public_key b.producer_signature
      ≡ true
  pub some_validators : 0 < length b.validator_signatures
  pub named : has_producer c b ≡ true
  pub validated :
      All
        (λ e.
          c.check_signature (c.sha3 (serialize_head w b ++ serialize_producer w c b)) e.0 e.1
          ≡ true)
        b.validator_signatures

-- validate_construction accepts a block exactly when its reward has outputs, its producer is no
-- validator and signed the head, and at least one validator, and every one, signed the head with
-- the producer's signature.
pub validate_construction-true_iff :
    (w : Wire) (c : Crypto) (b : Block) → (validate_construction w c b ≡ some true) ↔ IsSigned w c b
unfolding validate_construction validate_producer_signature validate_validator_signatures
    message_digest serialize
validate_construction-true_iff w c b = ground (
  arith,
  check_entries-true_iff c (c.sha3 (serialize_head w b ++ serialize_producer w c b))
      b.validator_signatures,
)

-- What the signing code relies on: a signature checks against the key of its secret key.
abbrev pub SignatureLaw : Crypto → Type 0
SignatureLaw c =
    (secret_key digest : ℕ)
    → c.check_signature digest (c.secret_key_to_public_key secret_key)
        (c.generate_signature digest secret_key)
      ≡ true

-- Validators sign one after the other.
unfoldable pub sign_each : Wire → Crypto → List ℕ → Block → Option Block
sign_each w c [] b = some b
sign_each w c (k ∷ ks) b = elim (validator_sign w c k b) [
  | none ↦ none
  | some r ↦ sign_each w c ks r.0
]

-- The producer signs, and then the validators.
unfoldable pub sign_block : Wire → Crypto → ℕ → List ℕ → Block → Option Block
sign_block w c secret_key ks b = elim (producer_sign w c secret_key b) [
  | none ↦ none
  | some r ↦ sign_each w c ks r.0
]

module _ (w : Wire) (c : Crypto) (law : SignatureLaw c) where
  -- A produced block that has been signed by others so far, over the digest `d`.
  record IsPartlySigned (d : ℕ) (b : Block) : Type 0 where
    rewarded : reward_has_outputs b.reward_tx ≡ true
    produced :
        c.check_signature (c.sha3 (serialize_head w b)) b.producer_public_key b.producer_signature
        ≡ true
    named : has_producer c b ≡ true
    digest : c.sha3 (serialize_head w b ++ serialize_producer w c b) ≡ d
    independent : All (λ e. b.producer_public_key ≢ entry_key e) b.validator_signatures
    validated : All (λ e. c.check_signature d e.0 e.1 ≡ true) b.validator_signatures

  with_signature : ℕ → ℕ → Block → Block
  with_signature d k b =
      append_validator_signature (c.secret_key_to_public_key k) (c.generate_signature d k) b

  validator_sign-eq :
      (d k : ℕ) (b : Block)
      → IsPartlySigned d b
      → validator_sign w c k b
        ≡ some (with_signature d k b, c.secret_key_to_public_key k, c.generate_signature d k)
  unfolding validator_sign message_digest serialize with_signature
  validator_sign-eq d k b p = rw p.named (rw p.digest refl)

  with_signature-IsPartlySigned :
      (d k : ℕ) (b : Block)
      → IsPartlySigned d b
      → b.producer_public_key ≢ c.secret_key_to_public_key k
      → IsPartlySigned d (with_signature d k b)
        × (0 < length (with_signature d k b).validator_signatures)
        × ((with_signature d k b).producer_public_key ≡ b.producer_public_key)
  unfolding with_signature append_validator_signature serialize_head serialize_producer has_producer
  with_signature-IsPartlySigned d k b p ne =
      elim (Bool-cases
        (Ordered.contains entry_key (c.secret_key_to_public_key k) b.validator_signatures)) [
          | inl e ↦ rw e (p, Ordered.contains_pos entry_key _ _ e, refl)
          | inr e ↦ rw e (
            record {
              rewarded = p.rewarded;
              produced = p.produced;
              named = p.named;
              digest = p.digest;
              independent = Ordered.All-insert entry_key _ _ _ ne p.independent;
              validated = Ordered.All-insert entry_key _ _ _ (law k d) p.validated;
            },
            Ordered.length-insert_pos entry_key _ _,
            refl,
          )
        ]

  partly-IsSigned :
      (d : ℕ) (b : Block) → IsPartlySigned d b → 0 < length b.validator_signatures → IsSigned w c b
  partly-IsSigned d b p some_signed = record {
    rewarded = p.rewarded;
    independent = Ordered.contains_ne entry_key _ _ p.independent;
    produced = p.produced;
    some_validators = some_signed;
    named = p.named;
    validated = rw p.digest p.validated;
  }

  sign_each-next :
      (d k : ℕ) (ks : List ℕ) (b : Block)
      → IsPartlySigned d b
      → sign_each w c (k ∷ ks) b ≡ sign_each w c ks (with_signature d k b)
  unfolding sign_each
  sign_each-next d k ks b p = rw (validator_sign-eq d k b p, sign_each)

  sign_each-IsSigned :
      (d : ℕ) (ks : List ℕ) (b : Block)
      → IsPartlySigned d b
      → 0 < length b.validator_signatures
      → All (λ k. b.producer_public_key ≢ c.secret_key_to_public_key k) ks
      → (b' : Block) × (sign_each w c ks b ≡ some b') × IsSigned w c b'
  unfolding sign_each
  sign_each-IsSigned d [] b p n h = (b, refl, partly-IsSigned d b p n)
  sign_each-IsSigned d (k ∷ ks) b p n h =
      let next = with_signature-IsPartlySigned d k b p h.0 in
      let (b', e, s) =
        sign_each-IsSigned d ks (with_signature d k b) next.0 next.1 (rw next.2 h.1) in
      (b', sign_each-next d k ks b p ∙ e, s)

  -- The block that the producer has signed.
  produced_block : ℕ → Block → Block
  produced_block secret_key b = record b {
    producer_public_key = c.secret_key_to_public_key secret_key;
    producer_signature = c.generate_signature (c.sha3 (serialize_head w b)) secret_key;
  }

  produced-IsPartlySigned :
      (secret_key : ℕ) (b : Block)
      → reward_has_outputs b.reward_tx ≡ true
      → b.validator_signatures ≡ []
      → c.secret_key_to_public_key secret_key ≢ c.crypto_z
      → ((d : ℕ) → c.signature_empty (c.generate_signature d secret_key) ≡ false)
      → IsPartlySigned
          (validator_digest w c (produced_block secret_key b))
          (produced_block secret_key b)
  unfolding produced_block serialize_head has_producer validator_digest
  produced-IsPartlySigned secret_key b r empty real filled = record {
    rewarded = r;
    produced = law secret_key (c.sha3 (serialize_head w b));
    named = ground (arith, filled (c.sha3 (serialize_head w b)));
    digest = refl;
    independent = rw empty tt;
    validated = rw empty tt;
  }

  sign_block-produced :
      (secret_key : ℕ) (ks : List ℕ) (b : Block)
      → sign_block w c secret_key ks b ≡ sign_each w c ks (produced_block secret_key b)
  unfolding sign_block producer_sign message_digest serialize produced_block serialize_head
  sign_block-produced secret_key ks b = refl

  -- If signatures check against the key of their secret key: a block with a paid reward and no
  -- signatures, signed by a producer whose key is not Z and whose signatures are not empty and
  -- then by at least one validator, all with other keys, is signed without an exception and passes
  -- validate_construction.
  pub sign_block-validates :
      (secret_key k : ℕ) (ks : List ℕ) (b : Block)
      → reward_has_outputs b.reward_tx ≡ true
      → b.validator_signatures ≡ []
      → c.secret_key_to_public_key secret_key ≢ c.crypto_z
      → ((d : ℕ) → c.signature_empty (c.generate_signature d secret_key) ≡ false)
      → All (λ j. c.secret_key_to_public_key secret_key ≢ c.secret_key_to_public_key j) (k ∷ ks)
      → (b' : Block) × (sign_block w c secret_key (k ∷ ks) b ≡ some b')
        × (validate_construction w c b' ≡ some true)
  unfolding produced_block
  sign_block-validates secret_key k ks b r empty real filled others =
      let start = produced-IsPartlySigned secret_key b r empty real filled in
      let first = with_signature-IsPartlySigned _ k (produced_block secret_key b) start others.0 in
      let (b', e, s) =
        sign_each-IsSigned _ ks (with_signature _ k (produced_block secret_key b)) first.0 first.1
          (rw first.2 others.1) in
      (
        b',
        sign_block-produced secret_key (k ∷ ks) b
            ∙ sign_each-next _ k ks (produced_block secret_key b) start
            ∙ e,
        (validate_construction-true_iff w c b').1 s,
      )
