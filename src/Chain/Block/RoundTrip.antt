-- ===== src/Chain/Block/RoundTrip.antt =====
-- About `serialize` and `deserialize` of a block (include/blockchain/block.h).
use turtlecoin_v.Base.{
  ℕ, ◌≡◌, false, some, [], ◌∷◌, ◌++◌, length, All, Bool-cases, inl, inr, if◌then◌else◌,
  append_assoc,
}
use turtlecoin_v.Base.Ordered
use turtlecoin_v.Serial.{Bytes, Wire, emit, write_each, IsU64, IsKey, IsSignature}
use turtlecoin_v.Serial.Laws.{
  Reads, WireLaws, Reads->>=, Reads-return, Reads-peek, Reads-whole, Reads-read_many,
}
use turtlecoin_v.Crypto.{Crypto}
use turtlecoin_v.Chain.TransactionType
use turtlecoin_v.Chain.Genesis
use turtlecoin_v.Chain.Genesis.Laws as GenesisLaws
use turtlecoin_v.Chain.Staker
use turtlecoin_v.Chain.Staker.Laws as StakerLaws
use turtlecoin_v.Chain.Transaction.Laws.{header_front, prefix_front}
use turtlecoin_v.Serial.Laws.{Peeks-append}
use turtlecoin_v.Chain.Block.{
  Reward, genesis, staker, full, Block, entry_key, itself, serialize_reward, serialize_head,
  has_producer, serialize_producer, serialize_entry, serialize, deserialize_reward_as,
  deserialize_reward, deserialize_entry, deserialize_producer, deserialize,
}

-- The fields of a reward are in range and its type is that of the alternative.
abbrev pub IsReward : Reward → Type 0
IsReward (genesis tx) =
    GenesisLaws.IsTransaction tx × (tx.prefix.header.l_type ≡ TransactionType.genesis)
IsReward (staker tx) = StakerLaws.IsTransaction tx × (tx.header.l_type ≡ TransactionType.staker)

abbrev IsEntry : ℕ × ℕ → Type 0
IsEntry e = IsKey e.0 × IsSignature e.1

-- The fields are in range, the two containers are in order, and the producer's fields are either
-- both given or both as constructed.
pub record IsBlock (c : Crypto) (b : Block) : Type 0 where
  pub version : IsU64 b.version
  pub previous : IsKey b.previous_blockhash
  pub timestamp : IsU64 b.timestamp
  pub index : IsU64 b.block_index
  pub reward : IsReward b.reward_tx
  pub hash_count : IsU64 (length b.transactions)
  pub hashes : All IsKey b.transactions
  pub hash_order : Ordered.IsAscending itself b.transactions
  pub producer_key : IsKey b.producer_public_key
  pub producer_signature : IsSignature b.producer_signature
  pub no_producer :
      has_producer c b ≡ false
      → (b.producer_public_key ≡ c.key_default) × (b.producer_signature ≡ c.signature_default)
  pub validator_count : IsU64 (length b.validator_signatures)
  pub validators : All IsEntry b.validator_signatures
  pub validator_order : Ordered.IsAscending entry_key b.validator_signatures

module _ (w : Wire) (laws : WireLaws w) where
  reward_back : (r : Reward) → IsReward r → Reads (deserialize_reward w) (serialize_reward w r) r
  unfolding deserialize_reward serialize_reward deserialize_reward_as Genesis.serialize
      Staker.serialize
  reward_back (genesis tx) p = Reads-peek _ (Peeks-append _ (prefix_front w laws tx.prefix p.0.0)) (
      simp p.1 (
        Reads-whole (
          Reads->>= _ (unfold Genesis.serialize in GenesisLaws.deserialize-serialize w laws tx p.0)
            (Reads-return _))))
  reward_back (staker tx) p = Reads-peek _ (Peeks-append _ (header_front w laws tx.header p.0.0)) (
      simp p.1 (
        Reads-whole (
          Reads->>= _ (unfold Staker.serialize in StakerLaws.deserialize-serialize w laws tx p.0)
            (Reads-return _))))

  entry_back : (e : ℕ × ℕ) → IsEntry e → Reads (deserialize_entry w) (serialize_entry w e) e
  unfolding deserialize_entry serialize_entry
  entry_back e p =
      Reads->>= _ (laws.key_back _ p.0) (Reads->>= _ (laws.signature_back _ p.1) (Reads-return _))

  -- What follows the flag for the producer.
  producer_fields : Crypto → Block → Bytes
  producer_fields c b =
      if has_producer c b
      then emit
          (w.key_serialize b.producer_public_key ∷ w.signature_serialize b.producer_signature ∷ [])
      else []

  producer_back :
      (c : Crypto) (b : Block)
      → IsBlock c b
      → Reads
          (deserialize_producer w c (has_producer c b))
          (producer_fields c b)
          (b.producer_public_key, b.producer_signature)
  unfolding deserialize_producer producer_fields
  producer_back c b p = elim (Bool-cases (has_producer c b)) [
    | inl e ↦ rw e (
        Reads->>= _ (laws.key_serialize_back _ p.producer_key)
          (Reads->>= _ (laws.signature_serialize_back _ p.producer_signature) (Reads-return _)))
    | inr e ↦ rw (e, (p.no_producer e).0, (p.no_producer e).1) (Reads-return _)
  ]

  -- The chunks of a full serialization, one after the other.
  block_bytes : Crypto → Block → Bytes
  block_bytes c b = emit (
      w.varint b.version
      ∷ w.key b.previous_blockhash
      ∷ w.varint b.timestamp
      ∷ w.varint b.block_index
      ∷ serialize_reward w b.reward_tx
      ∷ w.varint (length b.transactions)
      ∷ write_each w.key_serialize b.transactions
      ∷ w.boolean (has_producer c b)
      ∷ producer_fields c b
      ∷ w.varint (length b.validator_signatures)
      ∷ write_each (serialize_entry w) b.validator_signatures
      ∷ [])

  producer_chunks :
      (c : Crypto) (b : Block)
      → serialize_producer w c b ≡ w.boolean (has_producer c b) ++ producer_fields c b
  unfolding serialize_producer producer_fields
  producer_chunks c b = elim (Bool-cases (has_producer c b)) [ inl e ↦ rw e | inr e ↦ rw e ]

  serialize-full : (c : Crypto) (b : Block) → serialize w c full b ≡ some (block_bytes c b)
  unfolding serialize serialize_head block_bytes
  serialize-full c b = rw (producer_chunks c b) (simp append_assoc)

  block_back : (c : Crypto) (b : Block) → IsBlock c b → Reads (deserialize w c) (block_bytes c b) b
  unfolding deserialize block_bytes
  block_back c b p = Reads->>= _ (laws.varint_back 64 _ p.version) (
      Reads->>= _ (laws.key_back _ p.previous) (
        Reads->>= _ (laws.varint_back 64 _ p.timestamp) (
          Reads->>= _ (laws.varint_back 64 _ p.index) (
            Reads->>= _ (reward_back b.reward_tx p.reward) (
              Reads->>= _ (laws.varint_back 64 _ p.hash_count) (
                Reads->>= _
                  (Reads-read_many _ w.key_serialize IsKey laws.key_serialize_back _ p.hashes)
                  (Reads->>= _ (laws.boolean_back _) (
                    Reads->>= _ (producer_back c b p) (
                      Reads->>= _ (laws.varint_back 64 _ p.validator_count) (
                        Reads->>= _
                          (Reads-read_many _ (serialize_entry w) IsEntry entry_back _ p.validators)
                          (rw
                            (
                              Ordered.insert_all-ascending itself b.transactions p.hash_order,
                              Ordered.insert_all-ascending entry_key b.validator_signatures
                                  p.validator_order,
                            )
                            (Reads-return _))))))))))))

  -- With WireLaws: the full serialization of a well-formed block (IsBlock) never throws, and a
  -- block constructed from its bytes is the block.
  pub block_round_trip :
      (c : Crypto) (b : Block)
      → IsBlock c b
      → (bytes : Bytes) × (serialize w c full b ≡ some bytes) × Reads (deserialize w c) bytes b
  block_round_trip c b p = (block_bytes c b, serialize-full c b, block_back c b p)
