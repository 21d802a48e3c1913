-- ===== src/Chain/Block.antt =====
-- Blocks (include/blockchain/block.h): the structure, its bytes and digests, and its signatures.
-- std::set and std::map are lists in ascending order (module Base.Ordered).
pub mod RoundTrip
pub mod Signing
use turtlecoin_v.Base.{
  ℕ, Bool, true, false, Option, none, some, List, [], ◌∷◌, ◌++◌, length, ◌==◌, not, ◌&&◌,
  if◌then◌else◌,
}
use turtlecoin_v.Base.Ordered
use turtlecoin_v.Serial.{
  Bytes, Reader, ◌>>=◌, return, throw, peek, Wire, emit, write_each, read_many,
}
use turtlecoin_v.Crypto.{Crypto}
use turtlecoin_v.Chain.TransactionType
use turtlecoin_v.Chain.Genesis
use turtlecoin_v.Chain.Genesis.{GenesisTransaction}
use turtlecoin_v.Chain.Staker
use turtlecoin_v.Chain.Staker.{StakerTransaction}
use mathlib.Core.Option

-- `block_transaction_t`
pub data Reward : Type 0 where
  genesis : GenesisTransaction → Reward
  staker : StakerTransaction → Reward

-- `block_digest_mode_t`
pub data DigestMode : Type 0 where
  full producer validator : DigestMode

pub record Block : Type 0 where
  pub version : ℕ
  pub previous_blockhash : ℕ
  pub timestamp : ℕ
  pub block_index : ℕ
  pub reward_tx : Reward
  pub transactions : List ℕ
  pub producer_public_key : ℕ
  pub producer_signature : ℕ
  pub validator_signatures : List (ℕ × ℕ)

-- The key of an entry of `validator_signatures`, and of `transactions`.
abbrev pub entry_key : ℕ × ℕ → ℕ
entry_key e = e.0

abbrev pub itself : ℕ → ℕ
itself k = k

unfoldable pub append_transaction_hash : ℕ → Block → Block
append_transaction_hash h b =
    if Ordered.contains itself h b.transactions
    then b
    else record b { transactions = Ordered.insert itself h b.transactions }

unfoldable pub append_validator_signature : ℕ → ℕ → Block → Block
append_validator_signature public_key signature b =
    if Ordered.contains entry_key public_key b.validator_signatures then b else record b {
      validator_signatures =
          Ordered.insert entry_key (public_key, signature) b.validator_signatures;
    }

unfoldable pub serialize_reward : Wire → Reward → Bytes
serialize_reward w (genesis tx) = Genesis.serialize w tx
serialize_reward w (staker tx) = Staker.serialize w tx

-- `serialize` up to the return for the producer's digest.
unfoldable pub serialize_head : Wire → Block → Bytes
serialize_head w b = emit (
    w.varint b.version
    ∷ w.key b.previous_blockhash
    ∷ w.varint b.timestamp
    ∷ w.varint b.block_index
    ∷ serialize_reward w b.reward_tx
    ∷ w.varint (length b.transactions)
    ∷ write_each w.key_serialize b.transactions
    ∷ [])

unfoldable pub has_producer : Crypto → Block → Bool
has_producer c b =
    not (b.producer_public_key == c.crypto_z) && not (c.signature_empty b.producer_signature)

unfoldable pub serialize_producer : Wire → Crypto → Block → Bytes
serialize_producer w c b =
    if has_producer c b
    then emit (
        w.boolean true
        ∷ w.key_serialize b.producer_public_key
        ∷ w.signature_serialize b.producer_signature
        ∷ [])
    else emit (w.boolean false ∷ [])

unfoldable pub serialize_entry : Wire → ℕ × ℕ → Bytes
serialize_entry w e = emit (w.key e.0 ∷ w.signature e.1 ∷ [])

-- `serialize(writer, mode)`; `none` is the exception of a validator digest with no producer.
unfoldable pub serialize : Wire → Crypto → DigestMode → Block → Option Bytes
serialize w c full b = some (
    emit (
      serialize_head w b
      ∷ serialize_producer w c b
      ∷ w.varint (length b.validator_signatures)
      ∷ write_each (serialize_entry w) b.validator_signatures
      ∷ []))
serialize w c producer b = some (serialize_head w b)
serialize w c validator b =
    if has_producer c b then some (serialize_head w b ++ serialize_producer w c b) else none

read_genesis : Wire → Reader Reward
read_genesis w = do tx ← Genesis.deserialize w; return (genesis tx)

read_staker : Wire → Reader Reward
read_staker w = do tx ← Staker.deserialize w; return (staker tx)

unfoldable pub deserialize_reward_as : Wire → ℕ → Reader Reward
unfolding read_genesis read_staker
deserialize_reward_as w type =
    if type == TransactionType.genesis
    then read_genesis w
    else if type == TransactionType.staker
    then read_staker w
    else throw

unfoldable pub deserialize_reward : Wire → Reader Reward
deserialize_reward w = do type ← peek (w.read_varint 64); deserialize_reward_as w type

unfoldable pub deserialize_entry : Wire → Reader (ℕ × ℕ)
deserialize_entry w = do
  public_key ← w.read_key
  signature ← w.read_signature
  return (public_key, signature)

read_present : Wire → Reader (ℕ × ℕ)
read_present w = do
  public_key ← w.read_key
  signature ← w.read_signature
  return (public_key, signature)

-- The producer's key and signature, or those of a block just constructed.
unfoldable pub deserialize_producer : Wire → Crypto → Bool → Reader (ℕ × ℕ)
unfolding read_present
deserialize_producer w c present =
    if present then read_present w else return (c.key_default, c.signature_default)

-- `block_t(reader)`
unfoldable pub deserialize : Wire → Crypto → Reader Block
deserialize w c = do
  version ← w.read_varint 64
  previous_blockhash ← w.read_key
  timestamp ← w.read_varint 64
  block_index ← w.read_varint 64
  reward_tx ← deserialize_reward w
  count ← w.read_varint 64
  hashes ← read_many count w.read_key
  present ← w.read_boolean
  signed ← deserialize_producer w c present
  validators ← w.read_varint 64
  entries ← read_many validators (deserialize_entry w)
  return (record {
    version = version;
    previous_blockhash = previous_blockhash;
    timestamp = timestamp;
    block_index = block_index;
    reward_tx = reward_tx;
    transactions = Ordered.insert_all itself [] hashes;
    producer_public_key = signed.0;
    producer_signature = signed.1;
    validator_signatures = Ordered.insert_all entry_key [] entries;
  })

-- `message_digest(mode)`
unfoldable pub message_digest : Wire → Crypto → DigestMode → Block → Option ℕ
message_digest w c mode b = Option.map c.sha3 (serialize w c mode b)

-- `producer_sign`: the block, and the key and signature that it returns.
unfoldable pub producer_sign : Wire → Crypto → ℕ → Block → Option (Block × ℕ × ℕ)
producer_sign w c secret_key b =
    let public_key = c.secret_key_to_public_key secret_key in
    let keyed : Block = record b { producer_public_key = public_key } in
    Option.map
      (λ digest. (
        record keyed { producer_signature = c.generate_signature digest secret_key },
        public_key,
        c.generate_signature digest secret_key,
      ))
      (message_digest w c producer keyed)

-- `validator_sign`
unfoldable pub validator_sign : Wire → Crypto → ℕ → Block → Option (Block × ℕ × ℕ)
unfolding append_validator_signature
validator_sign w c secret_key b =
    let public_key = c.secret_key_to_public_key secret_key in
    Option.map
      (λ digest.
        let signature = c.generate_signature digest secret_key in
        (append_validator_signature public_key signature b, public_key, signature))
      (message_digest w c validator b)

unfoldable pub check_entries : Crypto → ℕ → List (ℕ × ℕ) → Bool
check_entries c digest [] = true
check_entries c digest (e ∷ es) = c.check_signature digest e.0 e.1 && check_entries c digest es

unfoldable pub validate_producer_signature : Wire → Crypto → Block → Option Bool
validate_producer_signature w c b =
    Option.map (λ digest. c.check_signature digest b.producer_public_key b.producer_signature)
      (message_digest w c producer b)

unfoldable pub validate_validator_signatures : Wire → Crypto → Block → Option Bool
validate_validator_signatures w c b =
    if length b.validator_signatures == 0
    then some false
    else Option.map (λ digest. check_entries c digest b.validator_signatures)
        (message_digest w c validator b)

-- A reward transaction without outputs is refused.
unfoldable pub reward_has_outputs : Reward → Bool
reward_has_outputs (genesis tx) = not (length tx.outputs == 0)
reward_has_outputs (staker tx) = not (length tx.staker_outputs == 0)

-- `validate_construction`; `none` is an exception.
unfoldable pub validate_construction : Wire → Crypto → Block → Option Bool
validate_construction w c b =
    if not (reward_has_outputs b.reward_tx)
    then some false
    else if Ordered.contains entry_key b.producer_public_key b.validator_signatures
    then some false
    else elim (validate_producer_signature w c b) [
      | none ↦ none
      | some good ↦ if good then validate_validator_signatures w c b else some false
    ]
