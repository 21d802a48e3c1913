-- ===== src/Chain/Staker/Laws.antt =====
-- StakerTransaction: the round trip, and what check_construction accepts.
use turtlecoin_v.Base.{◌≡◌, ◌↔◌, ◌<◌, false, length, All, List, arith}
use turtlecoin_v.Errors.{success}
use turtlecoin_v.Errors.Laws.{check_each-success_iff}
use turtlecoin_v.Serial.{Wire, IsU64, read_many, write_each}
use turtlecoin_v.Serial.Laws.{Reads, WireLaws, Reads->>=, Reads-return, Reads-read_many}
use turtlecoin_v.Crypto.{Crypto}
use turtlecoin_v.Chain.Parts.{
  StakerOutput, check_staker_output, serialize_staker_output, deserialize_staker_output,
}
use turtlecoin_v.Chain.Parts.RoundTrip.{IsHeader, IsStakerOutput, header_back, staker_output_back}
use turtlecoin_v.Chain.Staker.{StakerTransaction, serialize, deserialize, check_construction}

abbrev pub IsTransaction : StakerTransaction → Type 0
IsTransaction tx =
    IsHeader tx.header
    × IsU64 (length tx.staker_outputs)
    × All IsStakerOutput tx.staker_outputs
    × IsU64 (length tx.staker_penalties)
    × All IsStakerOutput tx.staker_penalties

abbrev pub IsGoodReward : Crypto → StakerOutput → Type 0
IsGoodReward c o = (c.key_empty o.staker_id ≡ false) × (0 < o.amount)

check_staker_output-success_iff :
    (c : Crypto) (o : StakerOutput) → (check_staker_output c o ≡ success) ↔ IsGoodReward c o
unfolding check_staker_output
check_staker_output-success_iff c o = ground arith

module _ (w : Wire) (laws : WireLaws w) where
  staker_outputs_back :
      (xs : List StakerOutput)
      → All IsStakerOutput xs
      → Reads
          (read_many (length xs) (deserialize_staker_output w))
          (write_each (serialize_staker_output w) xs)
          xs
  staker_outputs_back =
      Reads-read_many _ (serialize_staker_output w) IsStakerOutput (staker_output_back w laws)

  pub deserialize-serialize :
      (tx : StakerTransaction) → IsTransaction tx → Reads (deserialize w) (serialize w tx) tx
  unfolding serialize deserialize
  deserialize-serialize tx p =
      (Reads->>= _ (header_back w laws _ p.0) (
        Reads->>= _ (laws.varint_back 64 _ p.1) (
          Reads->>= _ (staker_outputs_back _ p.2) (
            Reads->>= _ (laws.varint_back 64 _ p.3)
              (Reads->>= _ (staker_outputs_back _ p.4) (Reads-return _))))))

pub record IsConstructed (c : Crypto) (tx : StakerTransaction) : Type 0 where
  pub version : tx.header.version ≡ 1
  pub good_rewards : All (IsGoodReward c) tx.staker_outputs
  pub good_penalties : All (IsGoodReward c) tx.staker_penalties

-- A staker transaction passes check_construction exactly when it satisfies IsConstructed.
pub staker_construction-success_iff :
    (c : Crypto) (tx : StakerTransaction) → (check_construction c tx ≡ success) ↔ IsConstructed c tx
unfolding check_construction
staker_construction-success_iff c tx = ground (
  arith,
  check_each-success_iff (check_staker_output c) (IsGoodReward c)
      (check_staker_output-success_iff c) tx.staker_outputs,
  check_each-success_iff (check_staker_output c) (IsGoodReward c)
      (check_staker_output-success_iff c) tx.staker_penalties,
)
