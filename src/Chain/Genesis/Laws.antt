-- ===== src/Chain/Genesis/Laws.antt =====
-- GenesisTransaction: the round trip, and what check_construction accepts.
use turtlecoin_v.Base.{◌≡◌, ◌↔◌, false, length, All, arith}
use turtlecoin_v.Errors.{success}
use turtlecoin_v.Errors.Laws.{check_each-success_iff}
use turtlecoin_v.Serial.{Wire, IsKey}
use turtlecoin_v.Serial.Laws.{Reads, WireLaws, Reads->>=, Reads-return}
use turtlecoin_v.Crypto.{Crypto}
use turtlecoin_v.Chain.Parts.{check_output}
use turtlecoin_v.Chain.Parts.RoundTrip.{IsPrefix, IsOutputs, prefix_back, outputs_back}
use turtlecoin_v.Chain.UserChecks.Laws.{IsGoodOutput, check_output-success_iff}
use turtlecoin_v.Chain.Genesis.{GenesisTransaction, serialize, deserialize, check_construction}

abbrev pub IsTransaction : GenesisTransaction → Type 0
IsTransaction tx = IsPrefix tx.prefix × IsKey tx.secret_key × IsOutputs tx.outputs

module _ (w : Wire) (laws : WireLaws w) where
  pub deserialize-serialize :
      (tx : GenesisTransaction) → IsTransaction tx → Reads (deserialize w) (serialize w tx) tx
  unfolding serialize deserialize
  deserialize-serialize tx p =
      (Reads->>= _ (prefix_back w laws _ p.0) (
        Reads->>= _ (laws.key_serialize_back _ p.1)
          (Reads->>= _ (outputs_back w laws _ p.2) (Reads-return _))))

pub record IsConstructed (c : Crypto) (tx : GenesisTransaction) : Type 0 where
  pub version : tx.prefix.header.version ≡ 1
  pub public_key : c.key_empty tx.prefix.public_key ≡ false
  pub secret_key : c.key_empty tx.secret_key ≡ false
  pub key_pair : c.secret_key_to_public_key tx.secret_key ≡ tx.prefix.public_key
  pub output_count : length tx.outputs ≡ 1024
  pub good_outputs : All (IsGoodOutput c) tx.outputs

-- A genesis transaction passes check_construction exactly when it satisfies IsConstructed.
pub genesis_construction-success_iff :
    (c : Crypto) (tx : GenesisTransaction)
    → (check_construction c tx ≡ success) ↔ IsConstructed c tx
unfolding check_construction
genesis_construction-success_iff c tx = ground (
  arith,
  check_each-success_iff (check_output c) (IsGoodOutput c) (check_output-success_iff c) tx.outputs,
)
