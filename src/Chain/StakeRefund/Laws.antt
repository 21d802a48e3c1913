-- ===== src/Chain/StakeRefund/Laws.antt =====
-- StakeRefundTransaction: the round trip, and what check_construction accepts.
use turtlecoin_v.Base.{◌≡◌, ◌↔◌, false, length, All, arith}
use turtlecoin_v.Errors.{success}
use turtlecoin_v.Errors.Laws.{check_each-success_iff}
use turtlecoin_v.Serial.{Wire, IsKey}
use turtlecoin_v.Serial.Laws.{Reads, WireLaws, Reads->>=, Reads-return}
use turtlecoin_v.Crypto.{Crypto}
use turtlecoin_v.Chain.Parts.{check_output}
use turtlecoin_v.Chain.Parts.RoundTrip.{IsPrefix, IsOutputs, prefix_back, outputs_back}
use turtlecoin_v.Chain.UserChecks.Laws.{IsGoodOutput, check_output-success_iff}
use turtlecoin_v.Chain.StakeRefund.{
  StakeRefundTransaction, serialize, deserialize, check_construction,
}

abbrev pub IsTransaction : StakeRefundTransaction → Type 0
IsTransaction tx =
    IsPrefix tx.prefix × IsKey tx.secret_key × IsKey tx.recall_stake_tx × IsOutputs tx.outputs

module _ (w : Wire) (laws : WireLaws w) where
  pub deserialize-serialize :
      (tx : StakeRefundTransaction) → IsTransaction tx → Reads (deserialize w) (serialize w tx) tx
  unfolding serialize deserialize
  deserialize-serialize tx p =
      (Reads->>= _ (prefix_back w laws _ p.0) (
        Reads->>= _ (laws.key_serialize_back _ p.1) (
          Reads->>= _ (laws.key_serialize_back _ p.2)
            (Reads->>= _ (outputs_back w laws _ p.3) (Reads-return _)))))

pub record IsConstructed (c : Crypto) (tx : StakeRefundTransaction) : Type 0 where
  pub version : tx.prefix.header.version ≡ 1
  pub public_key : c.key_empty tx.prefix.public_key ≡ false
  pub secret_key : c.key_empty tx.secret_key ≡ false
  pub key_pair : c.secret_key_to_public_key tx.secret_key ≡ tx.prefix.public_key
  pub recall_hash : c.key_empty tx.recall_stake_tx ≡ false
  pub output_count : length tx.outputs ≡ 1
  pub good_outputs : All (IsGoodOutput c) tx.outputs

-- A stake-refund transaction passes check_construction exactly when it satisfies IsConstructed.
pub stake_refund_construction-success_iff :
    (c : Crypto) (tx : StakeRefundTransaction)
    → (check_construction c tx ≡ success) ↔ IsConstructed c tx
unfolding check_construction
stake_refund_construction-success_iff c tx = ground (
  arith,
  check_each-success_iff (check_output c) (IsGoodOutput c) (check_output-success_iff c) tx.outputs,
)
