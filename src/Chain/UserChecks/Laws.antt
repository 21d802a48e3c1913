-- ===== src/Chain/UserChecks/Laws.antt =====
-- What the shared checks accept.
use turtlecoin_v.Base.{
  ℕ, List, [], ◌∷◌, ◌≡◌, ◌≢◌, ◌≤◌, ◌<◌, ◌↔◌, true, false, length, All, map, arith, not, Bool,
}
use turtlecoin_v.Errors.{success, reject_if, ErrorCode}
use turtlecoin_v.Errors.ErrorCode.{tx_invalid_key_image, tx_invalid_signature}
use turtlecoin_v.Errors.Laws.{check_each-success_iff}
use turtlecoin_v.Config.{maximum_inputs, minimum_outputs, maximum_outputs, ring_size}
use turtlecoin_v.Crypto.{Crypto}
use turtlecoin_v.Chain.Parts.{
  TransactionOutput, TransactionUserBody, UncommittedTransactionSuffix, check_output,
}
use turtlecoin_v.Chain.UserChecks.{check_user_body, check_user_suffix}

-- No element occurs twice.
abbrev pub Distinct : List ℕ → Type 0
Distinct [] = Unit
Distinct (x ∷ xs) = All (λ y. x ≢ y) xs × Distinct xs

-- What the code relies on: removing duplicates keeps the length of exactly the lists without any.
abbrev pub DedupeLaw : Crypto → Type 0
DedupeLaw c = (ks : List ℕ) → (length (c.dedupe_sort ks) ≡ length ks) ↔ Distinct ks

abbrev pub IsGoodOutput : Crypto → TransactionOutput → Type 0
IsGoodOutput c o =
    (c.key_empty o.public_ephemeral ≡ false) × (0 < o.amount) × (c.key_empty o.commitment ≡ false)

-- A fee, 1 to 8 distinct key images in the subgroup, 2 to 8 well-formed outputs.
pub record IsGoodBody (c : Crypto) (b : TransactionUserBody) : Type 0 where
  pub fee_paid : 0 < b.fee
  pub some_inputs : 0 < length b.key_images
  pub few_inputs : length b.key_images ≤ maximum_inputs
  pub in_subgroup : All (λ k. c.check_subgroup k ≡ true) b.key_images
  pub distinct : Distinct b.key_images
  pub enough_outputs : minimum_outputs ≤ length b.outputs
  pub few_outputs : length b.outputs ≤ maximum_outputs
  pub good_outputs : All (IsGoodOutput c) b.outputs

-- Commitments and signatures, one for each input, that balance and are constructed for the ring.
pub record IsGoodSuffix (c : Crypto) (b : TransactionUserBody) (s : UncommittedTransactionSuffix)
    : Type 0 where
  pub commitment_count : length b.key_images ≡ length s.pseudo_commitments
  pub balance :
      c.check_commitments_parity s.pseudo_commitments (map (λ o. o.commitment) b.outputs) b.fee
      ≡ true
  pub proof_constructed : c.range_proof_construction s.range_proof ≡ true
  pub signature_count : length b.key_images ≡ length s.signatures
  pub signatures_constructed : All (λ g. c.clsag_construction ring_size g ≡ true) s.signatures

pub check_output-success_iff :
    (c : Crypto) (o : TransactionOutput) → (check_output c o ≡ success) ↔ IsGoodOutput c o
unfolding check_output
check_output-success_iff c o = ground arith

reject_unless-success_iff :
    (b : Bool) (e : ErrorCode) → (reject_if (not b) e ≡ success) ↔ (b ≡ true)
reject_unless-success_iff b e = ground arith

pub check_user_body-success_iff :
    (c : Crypto)
    → DedupeLaw c
    → (b : TransactionUserBody) → (check_user_body c b ≡ success) ↔ IsGoodBody c b
unfolding check_user_body
check_user_body-success_iff c dedupe b = ground (
  arith,
  dedupe b.key_images,
  check_each-success_iff (λ k. reject_if (not (c.check_subgroup k)) tx_invalid_key_image)
      (λ k. c.check_subgroup k ≡ true) (λ k. reject_unless-success_iff _ _) b.key_images,
  check_each-success_iff (check_output c) (IsGoodOutput c) (check_output-success_iff c) b.outputs,
)

pub check_user_suffix-success_iff :
    (c : Crypto) (b : TransactionUserBody) (s : UncommittedTransactionSuffix)
    → (check_user_suffix c b s ≡ success) ↔ IsGoodSuffix c b s
unfolding check_user_suffix
check_user_suffix-success_iff c b s = ground (
  arith,
  check_each-success_iff
      (λ g. reject_if (not (c.clsag_construction ring_size g)) tx_invalid_signature)
      (λ g. c.clsag_construction ring_size g ≡ true) (λ g. reject_unless-success_iff _ _)
      s.signatures,
)
