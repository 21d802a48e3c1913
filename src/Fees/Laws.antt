-- ===== src/Fees/Laws.antt =====
-- About the fees of src/common/network_fees.cpp, over floats with the laws stated below.
use turtlecoin_v.Base.{
  ℕ, ◌+◌, ◌-◌, ◌*◌, ◌/◌, ◌^◌, ◌≤◌, ◌<◌, ◌≡◌, ◌⊎◌, inl, inr, refl, Bool-cases, none, some, leb, ◌≢◌,
  Option-cases, arith,
}
use turtlecoin_v.Fees.{
  Floats, calculate_base_transaction_fee, calculate_transaction_discount, discounted_fee,
  calculate_transaction_fee,
}

-- What the code relies on in float arithmetic: small whole numbers are subtracted exactly, and the
-- rounded product of a fee and a percentage of at most 30 is no larger than the fee, and 0 at 0. A
-- number below 2^53 is exact as a double, and so is its quotient by 32.
pub record FloatLaws {F : Type 0} (fl : Floats F) : Type 0 where
  pub sub_exact :
      (m n : ℕ) → n ≤ m → m ≤ 256 → fl.sub (fl.of_nat m) (fl.of_nat n) ≡ fl.of_nat (m - n)
  pub product_small :
      (base n : ℕ)
      → n ≤ 15
      → fl.floor_u64
          (fl.mul (fl.of_nat base) (fl.div (fl.mul (fl.of_nat n) (fl.of_nat 2)) (fl.of_nat 100)))
        ≤ base
  pub quotient_exact : (m : ℕ) → m < 2 ^ 53 → fl.ceil_quotient m 32 ≡ (m + 31) / 32
  pub product_zero : (base : ℕ) → fl.floor_u64 (fl.mul (fl.of_nat base) (fl.of_nat 0)) ≡ 0

module _ {F : Type 0} (fl : Floats F) (laws : FloatLaws fl) where
  -- Over floats that obey FloatLaws: for a size below 2^53 the base fee is 1 and the least number
  -- of 32-byte chunks that hold the bytes over 320.
  pub calculate_base_transaction_fee-chunks :
      (s : ℕ)
      → s < 2 ^ 53
      → (chunks : ℕ) × (calculate_base_transaction_fee fl s ≡ chunks + 1)
        × (s ≤ 320 + chunks * 32)
        × ((chunks ≡ 0) ⊎ (320 + chunks * 32 < s + 32))
  unfolding calculate_base_transaction_fee
  calculate_base_transaction_fee-chunks s h = elim (Bool-cases (leb s 320)) [
    | inl small ↦ (0, ground arith, ground arith, inl refl)
    | inr large ↦ (
      (s - 320 + 31) / 32,
      ground (arith, laws.quotient_exact (s - 320)),
      omega arith,
      inr (ground arith),
    )
  ]

  -- A longer transaction never has a smaller base fee.
  pub base_fee_mono :
      (s t : ℕ)
      → s ≤ t
      → t < 2 ^ 53
      → calculate_base_transaction_fee fl s ≤ calculate_base_transaction_fee fl t
  unfolding calculate_base_transaction_fee
  base_fee_mono s t h small =
      ground (arith, laws.quotient_exact (s - 320), laws.quotient_exact (t - 320))

  base_fee_pos : (s : ℕ) → 1 ≤ calculate_base_transaction_fee fl s
  unfolding calculate_base_transaction_fee
  base_fee_pos s = ground arith

  base_fee_u64 : (s : ℕ) → s < 2 ^ 53 → calculate_base_transaction_fee fl s < 2 ^ 64
  unfolding calculate_base_transaction_fee
  base_fee_u64 s h = ground (arith, laws.quotient_exact (s - 320))

  -- Every discount takes away at most the fee.
  discount_small :
      (base z : ℕ) (d : F)
      → calculate_transaction_discount fl z ≡ some d
      → fl.floor_u64 (fl.mul (fl.of_nat base) d) ≤ base
  unfolding calculate_transaction_discount
  discount_small base z d e = ground (
    arith,
    laws.product_zero base,
    laws.product_small base 15,
    laws.product_small base (z - 1),
    laws.sub_exact z 1,
  )

  discounted_bounds :
      (base : ℕ) (d : F)
      → 1 ≤ base
      → base < 2 ^ 64
      → fl.floor_u64 (fl.mul (fl.of_nat base) d) ≤ base
      → (1 ≤ discounted_fee fl base d) × (discounted_fee fl base d ≤ base)
  unfolding discounted_fee
  discounted_bounds base d lo hi small = ground arith

  discount-ne-none : (z : ℕ) → z ≤ 256 → calculate_transaction_discount fl z ≢ none
  unfolding calculate_transaction_discount
  discount-ne-none z h = ground arith

  discount_exists : (z : ℕ) → z ≤ 256 → (d : F) × (calculate_transaction_discount fl z ≡ some d)
  discount_exists z h = elim (Option-cases (calculate_transaction_discount fl z)) [
    | inl n ↦ absurd (discount-ne-none z h n)
    | inr found ↦ found
  ]

  -- Over floats that obey FloatLaws: with at most 256 leading zeros and a size below 2^53 there is
  -- a fee, at least 1 and at most the base fee.
  pub calculate_transaction_fee_bounds :
      (s z : ℕ)
      → s < 2 ^ 53
      → z ≤ 256
      → (fee : ℕ) × (calculate_transaction_fee fl s z ≡ some fee)
        × (1 ≤ fee)
        × (fee ≤ calculate_base_transaction_fee fl s)
  unfolding calculate_transaction_fee
  calculate_transaction_fee_bounds s z small h =
      let (d, e) = discount_exists z h in
      let base : ℕ = calculate_base_transaction_fee fl s in
      let (lo, hi) =
        discounted_bounds base d (base_fee_pos s) (base_fee_u64 s small)
          (discount_small base z d e) in
      (discounted_fee fl base d, ground (arith, e), lo, hi)

  -- Over floats that obey FloatLaws: with at most 1 leading zero and a size below 2^53 the fee is
  -- the base fee.
  pub undiscounted_fee :
      (s z : ℕ)
      → s < 2 ^ 53
      → z ≤ 1
      → calculate_transaction_fee fl s z ≡ some (calculate_base_transaction_fee fl s)
  unfolding calculate_transaction_fee calculate_transaction_discount discounted_fee
  undiscounted_fee s z small h = ground (
    arith,
    laws.product_zero (calculate_base_transaction_fee fl s),
    base_fee_pos s,
    base_fee_u64 s small,
  )
