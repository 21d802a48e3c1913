-- ===== src/Fees.antt =====
-- Network fees (src/common/network_fees.cpp). `none` is the std::range_error.
-- The operations on floats and doubles are a parameter.
pub mod Laws
use turtlecoin_v.Base.{ℕ, ◌+◌, ◌-◌, ◌*◌, ◌/◌, ◌%◌, ◌^◌, Option, none, some, ltb, leb, if◌then◌else◌}
use turtlecoin_v.Config.{
  base_chunk_size, chunk_size, chunk_fee, minimum_fee, minimum_pow_zeros, maximum_pow_zeros,
}

-- The operations on `float` that the code uses; `floor_u64` is `uint64_t(floor(x))`. On doubles,
-- `ceil_quotient m n` is `uint64_t(ceil(double(m) / double(n)))`.
pub record Floats (F : Type 0) : Type 0 where
  pub of_nat : ℕ → F
  pub sub : F → F → F
  pub mul : F → F → F
  pub div : F → F → F
  pub floor_u64 : F → ℕ
  pub ceil_quotient : ℕ → ℕ → ℕ

-- `POW_ZERO_DISCOUNT_MULTIPLIER`
abbrev multiplier : ℕ
multiplier = 2

module _ {F : Type 0} (fl : Floats F) where
  unfoldable pub calculate_base_transaction_fee : ℕ → ℕ
  calculate_base_transaction_fee transaction_size =
      if leb transaction_size base_chunk_size
      then minimum_fee
      else fl.ceil_quotient (transaction_size - base_chunk_size) chunk_size * chunk_fee
        + minimum_fee

  unfoldable pub calculate_transaction_discount : ℕ → Option F
  calculate_transaction_discount leading_zeros =
      if ltb 256 leading_zeros
      then none
      else if leb leading_zeros minimum_pow_zeros
      then some (fl.of_nat 0)
      else if leb maximum_pow_zeros leading_zeros
      then some (
          fl.div (fl.mul (fl.of_nat (maximum_pow_zeros - minimum_pow_zeros)) (fl.of_nat multiplier))
            (fl.of_nat 100))
      else some (
          fl.div
            (fl.mul (fl.sub (fl.of_nat leading_zeros) (fl.of_nat minimum_pow_zeros))
              (fl.of_nat multiplier))
            (fl.of_nat 100))

  -- `base - discount` in uint64_t, and the larger of that and the minimum.
  unfoldable pub discounted_fee : ℕ → F → ℕ
  discounted_fee base discount =
      let fee = (base + 2 ^ 64 - fl.floor_u64 (fl.mul (fl.of_nat base) discount)) % 2 ^ 64 in
      if ltb fee minimum_fee then minimum_fee else fee

  unfoldable pub calculate_transaction_fee : ℕ → ℕ → Option ℕ
  calculate_transaction_fee transaction_size leading_zeros =
      if ltb 256 leading_zeros then none else elim (calculate_transaction_discount leading_zeros) [
        | none ↦ none
        | some d ↦ some (discounted_fee (calculate_base_transaction_fee transaction_size) d)
      ]
