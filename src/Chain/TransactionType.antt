-- ===== src/Chain/TransactionType.antt =====
-- `enum TransactionType` of include/blockchain/base_types.h.
use turtlecoin_v.Base.{ℕ}

abbrev pub genesis : ℕ
genesis = 0

abbrev pub staker : ℕ
staker = 1

abbrev pub normal : ℕ
normal = 2

abbrev pub stake : ℕ
stake = 3

abbrev pub recall_stake : ℕ
recall_stake = 4

abbrev pub stake_refund : ℕ
stake_refund = 5
