-- ===== src/Chain.antt =====
-- Transactions and blocks (include/blockchain).
pub mod TransactionType
pub mod Parts
pub mod UserChecks
pub mod Mining
pub mod Normal
pub mod Stake
pub mod RecallStake
pub mod Genesis
pub mod Staker
pub mod StakeRefund
pub mod Transaction
pub mod Block
