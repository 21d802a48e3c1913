-- ===== src/Staking.antt =====
-- The staking engine and its records (src/core/staking_engine.cpp, include/staking).
pub mod Records
pub mod Engine
