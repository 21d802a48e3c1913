-- ===== src/Storage/Table.antt =====
-- The databases that src/core/blockchain_storage.cpp opens.
use turtlecoin_v.Base.{ℕ}

abbrev pub blocks : ℕ
blocks = 0

abbrev pub block_indexes : ℕ
block_indexes = 1

abbrev pub block_timestamps : ℕ
block_timestamps = 2

abbrev pub transactions : ℕ
transactions = 3

abbrev pub key_images : ℕ
key_images = 4

abbrev pub transaction_outputs : ℕ
transaction_outputs = 5
