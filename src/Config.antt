-- ===== src/Config.antt =====
-- The constants of include/config.h that the modelled code reads.
use turtlecoin_v.Base.{ℕ, ◌*◌, ◌/◌}

-- `Configuration::PUBLIC_ADDRESS_PREFIX`
abbrev pub public_address_prefix : ℕ
public_address_prefix = 0x6bb3b1d

-- `Configuration::Transaction`
abbrev pub ring_size : ℕ
ring_size = 512

abbrev pub maximum_inputs : ℕ
maximum_inputs = 8

abbrev pub minimum_outputs : ℕ
minimum_outputs = 2

abbrev pub maximum_outputs : ℕ
maximum_outputs = 8

abbrev pub maximum_extra_size : ℕ
maximum_extra_size = 1024

-- `Configuration::Transaction::Genesis`
abbrev pub genesis_amount : ℕ
genesis_amount = 125_506_560

abbrev pub genesis_output_amount : ℕ
genesis_output_amount = genesis_amount / (ring_size * 2)

-- `Configuration::Transaction::Fees`
abbrev pub minimum_fee : ℕ
minimum_fee = 1

abbrev pub chunk_size : ℕ
chunk_size = 32

abbrev pub base_chunk_size : ℕ
base_chunk_size = chunk_size * 10

abbrev pub chunk_fee : ℕ
chunk_fee = 1

abbrev pub minimum_pow_zeros : ℕ
minimum_pow_zeros = 1

abbrev pub maximum_pow_zeros : ℕ
maximum_pow_zeros = 16

-- `Configuration::Transaction::ProofOfWork`
abbrev pub pow_iterations : ℕ
pow_iterations = 2048

abbrev pub pow_memory : ℕ
pow_memory = 1024

abbrev pub pow_threads : ℕ
pow_threads = 1
