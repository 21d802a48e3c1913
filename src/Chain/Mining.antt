-- ===== src/Chain/Mining.antt =====
-- `mine` of the uncommitted user transactions (include/blockchain/transaction_normal.h and its two
-- copies), over the function that gives the leading zeros of the proof of work at a nonce.
pub mod Laws
use turtlecoin_v.Base.{ℕ, zero, suc, ◌+◌, ◌-◌, ◌^◌, Bool, true, false, ltb, leb, ◌==◌, not, ◌&&◌}

-- `UINT64_MAX`
abbrev pub nonce_max : ℕ
nonce_max = 2 ^ 64 - 1

-- What the search has in hand: the nonce, and the leading zeros of the last hash.
pub record Search : Type 0 where
  pub nonce : ℕ
  pub hash_zeros : ℕ

-- `while (hash.leading_zeros() < zeros && nonce != UINT64_MAX)`
unfoldable pub mine_loop : ℕ → (ℕ → ℕ) → ℕ → Search → Search
mine_loop zero zeros_at wanted s = s
mine_loop (suc fuel) zeros_at wanted s =
    elim (ltb s.hash_zeros wanted && not (s.nonce == nonce_max)) [
      | true ↦
          mine_loop fuel zeros_at wanted
            (record { nonce = s.nonce + 1; hash_zeros = zeros_at (s.nonce + 1) })
      | false ↦ s
    ]

pub record Mined : Type 0 where
  pub nonce : ℕ
  pub found : Bool

-- The search begins with the nonce reset to 0 and the hash of the nonce before.
unfoldable pub mine_nonce : (ℕ → ℕ) → ℕ → ℕ → Mined
mine_nonce zeros_at wanted start = elim (leb wanted (zeros_at start)) [
  | true ↦ record { nonce = start; found = true }
  | false ↦
      let s =
        mine_loop (2 ^ 64) zeros_at wanted (record { nonce = 0; hash_zeros = zeros_at start }) in
      record { nonce = s.nonce; found = leb wanted s.hash_zeros }
]
