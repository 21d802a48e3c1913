-- ===== src/Chain/Mining/Laws.antt =====
-- About the search for a nonce (`mine` in include/blockchain/transaction_normal.h and its copies).
use turtlecoin_v.Base.{
  ℕ, zero, suc, ◌+◌, ◌^◌, ◌≤◌, ◌<◌, ◌≡◌, ◌≢◌, refl, true, false, ltb, leb, ◌==◌, not, ◌&&◌, ◌⊎◌,
  inl, inr, Bool-cases, arith,
}
use turtlecoin_v.Chain.Mining.{nonce_max, Search, mine_loop, mine_nonce}

-- Between rounds: the nonces behind the current one fall short, and past the first round the hash
-- in hand is that of the current nonce.
record IsSearching (zeros_at : ℕ → ℕ) (wanted : ℕ) (s : Search) : Type 0 where
  in_range : s.nonce ≤ nonce_max
  short : (n : ℕ) → 1 ≤ n → n < s.nonce → zeros_at n < wanted
  current : (s.hash_zeros ≡ zeros_at s.nonce) ⊎ ((s.nonce ≡ 0) × (s.hash_zeros < wanted))

-- What holds when the loop has ended by its test.
record IsDone (zeros_at : ℕ → ℕ) (wanted : ℕ) (s : Search) : Type 0 where
  searching : IsSearching zeros_at wanted s
  ended : (wanted ≤ s.hash_zeros) ⊎ (s.nonce ≡ nonce_max)

step_IsSearching :
    (zeros_at : ℕ → ℕ) (wanted : ℕ) (s : Search)
    → IsSearching zeros_at wanted s
    → s.hash_zeros < wanted
    → s.nonce ≢ nonce_max
    → IsSearching zeros_at wanted
        (record { nonce = s.nonce + 1; hash_zeros = zeros_at (s.nonce + 1) })
step_IsSearching zeros_at wanted s i low more = record {
  in_range = omega (arith, i.in_range);
  short = λ n lo hi. ground (arith, i.short n lo, i.current);
  current = inl refl;
}

mine_loop-IsDone :
    (fuel : ℕ) (zeros_at : ℕ → ℕ) (wanted : ℕ) (s : Search)
    → nonce_max < s.nonce + fuel
    → IsSearching zeros_at wanted s
    → IsDone zeros_at wanted (mine_loop fuel zeros_at wanted s)
unfolding mine_loop
mine_loop-IsDone zero zeros_at wanted s h i = absurd (omega (arith, i.in_range))
mine_loop-IsDone (suc fuel) zeros_at wanted s h i =
    elim (Bool-cases (ltb s.hash_zeros wanted && not (s.nonce == nonce_max))) [
      | inl go ↦
          rw (go, mine_loop)
            (mine_loop-IsDone fuel zeros_at wanted _ (omega arith)
              (step_IsSearching zeros_at wanted s i (ground arith) (ground arith)))
      | inr stop ↦ rw (stop, mine_loop) (record { searching = i; ended = ground arith })
    ]

start_IsSearching :
    (zeros_at : ℕ → ℕ) (wanted start : ℕ)
    → zeros_at start < wanted
    → IsSearching zeros_at wanted (record { nonce = 0; hash_zeros = zeros_at start })
start_IsSearching zeros_at wanted start low = record {
  in_range = omega arith;
  short = λ n lo hi. absurd (omega arith);
  current = inr (refl, low);
}

done_found :
    (zeros_at : ℕ → ℕ) (wanted : ℕ) (s : Search)
    → IsDone zeros_at wanted s
    → leb wanted s.hash_zeros ≡ true
    → wanted ≤ zeros_at s.nonce
done_found zeros_at wanted s d e = ground (arith, d.searching.current)

done_not_found :
    (zeros_at : ℕ → ℕ) (wanted : ℕ) (s : Search)
    → IsDone zeros_at wanted s
    → leb wanted s.hash_zeros ≡ false
    → (n : ℕ) → 1 ≤ n
    → n ≤ nonce_max
    → zeros_at n < wanted
done_not_found zeros_at wanted s d e n lo hi =
    ground (arith, d.searching.current, d.searching.short n lo, d.ended)

searched :
    (zeros_at : ℕ → ℕ) (wanted start : ℕ)
    → leb wanted (zeros_at start) ≡ false
    → IsDone zeros_at wanted
        (mine_loop (2 ^ 64) zeros_at wanted (record { nonce = 0; hash_zeros = zeros_at start }))
searched zeros_at wanted start e =
    mine_loop-IsDone (2 ^ 64) zeros_at wanted _ (omega arith)
      (start_IsSearching zeros_at wanted start (ground arith))

-- A nonce that mining reports as found gives a hash with at least the wanted leading zeros.
pub mine_nonce-found :
    (zeros_at : ℕ → ℕ) (wanted start : ℕ)
    → (mine_nonce zeros_at wanted start).found ≡ true
    → wanted ≤ zeros_at (mine_nonce zeros_at wanted start).nonce
unfolding mine_nonce
mine_nonce-found zeros_at wanted start h = elim (Bool-cases (leb wanted (zeros_at start))) [
  | inl e ↦ rw (e, mine_nonce) (ground arith)
  | inr e ↦
      rw (e, mine_nonce)
        (done_found zeros_at wanted _ (searched zeros_at wanted start e) (rw (e, mine_nonce) at h))
]

-- If mining reports that it found none, neither the nonce given nor any from 1 to the largest
-- 64-bit number serves.
pub mine_nonce-exhausted :
    (zeros_at : ℕ → ℕ) (wanted start n : ℕ)
    → (mine_nonce zeros_at wanted start).found ≡ false
    → (n ≡ start) ⊎ ((1 ≤ n) × (n ≤ nonce_max))
    → zeros_at n < wanted
unfolding mine_nonce
mine_nonce-exhausted zeros_at wanted start n h tried =
    elim (Bool-cases (leb wanted (zeros_at start))) [
      | inl e ↦ cc
      | inr e ↦ elim tried [
        | inl same ↦ rw same (ground arith)
        | inr (lo, hi) ↦
            done_not_found zeros_at wanted _ (searched zeros_at wanted start e)
              (rw (e, mine_nonce) at h) n lo hi
      ]
    ]
