-- ===== src/Staking/Engine/Candidacy.antt =====
-- About candidacies and votes (src/core/staking_engine.cpp).
use turtlecoin_v.Base.{ap, sym, ℕ, ◌≡◌, ◌≤◌, refl, true, false, some, inl, inr, arith, ◌⊎◌, ◌↔◌}
use turtlecoin_v.Errors.{success, fail, ErrorCode}
use turtlecoin_v.Errors.ErrorCode.{staking_candidate_already_exists}
use turtlecoin_v.Serial.{Wire, Bytes}
use turtlecoin_v.Chain.Stake.{CommittedStakeTransaction}
use turtlecoin_v.Database.{Lmdb, read, exists}
use turtlecoin_v.Database.Laws.{LmdbLaws, SameData}
use turtlecoin_v.Database.Named
use turtlecoin_v.Staking.Records.{serialize_candidate}
use turtlecoin_v.Staking.Engine.{candidates, candidate_of, add_stake}

module _ (w : Wire) {Txn Env : Type 0} (db : Lmdb Txn Env) (laws : LmdbLaws db) where
  -- The tests that an accepted candidacy has passed.
  candidacy_tests :
      (fuel : ℕ) (tx : CommittedStakeTransaction) (env env' : Env)
      → tx.prefix.header.version ≡ 1
      → add_stake w db fuel tx env ≡ some (success, env')
      → (tx.tx_data.stake_amount ≡ 100000)
        × (exists db env candidates (w.key_serialize tx.tx_data.candidate_public_key) ≡ false)
        × (Named.put db fuel candidates
              (w.key_serialize tx.tx_data.candidate_public_key)
              (serialize_candidate w (candidate_of w db tx))
              env
            ≡ some (success, env'))
  unfolding add_stake
  candidacy_tests fuel tx env env' first done = ground arith

  read-exists :
      (env : Env) (d : ℕ) (k v : Bytes) → read db env d k ≡ some v → exists db env d k ≡ true
  unfolding read exists
  read-exists env d k v e = rw (e, exists) refl

  -- Over an LMDB that obeys LmdbLaws: a stake transaction of version 1 that add_stake accepts
  -- stakes 100000, its candidate was not stored before, and afterwards the candidate's record
  -- stands under its key and other entries are as before.
  pub candidacy_stored :
      (fuel : ℕ) (tx : CommittedStakeTransaction) (env env' : Env)
      → tx.prefix.header.version ≡ 1
      → add_stake w db fuel tx env ≡ some (success, env')
      → (tx.tx_data.stake_amount ≡ 100000)
        × (exists db env candidates (w.key_serialize tx.tx_data.candidate_public_key) ≡ false)
        × (read db env' candidates (w.key_serialize tx.tx_data.candidate_public_key)
            ≡ some (serialize_candidate w (candidate_of w db tx)))
        × Named.Updates db env env' candidates (w.key_serialize tx.tx_data.candidate_public_key)
  unfolding add_stake
  candidacy_stored fuel tx env env' first done =
      let (amount, new, written) = candidacy_tests fuel tx env env' first done in
      let (stored, others) = Named.put_refines db laws fuel _ _ _ env (success, env') written in
      (amount, new, stored, others)

  -- Over an LMDB that obeys LmdbLaws: after a candidacy that add_stake accepted, any further one
  -- for the same candidate is refused with STAKING_CANDIDATE_ALREADY_EXISTS and changes nothing.
  pub candidacy_once :
      (fuel later : ℕ) (tx tx' : CommittedStakeTransaction) (env env' : Env)
      → tx.prefix.header.version ≡ 1
      → tx'.prefix.header.version ≡ 1
      → tx'.tx_data.candidate_public_key ≡ tx.tx_data.candidate_public_key
      → add_stake w db fuel tx env ≡ some (success, env')
      → add_stake w db later tx' env' ≡ some (fail staking_candidate_already_exists, env')
  unfolding add_stake
  candidacy_once fuel later tx tx' env env' first again same done =
      let (_, _, stored, _) = candidacy_stored fuel tx env env' first done in
      let known = read-exists env' candidates _ _ stored in
      let found : exists db env' candidates (w.key_serialize tx'.tx_data.candidate_public_key)
          ≡ true =
        cc (known, same) in
      ground (arith, found)

  -- Votes.
  pub vote_accepted_iff :
      (fuel : ℕ) (tx : CommittedStakeTransaction) (env : Env)
      → tx.prefix.header.version ≡ 2
      → (add_stake w db fuel tx env ≡ some (success, env)) ↔ (
          (exists db env candidates (w.key_serialize tx.tx_data.candidate_public_key) ≡ true)
          × (100 ≤ tx.tx_data.stake_amount))
  unfolding add_stake
  vote_accepted_iff fuel tx env vote = ground arith

  -- A refusal is one of the tests', or the write's.
  refusal-cases :
      (fuel : ℕ) (tx : CommittedStakeTransaction) (env env' : Env) (x : ErrorCode)
      → add_stake w db fuel tx env ≡ some (fail x, env')
      → (env ≡ env')
        ⊎ (Named.put db fuel candidates
              (w.key_serialize tx.tx_data.candidate_public_key)
              (serialize_candidate w (candidate_of w db tx))
              env
            ≡ some (fail x, env'))
  unfolding add_stake
  refusal-cases fuel tx env env' x e = ground arith

  -- Over an LMDB that obeys LmdbLaws: an add_stake that fails leaves all data as they were.
  pub refusal_keeps_data :
      (fuel : ℕ) (tx : CommittedStakeTransaction) (env env' : Env) (x : ErrorCode)
      → add_stake w db fuel tx env ≡ some (fail x, env')
      → SameData db env env'
  refusal_keeps_data fuel tx env env' x e = elim (refusal-cases fuel tx env env' x e) [
    | inl same ↦ record { same = λ d k. ap (λ s. db.get (db.begin s) d k) (sym same) }
    | inr failed ↦ Named.put_refines db laws fuel _ _ _ env (fail x, env') failed
  ]
