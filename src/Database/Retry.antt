-- ===== src/Database/Retry.antt =====
-- About attempts and retries of a transaction (MDB_CHECK_TXN_EXPAND of src/database/db_lmdb.h).
use turtlecoin_v.Base.{
  ℕ, zero, suc, ◌≡◌, ◌<◌, refl, true, false, Option, some, ◌∙◌, subst, Bool-cases, inl, inr, arith,
}
use mathlib.Core.Option.{some-injective}
use turtlecoin_v.Errors.{Error, success, fail, ErrorCode}
use turtlecoin_v.Serial.{Bytes}
use turtlecoin_v.Database.{Lmdb, Action, is_full, attempt, retry}
use turtlecoin_v.Database.Laws.{LmdbLaws, SameData}

module _ {Txn Env : Type 0} (db : Lmdb Txn Env) where
  module _ (laws : LmdbLaws db) where
    -- An attempt that succeeds makes visible what its action establishes about entries.
    pub attempt-commits :
        (action : Action Txn) (env env' : Env)
        → attempt db action env ≡ (success, env')
        → (t : Txn) × (action (db.begin env) ≡ (success, t))
          × ((d : ℕ) (k : Bytes) → db.get (db.begin env') d k ≡ db.get t d k)
    unfolding attempt
    attempt-commits action env env' e = committed (action (db.begin env)) refl e
      where
        committed :
            (r : Error × Txn)
            → action (db.begin env) ≡ r
            → (elim r.0 [ success ↦ db.commit env r.1 | fail x ↦ (fail x, env) ]) ≡ (success, env')
            → (t : Txn) × (action (db.begin env) ≡ (success, t))
              × ((d : ℕ) (k : Bytes) → db.get (db.begin env') d k ≡ db.get t d k)
        committed (Error.success, t) a h = (t, a, λ d k. laws.commit_done env env' t d k h)
        committed (Error.fail x, t) a h = cc

    -- An attempt that fails leaves the data alone.
    pub attempt-fails :
        (action : Action Txn) (env env' : Env) (x : ErrorCode)
        → attempt db action env ≡ (fail x, env')
        → SameData db env env'
    unfolding attempt
    attempt-fails action env env' x e = aborted (action (db.begin env)) e
      where
        aborted :
            (r : Error × Txn)
            → (elim r.0 [ success ↦ db.commit env r.1 | fail y ↦ (fail y, env) ]) ≡ (fail x, env')
            → SameData db env env'
        aborted (Error.success, t) h = record {
          same = λ d k. laws.commit_failed env env' t x d k h;
        }
        aborted (Error.fail y, t) h = record { same = λ d k. cc }

    SameData-refl : (env : Env) → SameData db env env
    SameData-refl env = record { same = λ d k. refl }

    SameData-trans : {a b c : Env} → SameData db a b → SameData db b c → SameData db a c
    SameData-trans p q = record { same = λ d k. q.same d k ∙ p.same d k }

    expanded : {a b : Env} → SameData db a b → SameData db a (db.expand b).1
    expanded {b = b} p = record { same = λ d k. laws.expand_same b d k ∙ p.same d k }

    full_fails : (r : Error × Env) → is_full r.0 ≡ true → (x : ErrorCode) × (r ≡ (fail x, r.1))
    unfolding is_full
    full_fails (Error.success, env) h = cc
    full_fails (Error.fail x, env) h = (x, refl)

    -- What an answer of `retry` says: a success comes from an attempt on the same data, and a
    -- failure leaves the data alone.
    abbrev pub Outcomes : Action Txn → Env → Error × Env → Type 0
    Outcomes action env (success, env') =
        (before : Env) × SameData db env before × (attempt db action before ≡ (success, env'))
    Outcomes action env (fail x, env') = SameData db env env'

    attempt-Outcomes :
        (action : Action Txn) (env before : Env) (r : Error × Env)
        → SameData db env before
        → attempt db action before ≡ r
        → Outcomes action env r
    attempt-Outcomes action env before (Error.success, env') p e = (before, p, e)
    attempt-Outcomes action env before (Error.fail x, env') p e =
        SameData-trans p (attempt-fails action before env' x e)

    -- The answer of one round that is not the last.
    round-Outcomes :
        (action : Action Txn) (env : Env) (r x : Error × Env) (later : Option (Error × Env))
        (out : Error × Env)
        → is_full r.0 ≡ true
        → Outcomes action env r
        → x ≡ db.expand r.1
        → (later ≡ some out → SameData db env x.1 → Outcomes action env out)
        → (elim x.0 [ success ↦ later | fail _ ↦ some (r.0, x.1) ]) ≡ some out
        → Outcomes action env out
    unfolding is_full
    round-Outcomes action env (Error.success, e1) x later out full o ex rec h = cc
    round-Outcomes action env (Error.fail y, e1) (Error.success, e2) later out full o ex rec h =
        rec h (record { same = λ d k. cc ((expanded o).same d k, ex) })
    round-Outcomes action env (Error.fail y, e1) (Error.fail z, e2) later out full o ex rec h =
        subst (Outcomes action env) (some-injective _ _ h)
          (record { same = λ d k. cc ((expanded o).same d k, ex) })

    retry_from :
        (fuel : ℕ) (action : Action Txn) (env now : Env) (out : Error × Env)
        → SameData db env now
        → retry db fuel action now ≡ some out
        → Outcomes action env out
    unfolding retry
    retry_from zero action env now out p h = cc
    retry_from (suc fuel) action env now out p h =
        elim (Bool-cases (is_full (attempt db action now).0)) [
          | inr last ↦
              attempt-Outcomes action env now out p (some-injective _ _ (rw (last, retry) at h))
          | inl full ↦
              round-Outcomes action env (attempt db action now)
                (db.expand (attempt db action now).1)
                (retry db fuel action (db.expand (attempt db action now).1).1) out full
                (attempt-Outcomes action env now (attempt db action now) p refl) refl
                (λ later q. retry_from fuel action env _ out q later) (rw (full, retry) at h)
        ]

    -- Over an LMDB that obeys LmdbLaws: a retried transaction that succeeds comes from an attempt
    -- on the same data, and one that fails leaves the data alone.
    pub retry-Outcomes :
        (fuel : ℕ) (action : Action Txn) (env : Env) (out : Error × Env)
        → retry db fuel action env ≡ some out
        → Outcomes action env out
    retry-Outcomes fuel action env out h = retry_from fuel action env env out (SameData-refl env) h

  -- The environment after `n` full attempts, each followed by an expansion.
  unfoldable pub expanded_times : ℕ → Action Txn → Env → Env
  expanded_times zero action env = env
  expanded_times (suc n) action env =
      expanded_times n action (db.expand (attempt db action env).1).1

  -- If an attempt is not refused for a full map after n expansions, more than n rounds of fuel
  -- give an answer.
  pub retry_total :
      (n fuel : ℕ) (action : Action Txn) (env : Env)
      → n < fuel
      → is_full (attempt db action (expanded_times n action env)).0 ≡ false
      → (out : Error × Env) × (retry db fuel action env ≡ some out)
  unfolding retry expanded_times
  retry_total n zero action env lt fits = absurd (omega arith)
  retry_total zero (suc fuel) action env lt fits = (attempt db action env, rw (fits, retry))
  retry_total (suc n) (suc fuel) action env lt fits =
      elim (Bool-cases (is_full (attempt db action env).0)) [
        | inr last ↦ (attempt db action env, rw (last, retry))
        | inl full ↦
            let later =
              retry_total n fuel action (db.expand (attempt db action env).1).1 (omega arith)
                fits in
            rw (full, retry) (answer (db.expand (attempt db action env).1) later.0 later.1)
      ]
    where
      answer :
          (x : Error × Env) (out : Error × Env)
          → retry db fuel action x.1 ≡ some out
          → (out' : Error × Env) × ((elim x.0 [
            | success ↦ retry db fuel action x.1
            | fail _ ↦ some ((attempt db action env).0, x.1)
          ])
              ≡ some out')
      answer (Error.success, e2) out h = (out, h)
      answer (Error.fail z, e2) out h = (((attempt db action env).0, e2), refl)
