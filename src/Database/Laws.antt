-- ===== src/Database/Laws.antt =====
-- What the callers rely on in LMDB, and what follows for chains of writes.
use turtlecoin_v.Base.{
  ℕ, ◌≡◌, ◌≢◌, refl, none, some, List, [], ◌∷◌, ◌⊎◌, inl, inr, All, ◌∙◌, sym, subst,
}
use turtlecoin_v.Errors.{Error, success, fail, ErrorCode}
use turtlecoin_v.Serial.{Bytes}
use turtlecoin_v.Database.{Lmdb, Action, continue_with, ◌>>◌, each}

module _ {Txn Env : Type 0} (db : Lmdb Txn Env) where
  -- The documented behaviour: a successful put or delete changes the entry of its key and no
  -- other, a delete of a value adds no
  -- entry, a commit makes the writes visible or leaves the data alone, and so does an expansion.
  pub record LmdbLaws : Type 0 where
    pub put_same :
        (t t' : Txn) (d : ℕ) (k v : Bytes) → db.put t d k v ≡ (success, t') → db.get t' d k ≡ some v
    pub put_other :
        (t t' : Txn) (d : ℕ) (k v : Bytes) (d' : ℕ) (k' : Bytes)
        → db.put t d k v ≡ (success, t')
        → (db.get t' d' k' ≡ db.get t d' k') ⊎ ((d' ≡ d) × (k' ≡ k))
    pub del_same :
        (t t' : Txn) (d : ℕ) (k : Bytes) → db.del t d k ≡ (success, t') → db.get t' d k ≡ none
    pub del_other :
        (t t' : Txn) (d : ℕ) (k : Bytes) (d' : ℕ) (k' : Bytes)
        → db.del t d k ≡ (success, t')
        → (db.get t' d' k' ≡ db.get t d' k') ⊎ ((d' ≡ d) × (k' ≡ k))
    pub del_value_absent :
        (t t' : Txn) (d : ℕ) (k v : Bytes) (d' : ℕ) (k' : Bytes)
        → db.del_value t d k v ≡ (success, t')
        → db.get t d' k' ≡ none
        → db.get t' d' k' ≡ none
    pub commit_done :
        (env env' : Env) (t : Txn) (d : ℕ) (k : Bytes)
        → db.commit env t ≡ (success, env')
        → db.get (db.begin env') d k ≡ db.get t d k
    pub commit_failed :
        (env env' : Env) (t : Txn) (e : ErrorCode) (d : ℕ) (k : Bytes)
        → db.commit env t ≡ (fail e, env')
        → db.get (db.begin env') d k ≡ db.get (db.begin env) d k
    pub expand_same :
        (env : Env) (d : ℕ) (k : Bytes)
        → db.get (db.begin (db.expand env).1) d k ≡ db.get (db.begin env) d k

  -- Two environments with the same data.
  pub record SameData (env env' : Env) : Type 0 where
    pub same : (d : ℕ) (k : Bytes) → db.get (db.begin env') d k ≡ db.get (db.begin env) d k

  -- What an action that succeeds establishes.
  pub record Establishes (action : Action Txn) (P : Txn → Type 0) : Type 0 where
    pub after : (t t' : Txn) → action t ≡ (success, t') → P t'

  -- What an action that succeeds leaves in place.
  pub record Keeps (action : Action Txn) (P : Txn → Type 0) : Type 0 where
    pub kept : (t t' : Txn) → P t → action t ≡ (success, t') → P t'

  continue_with-success :
      (rest : Action Txn) (r : Error × Txn) (t' : Txn)
      → continue_with rest r ≡ (success, t')
      → (t : Txn) × (r ≡ (success, t)) × (rest t ≡ (success, t'))
  continue_with-success rest (Error.success, t) t' e = (t, refl, e)
  continue_with-success rest (Error.fail x, t) t' e = cc

  pub Establishes-then :
      {first rest : Action Txn} (P : Txn → Type 0)
      → Establishes first P
      → Keeps rest P
      → Establishes (first >> rest) P
  unfolding ◌>>◌
  Establishes-then {first = first} {rest = rest} P f k = record {
    after = λ t t' e.
        let (m, a, b) = continue_with-success rest (first t) t' e in k.kept m t' (f.after t m a) b;
  }

  pub Establishes-last :
      (first : Action Txn) {rest : Action Txn} (P : Txn → Type 0)
      → Establishes rest P
      → Establishes (first >> rest) P
  unfolding ◌>>◌
  Establishes-last first {rest = rest} P f = record {
    after = λ t t' e. let (m, a, b) = continue_with-success rest (first t) t' e in f.after m t' b;
  }

  pub Keeps-then :
      {first rest : Action Txn} (P : Txn → Type 0)
      → Keeps first P
      → Keeps rest P
      → Keeps (first >> rest) P
  unfolding ◌>>◌
  Keeps-then {first = first} {rest = rest} P f k = record {
    kept = λ t t' p e.
        let (m, a, b) = continue_with-success rest (first t) t' e in k.kept m t' (f.kept t m p a) b;
  }

  pub Keeps-each :
      {A : Type 0} (f : A → Action Txn) (P : Txn → Type 0)
      → ((x : A) → Keeps (f x) P)
      → (xs : List A) → Keeps (each f xs) P
  unfolding each
  Keeps-each f P k [] = record { kept = λ t t' p e. subst P (cc) p }
  Keeps-each f P k (x ∷ xs) = record {
    kept = λ t t' p e.
        let (m, a, b) = continue_with-success (each f xs) (f x t) t' e in
        (Keeps-each f P k xs).kept m t' ((k x).kept t m p a) b;
  }

  -- A loop establishes a fact about each of its items, if a later round keeps it.
  pub Establishes-each :
      {A : Type 0} (f : A → Action Txn) (P : A → Txn → Type 0)
      → ((x : A) → Establishes (f x) (P x))
      → ((x y : A) → Keeps (f y) (P x))
      → (xs : List A) → Establishes (each f xs) (λ t. All (λ x. P x t) xs)
  unfolding each
  Establishes-each f P h k [] = record { after = λ t t' e. tt }
  Establishes-each f P h k (x ∷ xs) = record {
    after = λ t t' e.
        let (m, a, b) = continue_with-success (each f xs) (f x t) t' e in
        (
          (Keeps-each f (P x) (k x) xs).kept m t' ((h x).after t m a) b,
          (Establishes-each f P h k xs).after m t' b,
        );
  }

  -- The key `k` of the database `d` has an entry.
  pub record Present (d : ℕ) (k : Bytes) (t : Txn) : Type 0 where
    pub entry : db.get t d k ≢ none

  module _ (laws : LmdbLaws) where
    pub put-Present : (d : ℕ) (k v : Bytes) → Establishes (λ t. db.put t d k v) (Present d k)
    put-Present d k v = record {
      after = λ t t' e. record { entry = λ n. cc (laws.put_same t t' d k v e, n) };
    }

    pub put-Keeps_Present :
        (d : ℕ) (k v : Bytes) (d' : ℕ) (k' : Bytes) → Keeps (λ t. db.put t d k v) (Present d' k')
    put-Keeps_Present d k v d' k' = record {
      kept = λ t t' p e. record {
        entry = λ n. elim (laws.put_other t t' d k v d' k' e) [
          | inl unchanged ↦ p.entry (sym unchanged ∙ n)
          | inr (same_d, same_k) ↦ cc (laws.put_same t t' d k v e, n, same_d, same_k)
        ];
      };
    }

  -- The key `k` of the database `d` has no entry.
  pub record Absent (d : ℕ) (k : Bytes) (t : Txn) : Type 0 where
    pub no_entry : db.get t d k ≡ none

  module _ (laws : LmdbLaws) where
    pub del-Absent : (d : ℕ) (k : Bytes) → Establishes (λ t. db.del t d k) (Absent d k)
    del-Absent d k = record { after = λ t t' e. record { no_entry = laws.del_same t t' d k e } }

    pub del-Keeps_Absent :
        (d : ℕ) (k : Bytes) (d' : ℕ) (k' : Bytes) → Keeps (λ t. db.del t d k) (Absent d' k')
    del-Keeps_Absent d k d' k' = record {
      kept = λ t t' p e. record {
        no_entry = elim (laws.del_other t t' d k d' k' e) [
          | inl unchanged ↦ unchanged ∙ p.no_entry
          | inr (same_d, same_k) ↦ cc (laws.del_same t t' d k e, same_d, same_k)
        ];
      };
    }

    pub del_value-Keeps_Absent :
        (d : ℕ) (k v : Bytes) (d' : ℕ) (k' : Bytes)
        → Keeps (λ t. db.del_value t d k v) (Absent d' k')
    del_value-Keeps_Absent d k v d' k' = record {
      kept = λ t t' p e. record { no_entry = laws.del_value_absent t t' d k v d' k' e p.no_entry };
    }
