-- ===== src/Database/Present.antt =====
-- Facts about the entries of a database that a chain of writes establishes and keeps.
use turtlecoin_v.Base.{ℕ, ◌≡◌, sym, ◌∙◌, true, List, [], ◌∷◌, All, Option-cases, inl, inr}
use turtlecoin_v.Serial.{Bytes}
use turtlecoin_v.Database.{Lmdb, Action, exists}
use turtlecoin_v.Database.Laws.{Keeps, Present}

module _ {Txn Env : Type 0} (db : Lmdb Txn Env) where
  pub Keeps-All :
      {A : Type 0} {action : Action Txn} (P : A → Txn → Type 0)
      → ((x : A) → Keeps db action (P x))
      → (xs : List A) → Keeps db action (λ t. All (λ x. P x t) xs)
  Keeps-All P k [] = record { kept = λ t t' p e. tt }
  Keeps-All P k (x ∷ xs) = record {
    kept = λ t t' p e. ((k x).kept t t' p.0 e, (Keeps-All P k xs).kept t t' p.1 e);
  }

  -- A key that is present in a transaction exists once it is committed.
  pub present-exists :
      (t : Txn) (env : Env) (d : ℕ) (k : Bytes)
      → Present db d k t
      → ((d : ℕ) (k : Bytes) → db.get (db.begin env) d k ≡ db.get t d k)
      → exists db env d k ≡ true
  unfolding exists
  present-exists t env d k p visible = elim (Option-cases (db.get (db.begin env) d k)) [
    | inl n ↦ absurd (p.entry (sym (visible d k) ∙ n))
    | inr (v, e) ↦ rw (e, exists)
  ]
