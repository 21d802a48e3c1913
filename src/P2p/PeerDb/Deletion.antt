-- ===== src/P2p/PeerDb/Deletion.antt =====
-- About the deletes of `PeerDb` in its database (src/database/db_lmdb.cpp).
use turtlecoin_v.Base.{
  ℕ, suc, ◌≡◌, ◌≢◌, List, inl, inr, true, none, some, Option, Option-cases, Bool-cases, ap, sym,
  subst, ◌∙◌,
}
use turtlecoin_v.Errors.{Error, success}
use turtlecoin_v.Serial.{Bytes, Wire}
use turtlecoin_v.Network.Ip.{Ipv6}
use turtlecoin_v.Database.{Lmdb, read, retry, attempt, is_full}
use turtlecoin_v.Database.Laws.{LmdbLaws}
use turtlecoin_v.Database.Named
use turtlecoin_v.Database.Named.{DelOutcome, del_refines}
use turtlecoin_v.P2p.PeerDb.Stored.{peerlist, same_key, answered, del_peer}
use turtlecoin_v.P2p.PeerDb.Listing.{same_key-true, same_key_refl}

-- An LMDB that runs out of nothing: an entry that is there can be deleted, and a commit succeeds.
pub record IsRoomy {Txn Env : Type 0} (db : Lmdb Txn Env) : Type 0 where
  pub del_present : (t : Txn) (d : ℕ) (k : Bytes) → db.get t d k ≢ none → (db.del t d k).0 ≡ success
  pub commits : (env : Env) (t : Txn) → (db.commit env t).0 ≡ success

module _ (w : Wire) (ip : Ipv6) {Txn Env : Type 0} (db : Lmdb Txn Env) (laws : LmdbLaws db)
    (roomy : IsRoomy db) (fuel : ℕ) (walk : Env → ℕ → List Bytes) where
  abbrev pub delete : ℕ → Env → Env
  delete k env = (del_peer w ip db (suc fuel) walk k env).1

  del_works :
      (d : ℕ) (k : Bytes) (env : Env)
      → read db env d k ≢ none
      → (env' : Env) × (Named.del db (suc fuel) d k env ≡ some (success, env'))
  unfolding Named.del retry attempt is_full read
  del_works d k env there =
      let out = db.del (db.begin env) d k in
      let done = roomy.del_present (db.begin env) d k there in
      let end = db.commit env out.1 in
      let once : attempt db (λ t. db.del t d k) env ≡ (success, end.1) =
        rw (done, attempt) (ap (λ (x : Error). (x, end.1)) (roomy.commits env out.1)) in
      let good : (attempt db (λ t. db.del t d k) env).0 ≡ success = ap (λ r. r.0) once in
      (end.1, rw (good, Named.del, retry, is_full) (ap some once))

  DelOutcome-others :
      (k j : Bytes) (env : Env) (out : Error × Env)
      → DelOutcome db peerlist k env out
      → j ≢ k
      → read db out.1 peerlist j ≡ read db env peerlist j
  unfolding read
  DelOutcome-others k j env (Error.success, env') (gone, updates) ne =
      elim (updates.others peerlist j) [ inl kept ↦ kept | inr (_, here) ↦ absurd (ne here) ]
  DelOutcome-others k j env (Error.fail x, env') same ne = same.same peerlist j

  delete-answer :
      (k : ℕ) (env : Env) (r : Option (Error × Env))
      → Named.del db (suc fuel) peerlist (w.key_serialize k) env ≡ r
      → (j : Bytes)
      → read db (delete k env) peerlist j
        ≡ read db (answered w ip db (suc fuel) walk env r).1 peerlist j
  unfolding del_peer
  delete-answer k env r e j =
      ap (λ a. read db (answered w ip db (suc fuel) walk env a).1 peerlist j) e

  -- Another entry stays.
  pub delete_other :
      (k : ℕ) (j : Bytes) (env : Env)
      → j ≢ w.key_serialize k
      → read db (delete k env) peerlist j ≡ read db env peerlist j
  unfolding answered
  delete_other k j env ne =
      elim (Option-cases (Named.del db (suc fuel) peerlist (w.key_serialize k) env)) [
        | inl stuck ↦ delete-answer k env none stuck j
        | inr (out, e) ↦
            delete-answer k env (some out) e j
            ∙ DelOutcome-others _ j env out (del_refines db laws (suc fuel) peerlist _ env out e) ne
      ]

  DelOutcome-absent :
      (k : Bytes) (env : Env) (out : Error × Env)
      → DelOutcome db peerlist k env out
      → read db env peerlist k ≡ none
      → read db out.1 peerlist k ≡ none
  unfolding read
  DelOutcome-absent k env (Error.success, env') (gone, updates) missing = gone
  DelOutcome-absent k env (Error.fail x, env') same missing = same.same peerlist k ∙ missing

  -- The entry itself is gone, whether it was there or not.
  pub delete_same : (k : ℕ) (env : Env) → read db (delete k env) peerlist (w.key_serialize k) ≡ none
  unfolding answered
  delete_same k env =
      let key : Bytes = w.key_serialize k in
      elim (Option-cases (read db env peerlist key)) [
        | inr (v, found) ↦
            let (env', e) = del_works peerlist key env (λ missing. cc (missing, found)) in
            delete-answer k env (some (success, env')) e key
            ∙ (del_refines db laws (suc fuel) peerlist key env (success, env') e).0
        | inl missing ↦ elim (Option-cases (Named.del db (suc fuel) peerlist key env)) [
          | inl stuck ↦ delete-answer k env none stuck key ∙ missing
          | inr (out, e) ↦
              delete-answer k env (some out) e key
              ∙ DelOutcome-absent key env out
                  (del_refines db laws (suc fuel) peerlist key env out e) missing
        ]
      ]

  -- An entry after a delete was there before.
  pub delete_subset :
      (k : ℕ) (j v : Bytes) (env : Env)
      → read db (delete k env) peerlist j ≡ some v
      → read db env peerlist j ≡ some v
  delete_subset k j v env e =
      let key : Bytes = w.key_serialize k in
      elim (Bool-cases (same_key j key)) [
        | inl same ↦ absurd (cc (same_key-true j key same, delete_same k env, e))
        | inr other ↦
            sym (
              delete_other k j env
                (λ same. cc (subst (λ x. same_key j x ≡ true) same (same_key_refl j), other)))
            ∙ e
      ]
