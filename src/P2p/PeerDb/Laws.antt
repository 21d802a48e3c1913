-- ===== src/P2p/PeerDb/Laws.antt =====
-- About the contents of the peer list (src/p2p/peer_database.cpp), as bytes in its database.
use turtlecoin_v.Base.{
  zero, suc, length, ℕ, ◌≤◌, ◌≡◌, ◌≢◌, List, [], ◌∷◌, arith, inl, inr, some, ltb, ◌==◌, Option,
  Option-cases, sym, ◌∙◌, guard, if_both,
}
use turtlecoin_v.Errors.{Error}
use turtlecoin_v.Errors.Laws.{Outcome-cases}
use turtlecoin_v.Serial.{Bytes, Wire}
use turtlecoin_v.Crypto.{Crypto}
use turtlecoin_v.Network.Ip.{Ipv6}
use turtlecoin_v.Network.Peer.{NetworkPeer, serialize_peer}
use turtlecoin_v.Database.{Lmdb, read}
use turtlecoin_v.Database.Laws.{LmdbLaws, SameData}
use turtlecoin_v.Database.Named
use turtlecoin_v.Database.Named.{PutOutcome, DelOutcome, put_refines, del_refines}
use turtlecoin_v.P2p.PeerDb.{
  PeerTable, truncate, prune_time, add, del, get, prune_each, prune, touch,
}
use turtlecoin_v.P2p.PeerDb.Stored.{peerlist, answered, put_peer, del_peer, peer_table}

pub length-truncate : (n : ℕ) (ps : List NetworkPeer) → length (truncate n ps) ≤ n
unfolding truncate
length-truncate zero ps = omega arith
length-truncate (suc n) [] = omega arith
length-truncate (suc n) (p ∷ ps) = omega (arith, length-truncate n ps)

-- An entry of the peer list: a peer's bytes under the peer's id, which is not that of the node.
abbrev pub IsEntry : Wire → ℕ → Bytes → Bytes → Type 0
IsEntry w self k v =
    (p : NetworkPeer) × (k ≡ w.key_serialize p.peer_id)
    × (v ≡ serialize_peer w p)
    × (p.peer_id ≢ self)

-- All entries are such.
pub record IsPeerList (w : Wire) {Txn Env : Type 0} (db : Lmdb Txn Env) (self : ℕ) (env : Env)
    : Type 0 where
  pub entries : (k v : Bytes) → read db env peerlist k ≡ some v → IsEntry w self k v

module _ (w : Wire) (ip : Ipv6) {Txn Env : Type 0} (db : Lmdb Txn Env) (laws : LmdbLaws db)
    (fuel : ℕ) (walk : Env → ℕ → List Bytes) (self : ℕ) where
  abbrev t : PeerTable Env
  t = peer_table w ip db fuel walk

  same-IsPeerList :
      (env env' : Env) → SameData db env env' → IsPeerList w db self env → IsPeerList w db self env'
  unfolding read
  same-IsPeerList env env' s h = record {
    entries = λ k v e. h.entries k v (sym (s.same peerlist k) ∙ e);
  }

  PutOutcome-IsPeerList :
      (p : NetworkPeer) (env : Env) (out : Error × Env)
      → p.peer_id ≢ self
      → PutOutcome db peerlist (w.key_serialize p.peer_id) (serialize_peer w p) env out
      → IsPeerList w db self env
      → IsPeerList w db self out.1
  PutOutcome-IsPeerList p env (Error.success, env') ne (stored, updates) h = record {
    entries = λ k v e. elim (updates.others peerlist k) [
      | inl kept ↦ h.entries k v (sym kept ∙ e)
      | inr (_, here) ↦ (p, here, cc (stored, here, e), ne)
    ];
  }
  PutOutcome-IsPeerList p env (Error.fail x, env') ne same h = same-IsPeerList env env' same h

  DelOutcome-IsPeerList :
      (k : Bytes) (env : Env) (out : Error × Env)
      → DelOutcome db peerlist k env out
      → IsPeerList w db self env
      → IsPeerList w db self out.1
  DelOutcome-IsPeerList k env (Error.success, env') (gone, updates) h = record {
    entries = λ j v e. elim (updates.others peerlist j) [
      | inl kept ↦ h.entries j v (sym kept ∙ e)
      | inr (_, here) ↦ absurd (cc (gone, here, e))
    ];
  }
  DelOutcome-IsPeerList k env (Error.fail x, env') same h = same-IsPeerList env env' same h

  put_peer-IsPeerList :
      (p : NetworkPeer) (env : Env)
      → p.peer_id ≢ self
      → IsPeerList w db self env
      → IsPeerList w db self (put_peer w ip db fuel walk p.peer_id p env).1
  unfolding put_peer answered
  put_peer-IsPeerList p env ne h =
      let call : Option (Error × Env) =
        Named.put db fuel peerlist (w.key_serialize p.peer_id) (serialize_peer w p) env in
      elim (Option-cases call) [
        | inl stuck ↦ rw (stuck, answered) h
        | inr (out, e) ↦
            rw (e, answered)
              (PutOutcome-IsPeerList p env out ne (put_refines db laws fuel peerlist _ _ env out e)
                h)
      ]

  del_peer-IsPeerList :
      (k : ℕ) (env : Env)
      → IsPeerList w db self env
      → IsPeerList w db self (del_peer w ip db fuel walk k env).1
  unfolding del_peer answered
  del_peer-IsPeerList k env h =
      elim (Option-cases (Named.del db fuel peerlist (w.key_serialize k) env)) [
        | inl stuck ↦ rw (stuck, answered) h
        | inr (out, e) ↦
            rw (e, answered)
              (DelOutcome-IsPeerList _ env out (del_refines db laws fuel peerlist _ env out e) h)
      ]

  module _ (c : Crypto) (shuffle : List NetworkPeer → List NetworkPeer) where
    -- Adding a peer keeps the list in order, whatever the peer.
    pub add-IsPeerList :
        (now : ℕ) (p : NetworkPeer) (env : Env)
        → IsPeerList w db self env
        → IsPeerList w db self (add c shuffle t self now p env).1
    unfolding add peer_table
    add-IsPeerList now p env h =
        guard (λ (r : Error × Env). IsPeerList w db self r.1) (p.peer_id == self) h
          λ other.
            guard (λ (r : Error × Env). IsPeerList w db self r.1) (ltb p.last_seen (prune_time now))
              h λ _. put_peer-IsPeerList p env (ground arith) h

    pub del-IsPeerList :
        (k : ℕ) (env : Env)
        → IsPeerList w db self env
        → IsPeerList w db self (del c shuffle t self k env).1
    unfolding del peer_table
    del-IsPeerList k env h = del_peer-IsPeerList k env h

    prune_each-IsPeerList :
        (before : ℕ) (ps : List NetworkPeer) (env : Env)
        → IsPeerList w db self env
        → IsPeerList w db self (prune_each c shuffle t self before ps env)
    unfolding prune_each
    prune_each-IsPeerList before [] env h = h
    prune_each-IsPeerList before (p ∷ ps) env h = prune_each-IsPeerList before ps _ (
        if_both (IsPeerList w db self) (ltb p.last_seen before)
          (λ old. del-IsPeerList p.peer_id env h) (λ fresh. h))

    pub touch-IsPeerList :
        (now k : ℕ) (env : Env)
        → IsPeerList w db self env
        → IsPeerList w db self (touch c shuffle t self now k env).1
    unfolding touch
    touch-IsPeerList now k env h = elim (Outcome-cases (get c shuffle t self k env)) [
      | inl (p, e) ↦ rw (e, touch) (add-IsPeerList now (record p { last_seen = now }) env h)
      | inr (inl (x, e)) ↦ rw (e, touch) h
      | inr (inr e) ↦ rw (e, touch) h
    ]

    -- The calls that change the list, in any order and at any times.
    pub data Step : Env → Env → Type 0 where
      added : (now : ℕ) (p : NetworkPeer) (env : Env) → Step env (add c shuffle t self now p env).1
      deleted : (k : ℕ) (env : Env) → Step env (del c shuffle t self k env).1
      pruned : (now : ℕ) (env : Env) → Step env (prune c shuffle t self now env)
      touched : (now k : ℕ) (env : Env) → Step env (touch c shuffle t self now k env).1

    pub Step-IsPeerList :
        {env env' : Env} → Step env env' → IsPeerList w db self env → IsPeerList w db self env'
    unfolding prune
    Step-IsPeerList (added now p env) h = add-IsPeerList now p env h
    Step-IsPeerList (deleted k env) h = del-IsPeerList k env h
    Step-IsPeerList (pruned now env) h = prune_each-IsPeerList _ _ env h
    Step-IsPeerList (touched now k env) h = touch-IsPeerList now k env h
