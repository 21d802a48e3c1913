-- ===== src/P2p/PeerDb/Listing.antt =====
-- About the list of all peers that is read from the database "peerlist" (src/database/db_lmdb.h,
-- src/database/db_lmdb.cpp).
use turtlecoin_v.Base.{
  ℕ, ◌≡◌, ◌≢◌, refl, true, List, [], ◌∷◌, All, arith, inl, inr, none, some, Option-cases,
  Bool-cases, sym, ap, subst, ◌∙◌, ◌==◌, append-nil, ==_iff,
}
use turtlecoin_v.Serial.{Bytes, Wire}
use turtlecoin_v.Serial.Laws.{WireLaws}
use turtlecoin_v.Network.Ip.{Ipv6}
use turtlecoin_v.Network.Peer.{NetworkPeer, serialize_peer, deserialize_peer}
use turtlecoin_v.Network.Peer.Laws.{IsStorable, stored, stored_back}
use turtlecoin_v.Database.{Lmdb, read}
use turtlecoin_v.Database.Named
use turtlecoin_v.P2p.PeerDb.{PeerTable}
use turtlecoin_v.P2p.PeerDb.Stored.{
  peerlist, same_key, list_keys, read_values, read_all, peer_table,
}

-- The documented behaviour of a cursor: it comes to the key of every entry, and no key is empty.
pub record WalkLaws {Txn Env : Type 0} (db : Lmdb Txn Env) (walk : Env → ℕ → List Bytes)
    : Type 1 where
  pub complete :
      (env : Env) (d : ℕ) (P : Bytes → Type 0)
      → All P (walk env d)
      → (k v : Bytes) → read db env d k ≡ some v
      → P k
  pub filled : (env : Env) (d : ℕ) → All (λ k. k ≢ []) (walk env d)

-- Under each key are the bytes of a peer with that key's id, with fields in the range of their types.
pub record IsStoredList (w : Wire) (ip : Ipv6) {Txn Env : Type 0} (db : Lmdb Txn Env) (env : Env)
    : Type 0 where
  pub entries :
      (k v : Bytes)
      → read db env peerlist k ≡ some v
      → (p : NetworkPeer) × (k ≡ w.key_serialize p.peer_id)
        × (v ≡ serialize_peer w p)
        × IsStorable ip p

pub same_key-true : (xs ys : Bytes) → same_key xs ys ≡ true → xs ≡ ys
unfolding same_key
same_key-true [] [] h = refl
same_key-true [] (y ∷ ys) h = cc h
same_key-true (x ∷ xs) [] h = cc h
same_key-true (x ∷ xs) (y ∷ ys) h = elim (Bool-cases (x == y)) [
  | inl e ↦ cc ((==_iff x y).0 e, same_key-true xs ys (rw e at h))
  | inr e ↦ absurd (ground arith)
]

pub same_key_refl : (xs : Bytes) → same_key xs xs ≡ true
unfolding same_key
same_key_refl [] = refl
same_key_refl (x ∷ xs) = ground (arith, same_key_refl xs)

list_keys-All :
    (P : Bytes → Type 0) (last : Bytes) (ks : List Bytes)
    → P last
    → All P (list_keys last ks)
    → All P ks
unfolding list_keys
list_keys-All P last [] p h = tt
list_keys-All P last (k ∷ ks) p h = elim (Bool-cases (same_key k last)) [
  | inl e ↦ (subst P (sym (same_key-true k last e)) p, list_keys-All P last ks p (rw e at h))
  | inr e ↦
      let (q, rest) : All P (k ∷ list_keys k ks) = rw e at h in (q, list_keys-All P k ks q rest)
]

list_keys-first :
    (P : Bytes → Type 0) (ks : List Bytes)
    → All (λ k. k ≢ []) ks
    → All P (list_keys [] ks)
    → All P ks
unfolding list_keys
list_keys-first P [] ne h = tt
list_keys-first P (k ∷ ks) ne h = elim (Bool-cases (same_key k [])) [
  | inl e ↦ absurd (ne.0 (same_key-true k [] e))
  | inr e ↦
      let (q, rest) : All P (k ∷ list_keys k ks) = rw e at h in (q, list_keys-All P k ks q rest)
]

module _ (w : Wire) (wire : WireLaws w) (ip : Ipv6) {Txn Env : Type 0} (db : Lmdb Txn Env)
    (fuel : ℕ) (walk : Env → ℕ → List Bytes) where
  abbrev t : PeerTable Env
  t = peer_table w ip db fuel walk

  pub reads_stored :
      (p : NetworkPeer)
      → IsStorable ip p
      → deserialize_peer w ip (serialize_peer w p) ≡ some (stored ip p, [])
  reads_stored p h =
      ap (deserialize_peer w ip) (sym (append-nil (serialize_peer w p)))
      ∙ (stored_back w wire ip p h).back []

  -- A listed peer is what comes back of an entry.
  abbrev pub Listed : Env → NetworkPeer → Type 0
  Listed env q =
      (p : NetworkPeer) × (q ≡ stored ip p)
      × (read db env peerlist (w.key_serialize p.peer_id) ≡ some (serialize_peer w p))
      × IsStorable ip p

  -- What is read of a key's value has a property.
  abbrev pub Covered : Env → (NetworkPeer → Type 0) → Bytes → Type 0
  Covered env P k =
      (v : Bytes) (q : NetworkPeer)
      → read db env peerlist k ≡ some v
      → deserialize_peer w ip v ≡ some (q, [])
      → P q

  abbrev Listing : Env → (NetworkPeer → Type 0) → List Bytes → List NetworkPeer → Type 0
  Listing env P ks ps =
      (read_values w ip (Named.get_all db peerlist ks env) ≡ some ps)
      × All (Listed env) ps
      × (All P ps → All (Covered env P) ks)

  listing :
      (env : Env) (P : NetworkPeer → Type 0)
      → IsStoredList w ip db env
      → (ks : List Bytes) → (ps : List NetworkPeer) × Listing env P ks ps
  unfolding Named.get_all read_values
  listing env P h [] = ([], (refl, tt, λ a. tt))
  listing env P h (k ∷ ks) =
      let (ps, (e, listed, covers)) = listing env P h ks in
      elim (Option-cases (read db env peerlist k)) [
        | inl missing ↦ (
          ps,
          (
            rw (missing, Named.get_all) e,
            listed,
            λ a. ((λ v q f g. absurd (cc (missing, f))), covers a),
          ),
        )
        | inr (v, found) ↦
            let (p, key, bytes, storable) = h.entries k v found in
            let back : deserialize_peer w ip v ≡ some (stored ip p, []) =
              ap (deserialize_peer w ip) bytes ∙ reads_stored p storable in
            (
              stored ip p ∷ ps,
              (
                rw (found, Named.get_all, back, read_values, e) refl,
                ((p, refl, cc (key, bytes, found), storable), listed),
                (λ a. (
                  (λ v' q f g.
                      let same : stored ip p ≡ q = cc (found, f, back, g) in subst P same a.0),
                  covers a.1,
                )),
              ),
            )
      ]

  -- Reading all peers of a list of such entries does not throw.
  read_all-ne-none : (env : Env) → IsStoredList w ip db env → read_all w ip db fuel walk env ≢ none
  unfolding read_all
  read_all-ne-none env h e =
      let (ps, (found, listed, covers)) =
        listing env (λ p. Unit {0}) h (list_keys [] (walk env peerlist)) in
      cc (e, found)

  pub all-Listed :
      WalkLaws db walk
      → (env : Env) (P : NetworkPeer → Type 0) → IsStoredList w ip db env
      → All (Listed env) (t.all env)
        × (All P (t.all env)
            → (k : Bytes) (v : Bytes) → read db env peerlist k ≡ some v
            → Covered env P k)
  unfolding peer_table read_all
  all-Listed laws env P h =
      let (ps, (e, listed, covers)) = listing env P h (list_keys [] (walk env peerlist)) in
      let same : t.all env ≡ ps = rw (e, peer_table, read_all) refl in
      (
        subst (All (Listed env)) (sym same) listed,
        (λ a. laws.complete env peerlist (Covered env P) (
            list_keys-first (Covered env P) (walk env peerlist) (laws.filled env peerlist)
              (covers (subst (All P) same a)))),
      )
