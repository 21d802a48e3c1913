-- ===== src/P2p/PeerDb/Prune.antt =====
-- About what pruning removes and what it leaves (src/p2p/peer_database.cpp).
use turtlecoin_v.Base.{
  ℕ, suc, ◌≡◌, ◌≢◌, ◌↔◌, refl, List, [], ◌∷◌, All, All-map, inl, inr, ltb, true, false, none, some,
  Option-cases, Bool-cases, ap, sym, subst, ◌∙◌,
}
use turtlecoin_v.Serial.{Bytes, Wire}
use turtlecoin_v.Serial.Laws.{WireLaws}
use turtlecoin_v.Crypto.{Crypto}
use turtlecoin_v.Network.Ip.{Ipv6}
use turtlecoin_v.Network.Peer.{NetworkPeer, serialize_peer, deserialize_peer}
use turtlecoin_v.Network.Peer.Laws.{IsStorable, stored}
use turtlecoin_v.Database.{Lmdb, read}
use turtlecoin_v.Database.Laws.{LmdbLaws}
use turtlecoin_v.P2p.PeerDb.{PeerTable, prune_time, del, peers, prune_each, prune}
use turtlecoin_v.P2p.PeerDb.Stored.{peerlist, peer_table}
use turtlecoin_v.P2p.PeerDb.Deletion.{IsRoomy, delete, delete_other, delete_same, delete_subset}
use turtlecoin_v.P2p.PeerDb.Listing.{WalkLaws, IsStoredList, Listed, reads_stored, all-Listed}

-- A shuffle keeps what holds of all items, and so does its reverse.
pub record IsShuffle (shuffle : List NetworkPeer → List NetworkPeer) : Type 1 where
  pub all_in : (P : NetworkPeer → Type 0) (ps : List NetworkPeer) → All P ps → All P (shuffle ps)
  pub all_out : (P : NetworkPeer → Type 0) (ps : List NetworkPeer) → All P (shuffle ps) → All P ps

module _ (w : Wire) (wire : WireLaws w) (ip : Ipv6) {Txn Env : Type 0} (db : Lmdb Txn Env)
    (laws : LmdbLaws db) (roomy : IsRoomy db) (fuel : ℕ) (walk : Env → ℕ → List Bytes) (c : Crypto)
    (shuffle : List NetworkPeer → List NetworkPeer) (self : ℕ) where
  abbrev t : PeerTable Env
  t = peer_table w ip db (suc fuel) walk

  abbrev prune_all : ℕ → List NetworkPeer → Env → Env
  prune_all before ps env = prune_each c shuffle t self before ps env

  abbrev without : ℕ → Env → Env
  without k env = delete w ip db laws roomy fuel walk k env

  prune_each-old :
      (before : ℕ) (q : NetworkPeer) (ps : List NetworkPeer) (env : Env)
      → ltb q.last_seen before ≡ true
      → prune_all before (q ∷ ps) env ≡ prune_all before ps (without q.peer_id env)
  unfolding prune_each del peer_table
  prune_each-old before q ps env old = rw old refl

  prune_each-fresh :
      (before : ℕ) (q : NetworkPeer) (ps : List NetworkPeer) (env : Env)
      → ltb q.last_seen before ≡ false
      → prune_all before (q ∷ ps) env ≡ prune_all before ps env
  unfolding prune_each
  prune_each-fresh before q ps env fresh = rw fresh refl

  -- What holds for both branches of a round.
  prune_each-cases :
      (P : Env → Type 0) (before : ℕ) (q : NetworkPeer) (ps : List NetworkPeer) (env : Env)
      → (ltb q.last_seen before ≡ true → P (prune_all before ps (without q.peer_id env)))
      → (ltb q.last_seen before ≡ false → P (prune_all before ps env))
      → P (prune_all before (q ∷ ps) env)
  prune_each-cases P before q ps env old fresh = elim (Bool-cases (ltb q.last_seen before)) [
    | inl e ↦ subst P (sym (prune_each-old before q ps env e)) (old e)
    | inr e ↦ subst P (sym (prune_each-fresh before q ps env e)) (fresh e)
  ]

  prune_each_subset :
      (before : ℕ) (ps : List NetworkPeer) (env : Env) (j v : Bytes)
      → read db (prune_all before ps env) peerlist j ≡ some v
      → read db env peerlist j ≡ some v
  unfolding prune_each
  prune_each_subset before [] env j v e = e
  prune_each_subset before (q ∷ ps) env j v e =
      prune_each-cases (λ d. read db d peerlist j ≡ some v → read db env peerlist j ≡ some v) before
        q ps env
        (λ old d.
          delete_subset w ip db laws roomy fuel walk q.peer_id j v env
            (prune_each_subset before ps (without q.peer_id env) j v d))
        (λ fresh d. prune_each_subset before ps env j v d) e

  prune_each_keeps :
      (before : ℕ) (ps : List NetworkPeer) (env : Env) (j : Bytes)
      → All (λ q. ltb q.last_seen before ≡ true → j ≢ w.key_serialize q.peer_id) ps
      → read db (prune_all before ps env) peerlist j ≡ read db env peerlist j
  unfolding prune_each
  prune_each_keeps before [] env j h = refl
  prune_each_keeps before (q ∷ ps) env j h =
      prune_each-cases (λ d. read db d peerlist j ≡ read db env peerlist j) before q ps env
        (λ old.
          prune_each_keeps before ps (without q.peer_id env) j h.1
          ∙ delete_other w ip db laws roomy fuel walk q.peer_id j env (h.0 old))
        (λ fresh. prune_each_keeps before ps env j h.1)

  -- No entry stands under the peer's id, if the peer is expired.
  abbrev Gone : ℕ → Env → NetworkPeer → Type 0
  Gone before env q =
      ltb q.last_seen before ≡ true → read db env peerlist (w.key_serialize q.peer_id) ≡ none

  stays_gone :
      (before : ℕ) (ps : List NetworkPeer) (env : Env) (j : Bytes)
      → read db env peerlist j ≡ none
      → read db (prune_all before ps env) peerlist j ≡ none
  stays_gone before ps env j h =
      elim (Option-cases (read db (prune_all before ps env) peerlist j)) [
        | inl e ↦ e
        | inr (v, e) ↦ absurd (cc (h, prune_each_subset before ps env j v e))
      ]

  prune_each_removes :
      (before : ℕ) (ps : List NetworkPeer) (env : Env)
      → All (Gone before (prune_all before ps env)) ps
  prune_each_removes before [] env = tt
  prune_each_removes before (q ∷ ps) env =
      prune_each-cases (λ d. All (Gone before d) (q ∷ ps)) before q ps env
        (λ old. (
          (λ _.
              stays_gone before ps (without q.peer_id env) (w.key_serialize q.peer_id)
                (delete_same w ip db laws roomy fuel walk q.peer_id env)),
          prune_each_removes before ps (without q.peer_id env),
        ))
        (λ fresh. ((λ old. absurd (cc (old, fresh))), prune_each_removes before ps env))

  abbrev bytes_of : NetworkPeer → Bytes
  bytes_of p = serialize_peer w p

  -- Peers with the same bytes were seen last at the same time.
  same_time :
      (p q : NetworkPeer)
      → IsStorable ip p
      → IsStorable ip q
      → bytes_of p ≡ bytes_of q
      → p.last_seen ≡ q.last_seen
  same_time p q hp hq e =
      let back = reads_stored w wire ip db (suc fuel) walk in
      let both : some (stored ip p, []) ≡ some (stored ip q, []) =
        sym (back p hp) ∙ (ap (deserialize_peer w ip) e ∙ back q hq) in
      let peers_same : stored ip p ≡ stored ip q = cc both in ap (λ x. x.last_seen) peers_same

  -- A listed peer that is expired is not under the key of one that is fresh.
  fresh_apart :
      (before : ℕ) (env : Env) (p : NetworkPeer)
      → IsStorable ip p
      → read db env peerlist (w.key_serialize p.peer_id) ≡ some (bytes_of p)
      → ltb p.last_seen before ≡ false
      → (q : NetworkPeer) → Listed w wire ip db (suc fuel) walk env q
      → ltb q.last_seen before ≡ true
      → w.key_serialize p.peer_id ≢ w.key_serialize q.peer_id
  fresh_apart before env p good there fresh q (p', same, found, good') old here =
      let keys : w.key_serialize p.peer_id ≡ w.key_serialize p'.peer_id =
        here ∙ ap (λ (x : NetworkPeer). w.key_serialize x.peer_id) same in
      let bytes : bytes_of p ≡ bytes_of p' = cc (there, found, keys) in
      let time : p.last_seen ≡ q.last_seen =
        same_time p p' good good' bytes ∙ sym (ap (λ (x : NetworkPeer). x.last_seen) same) in
      cc (old, fresh, time)

  -- With WireLaws, over an LMDB that obeys LmdbLaws and is roomy (IsRoomy), with a cursor that
  -- comes to every key (WalkLaws) and at least one round of fuel: if a shuffle keeps the items,
  -- the default network id is the empty one and all entries are of peers with fields in range
  -- under their own ids (IsStoredList), then after prune the entry of a peer with fields in range
  -- is there exactly when it was there and the peer was not last seen before the prune time.
  pub prune_exact :
      (now : ℕ) (env : Env)
      → WalkLaws db walk
      → IsShuffle shuffle
      → c.key_empty c.key_default ≡ true
      → IsStoredList w ip db env
      → (p : NetworkPeer) → IsStorable ip p
      → (read db (prune c shuffle t self now env) peerlist (w.key_serialize p.peer_id)
          ≡ some (serialize_peer w p))
        ↔ ((read db env peerlist (w.key_serialize p.peer_id) ≡ some (serialize_peer w p))
            × (ltb p.last_seen (prune_time now) ≡ false))
  unfolding prune peers
  prune_exact now env walks mix none_chosen h p good =
      let before : ℕ = prune_time now in
      let listed_all : List NetworkPeer = shuffle (t.all env) in
      let end : Env = prune_all before listed_all env in
      let key : Bytes = w.key_serialize p.peer_id in
      let (listed, covers) =
        all-Listed w wire ip db (suc fuel) walk walks env (Gone before end) h in
      let gone =
        mix.all_out (Gone before end) (t.all env) (prune_each_removes before listed_all env) in
      rw none_chosen (
        (λ e.
            let there = prune_each_subset before listed_all env key (bytes_of p) e in
            (
              there,
              elim (Bool-cases (ltb p.last_seen before)) [
                | inr fresh ↦ fresh
                | inl old ↦ absurd (
                    cc (
                      covers gone key (bytes_of p) there (bytes_of p) (stored ip p) there
                          (reads_stored w wire ip db (suc fuel) walk p good) old,
                      e,
                    ))
              ],
            )),
        (λ (there, fresh).
            prune_each_keeps before listed_all env key (
              mix.all_in _ (t.all env)
                (All-map (fresh_apart before env p good there fresh) (t.all env) listed))
            ∙ there),
      )
