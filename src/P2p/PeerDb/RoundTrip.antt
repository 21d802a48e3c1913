-- ===== src/P2p/PeerDb/RoundTrip.antt =====
-- About reading a peer that was added (src/p2p/peer_database.cpp).
use turtlecoin_v.Base.{
  ℕ, ◌≡◌, false, inl, inr, some, Option, Option-cases, Bool-cases, sym, ap, refl, ◌∙◌, ltb, ◌==◌,
  List,
}
use turtlecoin_v.Errors.{Error, success, fail, ok, ErrorCode}
use turtlecoin_v.Errors.ErrorCode.{lmdb_map_full, peerlist_add_failure}
use turtlecoin_v.Serial.{Bytes, Wire}
use turtlecoin_v.Serial.Laws.{WireLaws}
use turtlecoin_v.Crypto.{Crypto}
use turtlecoin_v.Network.Ip.{Ipv6}
use turtlecoin_v.Network.Peer.{NetworkPeer, serialize_peer}
use turtlecoin_v.Network.Peer.Laws.{IsStorable, stored}
use turtlecoin_v.Database.{Lmdb, read}
use turtlecoin_v.Database.Laws.{LmdbLaws}
use turtlecoin_v.Database.Named
use turtlecoin_v.Database.Named.{put_refines}
use turtlecoin_v.P2p.PeerDb.{PeerTable, prune_time, add, get}
use turtlecoin_v.P2p.PeerDb.Stored.{peerlist, answered, put_peer, get_peer, peer_table}
use turtlecoin_v.P2p.PeerDb.Listing.{reads_stored}

module _ (w : Wire) (wire : WireLaws w) (ip : Ipv6) {Txn Env : Type 0} (db : Lmdb Txn Env)
    (laws : LmdbLaws db) (fuel : ℕ) (walk : Env → ℕ → List Bytes) (c : Crypto)
    (shuffle : List NetworkPeer → List NetworkPeer) (self : ℕ) where
  abbrev t : PeerTable Env
  t = peer_table w ip db fuel walk

  failed : {x : ErrorCode} {env env' : Env} → ¬ (Path (Error × Env) (fail x, env) (success, env'))
  failed e = cc e

  put_peer-read :
      (p : NetworkPeer) (env env' : Env)
      → put_peer w ip db fuel walk p.peer_id p env ≡ (success, env')
      → read db env' peerlist (w.key_serialize p.peer_id) ≡ some (serialize_peer w p)
  unfolding put_peer answered
  put_peer-read p env env' e =
      let key : Bytes = w.key_serialize p.peer_id in
      let call : Option (Error × Env) = Named.put db fuel peerlist key (serialize_peer w p) env in
      elim (Option-cases call) [
        | inl stuck ↦
            absurd (
              failed {x = lmdb_map_full} {env = env}
                (sym (rw (stuck, put_peer, answered) refl) ∙ e))
        | inr (out, done) ↦
            let same : out ≡ (success, env') = sym (rw (done, put_peer, answered) refl) ∙ e in
            (put_refines db laws fuel peerlist key _ env (success, env') (done ∙ ap some same)).0
      ]

  -- With WireLaws, over an LMDB that obeys LmdbLaws: a peer with fields in the range of their
  -- types that add accepts was not last seen before the prune time, and get of its id then gives
  -- the peer, with its address in the normal form and without the address's own port.
  pub get-add :
      (now : ℕ) (p : NetworkPeer) (env env' : Env)
      → IsStorable ip p
      → add c shuffle t self now p env ≡ (success, env')
      → (ltb p.last_seen (prune_time now) ≡ false)
        × (get c shuffle t self p.peer_id env' ≡ ok (stored ip p))
  unfolding add get peer_table get_peer
  get-add now p env env' good e = elim (Bool-cases (p.peer_id == self)) [
    | inl own ↦
        absurd (failed {x = peerlist_add_failure} {env = env} (sym (rw (own, add) refl) ∙ e))
    | inr other ↦ elim (Bool-cases (ltb p.last_seen (prune_time now))) [
      | inl old ↦
          absurd
            (failed {x = peerlist_add_failure} {env = env} (sym (rw (other, old, add) refl) ∙ e))
      | inr fresh ↦
          let there = put_peer-read p env env' (sym (rw (other, fresh, add) refl) ∙ e) in
          (fresh, rw (there, get_peer, reads_stored w wire ip db fuel walk p good) refl)
    ]
  ]
