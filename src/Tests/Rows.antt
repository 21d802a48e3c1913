-- ===== src/Tests/Rows.antt =====
-- An LMDB whose environment is a list of rows, the cursor over it, addresses of one component, and
-- the shuffle that does nothing.
use turtlecoin_v.Base.{
  ℕ, ◌≡◌, ◌≢◌, refl, Bool, true, ◌&&◌, Option, none, some, List, [], ◌∷◌, ◌==◌, ◌⊎◌, inl, inr,
  if◌then◌else◌, All, arith, subst, sym, ap, ◌∙◌, Bool-cases, length, if_both,
}
use turtlecoin_v.Errors.{Error, success, fail}
use turtlecoin_v.Errors.ErrorCode.{lmdb_error}
use turtlecoin_v.Serial.{Bytes}
use turtlecoin_v.Network.Ip.{IpAddress, Ipv6}
use turtlecoin_v.Network.Peer.{NetworkPeer}
use turtlecoin_v.Database.{Lmdb, read}
use turtlecoin_v.Database.Laws.{LmdbLaws}
use turtlecoin_v.P2p.PeerDb.{PeerTable}
use turtlecoin_v.P2p.PeerDb.Stored.{same_key, peer_table}
use turtlecoin_v.P2p.PeerDb.Listing.{WalkLaws, same_key-true, same_key_refl}
use turtlecoin_v.P2p.PeerDb.Deletion.{IsRoomy}
use turtlecoin_v.P2p.PeerDb.Prune.{IsShuffle}
use turtlecoin_v.Tests.Cells.{cells}

abbrev pub home : IpAddress
home = record { components = 7 ∷ []; port = 0; flags = 0 }

abbrev pub short_ip : Ipv6
short_ip = record {
  num_components = 1;
  ipv4_num_components = 1;
  ipv4_embed_index = 0;
  compat_bit = 0;
  embed_bit = 1;
  str_to_ip = λ text. some home;
}

-- A database, a key and a value.
abbrev pub Rows : Type 0
Rows = List (ℕ × Bytes × Bytes)

abbrev at_row : ℕ → Bytes → ℕ × Bytes × Bytes → Bool
at_row d k (d', k', v) = (d == d') && same_key k k'

abbrev lookup : ℕ → Bytes → Rows → Option Bytes
lookup d k [] = none
lookup d k (row ∷ rows) = let rest = lookup d k rows in if at_row d k row then some row.2 else rest

abbrev without : ℕ → Bytes → Rows → Rows
without d k [] = []
without d k (row ∷ rows) =
    let rest = without d k rows in if at_row d k row then rest else row ∷ rest

-- No key is empty.
abbrev get_row : Rows → ℕ → Bytes → Option Bytes
get_row rows d [] = none
get_row rows d (x ∷ xs) = lookup d (x ∷ xs) rows

abbrev put_row : Rows → ℕ → Bytes → Bytes → Error × Rows
put_row rows d [] v = (fail lmdb_error, rows)
put_row rows d (x ∷ xs) v = (success, (d, x ∷ xs, v) ∷ rows)

abbrev pub rows_db : Lmdb Rows Rows
rows_db = record {
  begin = λ rows. rows;
  get = get_row;
  put = put_row;
  del = λ rows d k. (success, without d k rows);
  del_value = λ rows d k v. (success, without d k rows);
  commit = λ env rows. (success, rows);
  count = λ env d. length env;
  expand = λ env. (success, env);
}

at_row_refl : (d : ℕ) (k v : Bytes) → at_row d k (d, k, v) ≡ true
at_row_refl d k v = ground (arith, same_key_refl k)

at_row-true :
    (d : ℕ) (k : Bytes) (row : ℕ × Bytes × Bytes)
    → at_row d k row ≡ true
    → (d ≡ row.0) × (k ≡ row.1)
at_row-true d k row e =
    let keys : same_key k row.1 ≡ true = ground arith in (ground arith, same_key-true k row.1 keys)

lookup-without_same : (d : ℕ) (k : Bytes) (rows : Rows) → lookup d k (without d k rows) ≡ none
lookup-without_same d k [] = refl
lookup-without_same d k (row ∷ rows) = elim (Bool-cases (at_row d k row)) [
  | inl e ↦ rw e (lookup-without_same d k rows)
  | inr e ↦ rw (e, e) (lookup-without_same d k rows)
]

lookup-without :
    (d : ℕ) (k : Bytes) (d' : ℕ) (k' : Bytes) (rows : Rows)
    → (((d' ≡ d) × (k' ≡ k)) → ⊥)
    → lookup d' k' (without d k rows) ≡ lookup d' k' rows
lookup-without d k d' k' [] ne = refl
lookup-without d k d' k' (row ∷ rows) ne =
    let rest = lookup-without d k d' k' rows ne in
    elim (Bool-cases (at_row d k row)) [
      | inr e ↦ rw (e, rest) refl
      | inl e ↦ elim (Bool-cases (at_row d' k' row)) [
        | inr other ↦ rw (e, other) rest
        | inl same ↦
            let (rd, rk) = at_row-true d k row e in
            let (rd', rk') = at_row-true d' k' row same in absurd (ne (rd' ∙ sym rd, rk' ∙ sym rk))
      ]
    ]

put_same :
    (t t' : Rows) (d : ℕ) (k v : Bytes) → put_row t d k v ≡ (success, t') → get_row t' d k ≡ some v
put_same t t' d [] v e = cc
put_same t t' d (x ∷ xs) v e =
    let found : lookup d (x ∷ xs) ((d, x ∷ xs, v) ∷ t) ≡ some v =
      rw (at_row_refl d (x ∷ xs) v) refl in
    let rows : ((d, x ∷ xs, v) ∷ t) ≡ t' = ap (λ (r : Error × Rows). r.1) e in
    subst (λ r. lookup d (x ∷ xs) r ≡ some v) rows found

lookup-cons :
    (t : Rows) (d : ℕ) (k v : Bytes) (d' : ℕ) (k' : Bytes)
    → (lookup d' k' ((d, k, v) ∷ t) ≡ lookup d' k' t) ⊎ ((d' ≡ d) × (k' ≡ k))
lookup-cons t d k v d' k' = elim (Bool-cases (at_row d' k' (d, k, v))) [
  | inl e ↦ inr (at_row-true d' k' (d, k, v) e)
  | inr e ↦ inl (rw e refl)
]

get_row-cons :
    (t : Rows) (d : ℕ) (k v : Bytes) (d' : ℕ) (k' : Bytes)
    → (get_row ((d, k, v) ∷ t) d' k' ≡ get_row t d' k') ⊎ ((d' ≡ d) × (k' ≡ k))
get_row-cons t d k v d' [] = inl refl
get_row-cons t d k v d' (x ∷ xs) = lookup-cons t d k v d' (x ∷ xs)

put_other :
    (t t' : Rows) (d : ℕ) (k v : Bytes) (d' : ℕ) (k' : Bytes)
    → put_row t d k v ≡ (success, t')
    → (get_row t' d' k' ≡ get_row t d' k') ⊎ ((d' ≡ d) × (k' ≡ k))
put_other t t' d [] v d' k' e = absurd cc
put_other t t' d (x ∷ xs) v d' k' e =
    subst (λ (r : Rows). (get_row r d' k' ≡ get_row t d' k') ⊎ ((d' ≡ d) × (k' ≡ x ∷ xs)))
      (ap (λ (r : Error × Rows). r.1) e) (get_row-cons t d (x ∷ xs) v d' k')

without_same : (t : Rows) (d : ℕ) (k : Bytes) → get_row (without d k t) d k ≡ none
without_same t d [] = refl
without_same t d (x ∷ xs) = lookup-without_same d (x ∷ xs) t

same_or_not :
    (d : ℕ) (k : Bytes) (d' : ℕ) (k' : Bytes) → ((d' ≡ d) × (k' ≡ k)) ⊎ (((d' ≡ d) × (k' ≡ k)) → ⊥)
same_or_not d k d' k' = elim (Bool-cases (at_row d' k' (d, k, []))) [
  | inl e ↦ inl (at_row-true d' k' (d, k, []) e)
  | inr e ↦ inr (λ (a, b). cc (e, at_row_refl d k [], a, b))
]

without_other :
    (t : Rows) (d : ℕ) (k : Bytes) (d' : ℕ) (k' : Bytes)
    → (get_row (without d k t) d' k' ≡ get_row t d' k') ⊎ ((d' ≡ d) × (k' ≡ k))
without_other t d k d' [] = inl refl
without_other t d k d' (x ∷ xs) = elim (same_or_not d k d' (x ∷ xs)) [
  | inl same ↦ inr same
  | inr ne ↦ inl (lookup-without d k d' (x ∷ xs) t ne)
]

without_absent :
    (t : Rows) (d : ℕ) (k : Bytes) (d' : ℕ) (k' : Bytes)
    → get_row t d' k' ≡ none
    → get_row (without d k t) d' k' ≡ none
without_absent t d k d' k' e = elim (without_other t d k d' k') [
  | inl kept ↦ kept ∙ e
  | inr (a, b) ↦ cc (without_same t d k, a, b)
]

pub rows_laws : LmdbLaws rows_db
rows_laws = record {
  put_same = put_same;
  put_other = put_other;
  del_same = λ t t' d k e.
      subst (λ (r : Rows). get_row r d k ≡ none) (ap (λ (r : Error × Rows). r.1) e)
        (without_same t d k);
  del_other = λ t t' d k d' k' e.
      subst (λ (r : Rows). (get_row r d' k' ≡ get_row t d' k') ⊎ ((d' ≡ d) × (k' ≡ k)))
        (ap (λ (r : Error × Rows). r.1) e) (without_other t d k d' k');
  del_value_absent = λ t t' d k v d' k' e h.
      subst (λ (r : Rows). get_row r d' k' ≡ none) (ap (λ (r : Error × Rows). r.1) e)
        (without_absent t d k d' k' h);
  commit_done = λ env env' t d k e. ap (λ (r : Error × Rows). get_row r.1 d k) (sym e);
  commit_failed = λ env env' t x d k e. absurd cc;
  expand_same = λ env d k. refl;
}

pub rows-IsRoomy : IsRoomy rows_db
rows-IsRoomy = record { del_present = λ t d k there. refl; commits = λ env t. refl }

-- The cursor comes to each row of a database.
abbrev pub walk : Rows → ℕ → List Bytes
walk [] d = []
walk ((d', [], v) ∷ rows) d = walk rows d
walk ((d', x ∷ xs, v) ∷ rows) d =
    let rest = walk rows d in if d == d' then (x ∷ xs) ∷ rest else rest

walk-filled : (rows : Rows) (d : ℕ) → All (λ k. k ≢ []) (walk rows d)
walk-filled [] d = tt
walk-filled ((d', [], v) ∷ rows) d = walk-filled rows d
walk-filled ((d', x ∷ xs, v) ∷ rows) d =
    let rest = walk-filled rows d in
    if_both (All (λ k. k ≢ [])) (d == d') (λ same. ((λ e. cc), rest)) (λ other. rest)

walk-complete :
    (rows : Rows) (d : ℕ) (P : Bytes → Type 0)
    → All P (walk rows d)
    → (x : ℕ) (xs v : Bytes) → lookup d (x ∷ xs) rows ≡ some v
    → P (x ∷ xs)
walk-complete [] d P h x xs v e = absurd cc
walk-complete ((d', [], u) ∷ rows) d P h x xs v e =
    elim (Bool-cases (at_row d (x ∷ xs) (d', [], u))) [
      | inl here ↦ let (_, key) = at_row-true d (x ∷ xs) (d', [], u) here in absurd cc
      | inr other ↦ walk-complete rows d P h x xs v (rw other at e)
    ]
walk-complete ((d', y ∷ ys, u) ∷ rows) d P h x xs v e = elim (Bool-cases (d == d')) [
  | inl same ↦
      let (first, rest) : P (y ∷ ys) × All P (walk rows d) = rw same at h in
      elim (Bool-cases (at_row d (x ∷ xs) (d', y ∷ ys, u))) [
        | inl here ↦ subst P (sym (at_row-true d (x ∷ xs) (d', y ∷ ys, u) here).1) first
        | inr other ↦ walk-complete rows d P rest x xs v (rw other at e)
      ]
  | inr apart ↦ walk-complete rows d P (rw apart at h) x xs v (rw apart at e)
]

walk-complete_row :
    (rows : Rows) (d : ℕ) (P : Bytes → Type 0)
    → All P (walk rows d)
    → (k v : Bytes) → get_row rows d k ≡ some v
    → P k
walk-complete_row rows d P h [] v e = absurd cc
walk-complete_row rows d P h (x ∷ xs) v e = walk-complete rows d P h x xs v e

pub walk_laws : WalkLaws rows_db walk
unfolding read
walk_laws = record { complete = walk-complete_row; filled = walk-filled }

-- What holds of all rows holds of what is read.
pub get_row-All :
    (P : Bytes → Bytes → Type 0) (rows : Rows)
    → All (λ (row : ℕ × Bytes × Bytes). P row.1 row.2) rows
    → (d : ℕ) (k v : Bytes) → get_row rows d k ≡ some v
    → P k v
get_row-All P rows h d [] v e = absurd cc
get_row-All P [] h d (x ∷ xs) v e = absurd cc
get_row-All P (row ∷ rows) h d (x ∷ xs) v e = elim (Bool-cases (at_row d (x ∷ xs) row)) [
  | inl here ↦
      let value : some row.2 ≡ some v = rw here at e in
      let same : row.2 ≡ v = cc value in
      subst (P (x ∷ xs)) same (subst (λ k. P k row.2) (sym (at_row-true d (x ∷ xs) row here).1) h.0)
  | inr other ↦ get_row-All P rows h.1 d (x ∷ xs) v (rw other at e)
]

-- The peer list in a list of rows.
abbrev pub table : PeerTable Rows
table = peer_table cells short_ip rows_db 1 walk

-- The shuffle that leaves a list as it is.
abbrev pub unshuffled : List NetworkPeer → List NetworkPeer
unshuffled ps = ps

pub unshuffled-IsShuffle : IsShuffle unshuffled
unshuffled-IsShuffle = record { all_in = λ P ps h. h; all_out = λ P ps h. h }
