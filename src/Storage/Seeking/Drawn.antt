-- ===== src/Storage/Seeking/Drawn.antt =====
-- About the loop of `get_random_outputs` (src/core/blockchain_storage.cpp).
use turtlecoin_v.Base.{
  ℕ, ◌≡◌, ◌≤◌, ◌<◌, refl, sym, ap, subst, ◌∙◌, inl, inr, Bool-cases, Option-cases, false, not, ◌==◌,
  ◌||◌, ltb, Option, some, none, List, [], ◌∷◌, ◌++◌, length, length-append, All, All-append_one,
  arith, if◌then◌else◌, if_both,
}
use turtlecoin_v.Errors.{ErrorCode, Outcome, ok, err, thrown}
use turtlecoin_v.Errors.Laws.{Outcome-cases}
use turtlecoin_v.Serial.{Bytes, Wire}
use turtlecoin_v.Crypto.{Crypto}
use turtlecoin_v.Chain.Parts.{TransactionOutput, output_hash}
use turtlecoin_v.Database.{Lmdb}
use turtlecoin_v.Database.Cursor
use turtlecoin_v.Database.Cursor.{Cursor}
use turtlecoin_v.Storage.{read_output_record}
use turtlecoin_v.Storage.Table
use turtlecoin_v.Storage.Seeking.{is_not_found, examine, draw, includes, draw_all}
use turtlecoin_v.Storage.Seeking.Sorted.{IsFresh, IsDistinct, IsDistinct-append_one}

module _ (w : Wire) (c : Crypto) {Txn Env : Type 0} (db : Lmdb Txn Env) (cursor : Cursor Txn) where
  -- An output that the cursor finds under its own hash, unlocked not before a block index.
  abbrev pub IsOffered : ℕ → Env → TransactionOutput → Type 0
  IsOffered block_index env o =
      (random_hash : ℕ) × (value : Bytes) × (unlock_block : ℕ) × (rest : Bytes) × (Cursor.get w
          cursor (db.begin env) Table.transaction_outputs random_hash
        ≡ ok (output_hash w c o, value))
      × (read_output_record w value ≡ some ((o, unlock_block), rest))
      × (block_index ≤ unlock_block)

  stopped : {A : Type 0} {a : A} → ¬ (thrown ≡ ok a)
  stopped e = cc

  pub unfinished : {A : Type 0} {a : A} → ¬ (Path (Option A) none (some a))
  unfinished e = cc

  pub unlisted_thrown :
      {A : Type 0} {a : A} → ¬ (Path (Option (Outcome A)) (some thrown) (some (ok a)))
  unlisted_thrown e = cc

  pub unlisted_err :
      {A : Type 0} {a : A} {x : ErrorCode}
      → ¬ (Path (Option (Outcome A)) (some (err x)) (some (ok a)))
  unlisted_err e = cc

  -- The test of an entry that was read.
  chosen :
      (block_index unlock_block k : ℕ) (output o : TransactionOutput)
      → (if not (output_hash w c output == k) || ltb unlock_block block_index
          then ok none
          else ok (some output))
        ≡ ok (some o)
      → (output ≡ o) × (output_hash w c output ≡ k) × (block_index ≤ unlock_block)
  chosen block_index unlock_block k output o h = (ground arith, ground arith, ground arith)

  examined :
      (block_index k : ℕ) (value : Bytes) (o : TransactionOutput)
      → examine w c db cursor block_index k value ≡ ok (some o)
      → (unlock_block : ℕ) × (rest : Bytes) × (read_output_record w value
          ≡ some ((o, unlock_block), rest))
        × (output_hash w c o ≡ k)
        × (block_index ≤ unlock_block)
  unfolding examine
  examined block_index k value o h = elim (Option-cases (read_output_record w value)) [
    | inl unread ↦
        let ended : examine w c db cursor block_index k value ≡ thrown =
          rw (unread, examine) refl in
        absurd (stopped (sym ended ∙ h))
    | inr (((output, unlock_block), rest), e) ↦
        let (same, named, late) =
          chosen block_index unlock_block k output o (sym (rw (e, examine) refl) ∙ h) in
        (
          unlock_block,
          rest,
          e ∙ ap (λ x. some ((x, unlock_block), rest)) same,
          ap (output_hash w c) (sym same) ∙ named,
          late,
        )
  ]

  failed_draw :
      read_output_record w [] ≡ none
      → (block_index : ℕ) (code : ErrorCode) (o : TransactionOutput)
      → ¬ (
          (if is_not_found code
            then ok none
            else examine w c db cursor block_index c.key_default [])
          ≡ ok (some o))
  unfolding examine
  failed_draw short block_index code o =
      if_both (λ r. ¬ (r ≡ ok (some o))) (is_not_found code) (λ missing e. cc)
        (λ other e. stopped (sym (rw (short, examine) refl) ∙ e))

  draw-IsOffered :
      read_output_record w [] ≡ none
      → (block_index random_hash : ℕ) (env : Env) (o : TransactionOutput)
      → draw w c db cursor block_index random_hash env ≡ ok (some o)
      → IsOffered block_index env o
  unfolding draw
  draw-IsOffered short block_index random_hash env o h =
      elim (Outcome-cases
        (Cursor.get w cursor (db.begin env) Table.transaction_outputs random_hash)) [
          | inl ((key, value), e) ↦
              let (unlock_block, rest, read, named, late) =
                examined block_index key value o (sym (rw (e, draw) refl) ∙ h) in
              (
                random_hash,
                value,
                unlock_block,
                rest,
                e ∙ ap (λ k. ok (k, value)) (sym named),
                read,
                late,
              )
          | inr (inl (code, e)) ↦
              absurd (failed_draw short block_index code o (sym (rw (e, draw) refl) ∙ h))
          | inr (inr e) ↦ absurd (stopped (sym (rw (e, draw) refl) ∙ h))
        ]

  includes-IsFresh :
      (x : TransactionOutput) (q : List TransactionOutput)
      → includes w c db cursor x q ≡ false
      → IsFresh (output_hash w c) x q
  unfolding includes
  includes-IsFresh x [] h = tt
  includes-IsFresh x (y ∷ q) h = ((λ same. ground arith), includes-IsFresh x q (ground arith))

  -- What the loop keeps of its results.
  pub record IsGood (block_index count : ℕ) (env : Env) (results : List TransactionOutput)
      : Type 0 where
    pub few : length results ≤ count
    pub offered : All (IsOffered block_index env) results
    pub distinct : IsDistinct (output_hash w c) results

  module _ (block_index count : ℕ) (env : Env) where
    extend :
        (o : TransactionOutput) (results : List TransactionOutput)
        → IsGood block_index count env results
        → length results < count
        → IsOffered block_index env o
        → includes w c db cursor o results ≡ false
        → IsGood block_index count env (results ++ (o ∷ []))
    extend o results good room offered fresh = record {
      few = omega (arith, room, length-append results (o ∷ []));
      offered = All-append_one (IsOffered block_index env) results o good.offered offered;
      distinct =
          IsDistinct-append_one (output_hash w c) results o good.distinct
            (includes-IsFresh o results fresh);
    }

    finished :
        (results os : List TransactionOutput)
        → IsGood block_index count env results
        → ltb (length results) count ≡ false
        → Path (Option (Outcome (List TransactionOutput))) (some (ok results)) (some (ok os))
        → (length os ≡ count) × IsGood block_index count env os
    finished results os good full same =
        let few = good.few in
        let e : results ≡ os = cc in
        subst (λ r. (length r ≡ count) × IsGood block_index count env r) e (ground arith, good)

    module _ (short : read_output_record w [] ≡ none) where
      pub draw_all-IsGood :
          (hs : List ℕ) (results os : List TransactionOutput)
          → IsGood block_index count env results
          → draw_all w c db cursor block_index count env hs results ≡ some (ok os)
          → (length os ≡ count) × IsGood block_index count env os
      unfolding draw_all
      draw_all-IsGood [] results os good h = elim (Bool-cases (ltb (length results) count)) [
        | inr full ↦ finished results os good full (sym (rw (full, draw_all) refl) ∙ h)
        | inl room ↦ absurd (unfinished (sym (rw (room, draw_all) refl) ∙ h))
      ]
      draw_all-IsGood (x ∷ hs) results os good h = elim (Bool-cases (ltb (length results) count)) [
        | inr full ↦ finished results os good full (sym (rw (full, draw_all) refl) ∙ h)
        | inl room ↦ elim (Outcome-cases (draw w c db cursor block_index x env)) [
          | inr (inl (code, e)) ↦
              absurd (unlisted_err {x = code} (sym (rw (room, e, draw_all) refl) ∙ h))
          | inr (inr e) ↦ absurd (unlisted_thrown (sym (rw (room, e, draw_all) refl) ∙ h))
          | inl (none, e) ↦
              draw_all-IsGood hs results os good (sym (rw (room, e, draw_all) refl) ∙ h)
          | inl (some o, e) ↦ elim (Bool-cases (includes w c db cursor o results)) [
            | inl known ↦
                draw_all-IsGood hs results os good (sym (rw (room, e, known, draw_all) refl) ∙ h)
            | inr fresh ↦
                draw_all-IsGood hs (results ++ (o ∷ [])) os
                  (extend o results good (ground arith) (draw-IsOffered short block_index x env o e)
                    fresh)
                  (sym (rw (room, e, fresh, draw_all) refl) ∙ h)
          ]
        ]
      ]
