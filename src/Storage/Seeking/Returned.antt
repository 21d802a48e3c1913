-- ===== src/Storage/Seeking/Returned.antt =====
-- About the results of `get_random_outputs` (src/core/blockchain_storage.cpp).
use turtlecoin_v.Base.{
  ℕ, ◌≡◌, ◌≤◌, ◌<◌, refl, sym, ap, subst, ◌∙◌, true, inl, inr, Bool-cases, Option-cases, false, ltb,
  Option, some, none, List, [], ◌∷◌, length, All, arith,
}
use turtlecoin_v.Base.Ordered.{IsAscending}
use turtlecoin_v.Errors.{Outcome, ok, err, thrown}
use turtlecoin_v.Errors.ErrorCode.{db_transaction_output_not_found}
use turtlecoin_v.Errors.Laws.{Outcome-cases}
use turtlecoin_v.Serial.{Wire}
use turtlecoin_v.Crypto.{Crypto}
use turtlecoin_v.Chain.Parts.{TransactionOutput, output_hash}
use turtlecoin_v.Database.{Lmdb}
use turtlecoin_v.Database.Cursor.{Cursor}
use turtlecoin_v.Storage.{read_output_record}
use turtlecoin_v.Storage.Table
use turtlecoin_v.Storage.Seeking.{draw, above, sort, draw_all, get_random_outputs}
use turtlecoin_v.Storage.Seeking.Drawn.{
  IsOffered, IsGood, unfinished, unlisted_thrown, unlisted_err, draw_all-IsGood,
}
use turtlecoin_v.Storage.Seeking.Sorted.{sorted-IsAscending, All-push_all, length-push_all}

module _ (w : Wire) (c : Crypto) {Txn Env : Type 0} (db : Lmdb Txn Env) (cursor : Cursor Txn) where
  module _ (block_index count : ℕ) (env : Env) where
    module _ (short : read_output_record w [] ≡ none) where
      sorted :
          (results os : List TransactionOutput)
          → (length results ≡ count) × IsGood w c db cursor block_index count env results
          → Path
              (Option (Outcome (List TransactionOutput)))
              (some (ok (sort w c db cursor results)))
              (some (ok os))
          → (length os ≡ count)
            × All (IsOffered w c db cursor block_index env) os
            × IsAscending (output_hash w c) os
      unfolding sort above
      sorted results os (exact, good) same =
          let e : sort w c db cursor results ≡ os = cc in
          subst
            (λ r.
              (length r ≡ count)
              × All (IsOffered w c db cursor block_index env) r
              × IsAscending (output_hash w c) r)
            e
            (
              omega (arith, exact, length-push_all (output_hash w c) results []),
              All-push_all (output_hash w c) (IsOffered w c db cursor block_index env) results []
                  good.offered tt,
              sorted-IsAscending (output_hash w c) results good.distinct,
            )

      none_yet : IsGood w c db cursor block_index count env []
      none_yet = record { few = omega arith; offered = tt; distinct = tt }

      -- If nothing can be read from no bytes: a get_random_outputs that succeeds gives as many
      -- outputs as were asked for, in the strict order of their hashes, and each is one that the
      -- cursor found under its own hash and that is unlocked not before the block index.
      pub random_outputs-success :
          (hashes : List ℕ) (os : List TransactionOutput)
          → get_random_outputs w c db cursor hashes block_index count env ≡ some (ok os)
          → (length os ≡ count)
            × All (IsOffered w c db cursor block_index env) os
            × IsAscending (output_hash w c) os
      unfolding get_random_outputs
      random_outputs-success hashes os h =
          let all = db.count env Table.transaction_outputs in
          let drawn = draw_all w c db cursor block_index count env hashes [] in
          elim (Bool-cases (ltb all count)) [
            | inl lacking ↦ absurd (
                unlisted_err w c db cursor {x = db_transaction_output_not_found}
                  (sym (rw (lacking, get_random_outputs) refl) ∙ h))
            | inr enough ↦ elim (Option-cases drawn) [
              | inl e ↦
                  absurd
                    (unfinished w c db cursor (sym (rw (enough, e, get_random_outputs) refl) ∙ h))
              | inr (o, e) ↦ elim (Outcome-cases o) [
                | inl (results, k) ↦
                    let e' : drawn ≡ some (ok results) = e ∙ ap some k in
                    sorted results os
                      (draw_all-IsGood w c db cursor block_index count env short hashes [] results
                        none_yet e')
                      (sym (rw (enough, e', get_random_outputs) refl) ∙ h)
                | inr (inl (x, k)) ↦
                    let e' : drawn ≡ some (err x) = e ∙ ap some k in
                    absurd (
                      unlisted_err w c db cursor {x = x}
                        (sym (rw (enough, e', get_random_outputs) refl) ∙ h))
                | inr (inr k) ↦
                    let e' : drawn ≡ some thrown = e ∙ ap some k in
                    absurd (
                      unlisted_thrown w c db cursor
                        (sym (rw (enough, e', get_random_outputs) refl) ∙ h))
              ]
            ]
          ]

  module _ (block_index count : ℕ) (env : Env)
      (passed : (random_hash : ℕ) → draw w c db cursor block_index random_hash env ≡ ok none)
      (some_wanted : 0 < count) where
    none_drawn : (hs : List ℕ) → draw_all w c db cursor block_index count env hs [] ≡ none
    unfolding draw_all
    none_drawn [] = ground arith
    none_drawn (h ∷ hs) =
        let more : ltb 0 count ≡ true = ground arith in rw (more, passed h) (none_drawn hs)

    -- If every random hash leads to an entry that is passed over, and there are enough outputs but
    -- at least one was asked for, get_random_outputs does not return, however many hashes it
    -- draws.
    pub random_outputs_endless :
        count ≤ db.count env Table.transaction_outputs
        → (hashes : List ℕ) → get_random_outputs w c db cursor hashes block_index count env ≡ none
    unfolding get_random_outputs
    random_outputs_endless enough hashes =
        let there : ltb (db.count env Table.transaction_outputs) count ≡ false = ground arith in
        rw (there, none_drawn hashes) refl
