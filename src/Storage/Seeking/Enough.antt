-- ===== src/Storage/Seeking/Enough.antt =====
-- About the random hashes that are enough for `get_random_outputs`
-- (src/core/blockchain_storage.cpp).
use turtlecoin_v.Base.{
  ℕ, ◌≡◌, ◌≤◌, refl, ap, true, false, inl, inr, Bool-cases, ltb, some, none, List, [], ◌∷◌, ◌++◌,
  ◌⊎◌, length, length-append, arith,
}
use turtlecoin_v.Errors.{ok}
use turtlecoin_v.Serial.{Wire}
use turtlecoin_v.Crypto.{Crypto}
use turtlecoin_v.Chain.Parts.{TransactionOutput}
use turtlecoin_v.Database.{Lmdb}
use turtlecoin_v.Database.Cursor.{Cursor}
use turtlecoin_v.Storage.Table
use turtlecoin_v.Storage.Seeking.{draw, includes, sort, draw_all, get_random_outputs}

module _ (w : Wire) (c : Crypto) {Txn Env : Type 0} (db : Lmdb Txn Env) (cursor : Cursor Txn)
    (block_index : ℕ) (env : Env) where
  -- Every hash leads to a new output, to one that is there already, or to an entry that is passed
  -- over, and at the end these are the outputs.
  abbrev pub Yields : List ℕ → (results outputs : List TransactionOutput) → Type 0
  Yields [] results outputs = results ≡ outputs
  Yields (h ∷ hs) results outputs =
      ((o : TransactionOutput) × (draw w c db cursor block_index h env ≡ ok (some o))
        × (((includes w c db cursor o results ≡ false) × Yields hs (results ++ (o ∷ [])) outputs)
            ⊎ ((includes w c db cursor o results ≡ true) × Yields hs results outputs)))
      ⊎ ((draw w c db cursor block_index h env ≡ ok none) × Yields hs results outputs)

  Yields-grows :
      (hs : List ℕ) (results outputs : List TransactionOutput)
      → Yields hs results outputs
      → length results ≤ length outputs
  Yields-grows [] results outputs y = ground (arith, ap length y)
  Yields-grows (h ∷ hs) results outputs (inl (o, e, inl (new, y))) =
      let grown = Yields-grows hs (results ++ (o ∷ [])) outputs y in
      omega (arith, grown, length-append results (o ∷ []))
  Yields-grows (h ∷ hs) results outputs (inl (o, e, inr (known, y))) =
      Yields-grows hs results outputs y
  Yields-grows (h ∷ hs) results outputs (inr (e, y)) = Yields-grows hs results outputs y

  Yields-full :
      (hs : List ℕ) (results outputs : List TransactionOutput)
      → Yields hs results outputs
      → length outputs ≤ length results
      → results ≡ outputs
  Yields-full [] results outputs y full = y
  Yields-full (h ∷ hs) results outputs (inl (o, e, inl (new, y))) full =
      let grown = Yields-grows hs (results ++ (o ∷ [])) outputs y in
      absurd (omega (arith, grown, full, length-append results (o ∷ [])))
  Yields-full (h ∷ hs) results outputs (inl (o, e, inr (known, y))) full =
      Yields-full hs results outputs y full
  Yields-full (h ∷ hs) results outputs (inr (e, y)) full = Yields-full hs results outputs y full

  module _ (count : ℕ) where
    draw_all-Yields :
        (hs : List ℕ) (results outputs : List TransactionOutput)
        → Yields hs results outputs
        → length outputs ≡ count
        → draw_all w c db cursor block_index count env hs results ≡ some (ok outputs)
    unfolding draw_all
    draw_all-Yields [] results outputs y exact =
        let done : ltb (length results) count ≡ false = ground (arith, ap length y) in
        rw done (ap (λ r. some (ok r)) y)
    draw_all-Yields (h ∷ hs) results outputs y exact =
        elim (Bool-cases (ltb (length results) count)) [
          | inr full ↦
              rw full
                (ap (λ r. some (ok r)) (Yields-full (h ∷ hs) results outputs y (ground arith)))
          | inl room ↦ rw room (elim y [
            | inl (o, e, inl (new, z)) ↦
                rw (e, new) (draw_all-Yields hs (results ++ (o ∷ [])) outputs z exact)
            | inl (o, e, inr (known, z)) ↦
                rw (e, known) (draw_all-Yields hs results outputs z exact)
            | inr (e, z) ↦ rw e (draw_all-Yields hs results outputs z exact)
          ])
        ]

    -- If there are at least count outputs and the random hashes lead, in their order and with
    -- those passed over and those there already, to count different outputs, then
    -- get_random_outputs returns them, sorted.
    pub random_outputs_return :
        (hashes : List ℕ) (outputs : List TransactionOutput)
        → count ≤ db.count env Table.transaction_outputs
        → Yields hashes [] outputs
        → length outputs ≡ count
        → get_random_outputs w c db cursor hashes block_index count env
          ≡ some (ok (sort w c db cursor outputs))
    unfolding get_random_outputs
    random_outputs_return hashes outputs enough y exact =
        let there : ltb (db.count env Table.transaction_outputs) count ≡ false = ground arith in
        rw (there, draw_all-Yields hashes [] outputs y exact) refl
