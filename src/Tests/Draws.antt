-- ===== src/Tests/Draws.antt =====
-- The theorems on random outputs at concrete inputs.
use turtlecoin_v.Base.{
  ℕ, ◌≡◌, refl, ltb, if◌then◌else◌, some, none, List, [], ◌∷◌, length, All, inl, inr, arith,
}
use turtlecoin_v.Base.Ordered.{IsAscending}
use turtlecoin_v.Errors.{ok}
use turtlecoin_v.Chain.Parts.{TransactionOutput, output_hash}
use turtlecoin_v.Database.{Lmdb}
use turtlecoin_v.Database.Cursor.{Cursor, Position, found, failed}
use turtlecoin_v.Errors.ErrorCode.{lmdb_notfound}
use turtlecoin_v.Storage.{read_output_record}
use turtlecoin_v.Storage.Seeking.{
  draw, includes, sort, draw_all, examine, get_random_outputs, is_not_found,
}
use turtlecoin_v.Storage.Seeking.Drawn.{IsOffered}
use turtlecoin_v.Storage.Seeking.Returned.{random_outputs-success, random_outputs_endless}
use turtlecoin_v.Storage.Seeking.Enough.{Yields, random_outputs_return}
use turtlecoin_v.Tests.Cells.{cells, read_one}
use turtlecoin_v.Tests.Toy.{toy, Store, store, empty_store}

abbrev two_outputs : Lmdb Store Store
two_outputs = record store { count = λ env d. 2 }

abbrev low : TransactionOutput
low = record { public_ephemeral = 1; amount = 1; commitment = 1 }

abbrev high : TransactionOutput
high = record { public_ephemeral = 2; amount = 2; commitment = 2 }

-- Two entries, with the unlock block behind the output.
abbrev entry_of : List ℕ → Position
entry_of [] = failed lmdb_notfound
entry_of (h ∷ hs) =
    if ltb h 4
    then found (3 ∷ []) (1 ∷ 1 ∷ 1 ∷ 9 ∷ [])
    else if ltb h 7
    then found (6 ∷ []) (2 ∷ 2 ∷ 2 ∷ 9 ∷ [])
    else failed lmdb_notfound

abbrev entries : Cursor Store
entries = record { set_range = λ t d k. entry_of k; read_uint64 = read_one }

abbrev hashes : List ℕ
hashes = 5 ∷ 8 ∷ 6 ∷ 1 ∷ []

drawn :
    get_random_outputs cells toy two_outputs entries hashes 7 2 empty_store
    ≡ some (ok (low ∷ high ∷ []))
unfolding get_random_outputs draw_all draw examine is_not_found includes sort
    turtlecoin_v.Database.Cursor.get turtlecoin_v.Database.Cursor.get_as read_output_record
    turtlecoin_v.Serial.◌>>=◌ turtlecoin_v.Chain.Parts.deserialize_output turtlecoin_v.Serial.return
    output_hash turtlecoin_v.Chain.Parts.serialize_output turtlecoin_v.Tools.PriorityQueue.push_all
    turtlecoin_v.Tools.PriorityQueue.push turtlecoin_v.Storage.Seeking.above
drawn = refl

nothing_read : read_output_record cells [] ≡ none
unfolding read_output_record turtlecoin_v.Serial.◌>>=◌ turtlecoin_v.Chain.Parts.deserialize_output
nothing_read = refl

random_outputs-success_example :
    (length (low ∷ high ∷ []) ≡ 2)
    × All (IsOffered cells toy two_outputs entries 7 empty_store) (low ∷ high ∷ [])
    × IsAscending (output_hash cells toy) (low ∷ high ∷ [])
random_outputs-success_example =
    random_outputs-success cells toy two_outputs entries 7 2 empty_store nothing_read hashes
      (low ∷ high ∷ []) drawn

yielded : Yields cells toy two_outputs entries 7 empty_store hashes [] (high ∷ low ∷ [])
unfolding draw examine is_not_found includes turtlecoin_v.Database.Cursor.get
    turtlecoin_v.Database.Cursor.get_as read_output_record turtlecoin_v.Serial.◌>>=◌
    turtlecoin_v.Chain.Parts.deserialize_output turtlecoin_v.Serial.return output_hash
    turtlecoin_v.Chain.Parts.serialize_output
yielded = inl (
  high,
  refl,
  inl (refl, inr (refl, inl (high, refl, inr (refl, inl (low, refl, inl (refl, refl)))))),
)

random_outputs_return_example :
    get_random_outputs cells toy two_outputs entries hashes 7 2 empty_store
    ≡ some (ok (sort cells toy two_outputs entries (high ∷ low ∷ [])))
random_outputs_return_example =
    random_outputs_return cells toy two_outputs entries 7 empty_store 2 hashes (high ∷ low ∷ [])
      (omega arith) yielded refl

-- Both outputs are passed over for a block index above their unlock block.
passed : (h : ℕ) → draw cells toy two_outputs entries 10 h empty_store ≡ ok none
unfolding draw examine is_not_found turtlecoin_v.Database.Cursor.get
    turtlecoin_v.Database.Cursor.get_as read_output_record turtlecoin_v.Serial.◌>>=◌
    turtlecoin_v.Chain.Parts.deserialize_output turtlecoin_v.Serial.return output_hash
    turtlecoin_v.Chain.Parts.serialize_output
passed h = ground arith

random_outputs_endless_example :
    get_random_outputs cells toy two_outputs entries hashes 10 2 empty_store ≡ none
random_outputs_endless_example =
    random_outputs_endless cells toy two_outputs entries 10 2 empty_store passed (omega arith)
      (omega arith) hashes
