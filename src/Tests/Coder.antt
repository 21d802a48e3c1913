-- ===== src/Tests/Coder.antt =====
-- A coder of bytes as text, and the theorems on addresses at concrete inputs.
use turtlecoin_v.Base.{
  ℕ, zero, suc, ◌+◌, ◌≡◌, refl, ◌∙◌, ap, Option, none, some, [], ◌∷◌, ◌==◌, if◌then◌else◌, arith,
}
use Prim.Native.Char.{char, code}
use Prim.Native.String.{String}
use turtlecoin_v.Errors.{ok}
use turtlecoin_v.Serial.{Bytes}
use turtlecoin_v.Address.{Base58, encode, decode}
use turtlecoin_v.Address.Laws.{Base58Law, address_decode-encode}
use turtlecoin_v.Tests.Cells.{cells, cells_laws}

-- A number is written as that many letters a, and a b.
abbrev unary : ℕ → String → String
unary zero s = String.◌∷◌ (char 98 tt) s
unary (suc n) s = String.◌∷◌ (char 97 tt) (unary n s)

abbrev encode_all : Bytes → String
encode_all [] = String.[]
encode_all (n ∷ ns) = unary n (encode_all ns)

abbrev prepend : ℕ → Option Bytes → Option Bytes
prepend n none = none
prepend n (some ns) = some (n ∷ ns)

abbrev decode_from : String → ℕ → Option Bytes
decode_from String.[] seen = some []
decode_from (String.◌∷◌ c s) seen =
    let more = decode_from s (seen + 1) in
    let next = prepend seen (decode_from s 0) in if code c == 97 then more else next

abbrev pub letters : Base58
letters = record { encode_check = encode_all; decode_check = λ s. decode_from s 0 }

unary_back :
    (n seen : ℕ) (s : String) → decode_from (unary n s) seen ≡ prepend (seen + n) (decode_from s 0)
unary_back zero seen s = ground arith
unary_back (suc n) seen s = ground (arith, unary_back n (seen + 1) s)

letters_law : Base58Law letters
letters_law [] = refl
letters_law (n ∷ ns) =
    let from_zero : 0 + n ≡ n = omega arith in
    unary_back n 0 (encode_all ns)
    ∙ ap (λ m. prepend m (decode_from (encode_all ns) 0)) from_zero
    ∙ ap (prepend n) (letters_law ns)

address_decode-encode_example : decode cells letters (encode cells letters 5 7) ≡ ok (5, 7)
address_decode-encode_example =
    address_decode-encode cells cells_laws letters letters_law 5 7 (omega arith) (omega arith)
