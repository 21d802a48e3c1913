-- ===== src/Address.antt =====
-- Wallet addresses (src/common/address.cpp). The Base58 coder is the crypto library's.
pub mod Laws
use turtlecoin_v.Base.{ℕ, Bool, Option, none, some, List, [], ◌∷◌, ◌++◌, ◌==◌, not, if◌then◌else◌}
use turtlecoin_v.Errors.{Outcome, ok, err}
use turtlecoin_v.Errors.ErrorCode.{base58_decode, address_prefix_mismatch, address_decode}
use turtlecoin_v.Config.{public_address_prefix}
use turtlecoin_v.Serial.{Bytes, Reader, ◌>>=◌, return, Wire, emit}
use Prim.Native.String.{String}

-- `Crypto::CNBase58`
pub record Base58 : Type 0 where
  pub encode_check : Bytes → String
  pub decode_check : String → Option Bytes

-- The body of the `try`: the prefix is compared before the keys are read.
unfoldable pub read_keys : Wire → ℕ → Reader (Outcome (ℕ × ℕ))
read_keys w prefix =
    if not (prefix == public_address_prefix) then return (err address_prefix_mismatch) else do
      public_spend ← w.read_key
      public_view ← w.read_key
      return (ok (public_spend, public_view))

unfoldable pub read_address : Wire → Reader (Outcome (ℕ × ℕ))
read_address w = do prefix ← w.read_varint 64; read_keys w prefix

-- An exception of the reader is caught.
unfoldable pub decode : Wire → Base58 → String → Outcome (ℕ × ℕ)
decode w b address = elim (b.decode_check address) [
  | none ↦ err base58_decode
  | some bytes ↦ elim (read_address w bytes) [ none ↦ err address_decode | some (keys, _) ↦ keys ]
]

unfoldable pub encode : Wire → Base58 → ℕ → ℕ → String
encode w b public_spend public_view =
    b.encode_check
      (emit (w.varint public_address_prefix ∷ w.key public_spend ∷ w.key public_view ∷ []))
