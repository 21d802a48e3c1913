-- ===== src/Address/Laws.antt =====
-- About encoding and decoding addresses (src/common/address.cpp).
use turtlecoin_v.Base.{
  ℕ, ◌≡◌, ◌≢◌, ◌<◌, ◌^◌, refl, sym, ◌∙◌, ap, Option, some, ◌∷◌, [], ◌++◌, append-nil, arith,
}
use turtlecoin_v.Errors.{ok, err, thrown}
use turtlecoin_v.Errors.ErrorCode.{address_prefix_mismatch}
use turtlecoin_v.Config.{public_address_prefix}
use turtlecoin_v.Serial.{Bytes, Wire, IsKey, ◌>>=◌, return, emit}
use turtlecoin_v.Serial.Laws.{Reads, WireLaws, Reads->>=, Reads-return}
use Prim.Native.String.{String}
use turtlecoin_v.Address.{Base58, read_keys, read_address, decode, encode}

-- What the code relies on: the coder reads back what it encoded.
abbrev pub Base58Law : Base58 → Type 0
Base58Law b = (bytes : Bytes) → b.decode_check (b.encode_check bytes) ≡ some bytes

module _ (w : Wire) (laws : WireLaws w) where
  read_address_back :
      (spend view : ℕ)
      → IsKey spend
      → IsKey view
      → Reads
          (read_address w)
          (emit (w.varint public_address_prefix ∷ w.key spend ∷ w.key view ∷ []))
          (ok (spend, view))
  unfolding read_address read_keys
  read_address_back spend view s v =
      Reads->>= _ (laws.varint_back 64 public_address_prefix (omega arith))
        (Reads->>= _ (laws.key_back _ s) (Reads->>= _ (laws.key_back _ v) (Reads-return _)))

  read_foreign :
      (prefix : ℕ) (rest : Bytes)
      → prefix < 2 ^ 64
      → prefix ≢ public_address_prefix
      → read_address w (w.varint prefix ++ rest) ≡ some (err address_prefix_mismatch, rest)
  unfolding read_address read_keys ◌>>=◌ return
  read_foreign prefix rest small foreign =
      ground (arith, (laws.varint_back 64 prefix small).back rest)

  read_whole :
      {A : Type 0} (r : Bytes → Option (A × Bytes)) (bs : Bytes) (a : A)
      → Reads r bs a
      → r bs ≡ some (a, [])
  read_whole r bs a h = ap r (sym (append-nil bs)) ∙ h.back []

  -- With WireLaws and a coder that reads back what it encoded: decoding the address of two keys in
  -- range gives the two keys.
  pub address_decode-encode :
      (b : Base58)
      → Base58Law b
      → (spend view : ℕ) → IsKey spend
      → IsKey view
      → decode w b (encode w b spend view) ≡ ok (spend, view)
  unfolding decode encode
  address_decode-encode b law spend view s v =
      rw (law _, decode, read_whole (read_address w) _ _ (read_address_back spend view s v)) refl

  -- With WireLaws and a coder that reads back what it encoded: an address with another 64-bit
  -- prefix is refused as such, whatever follows the prefix.
  pub foreign_prefix_refused :
      (b : Base58)
      → Base58Law b
      → (prefix : ℕ) (rest : Bytes) → prefix < 2 ^ 64
      → prefix ≢ public_address_prefix
      → decode w b (b.encode_check (w.varint prefix ++ rest)) ≡ err address_prefix_mismatch
  unfolding decode
  foreign_prefix_refused b law prefix rest small foreign =
      rw (law _, decode, read_foreign prefix rest small foreign) refl

-- Decoding always comes back, with keys or with an error.
pub decode-ne-thrown : (w : Wire) (b : Base58) (address : String) → decode w b address ≢ thrown
unfolding decode read_address read_keys ◌>>=◌ return
decode-ne-thrown w b address = ground arith
