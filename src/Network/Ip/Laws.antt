-- ===== src/Network/Ip/Laws.antt =====
-- About the normal form and the bytes of IP addresses (include/network/ip_address.h).
use turtlecoin_v.Base.{
  ℕ, zero, suc, ◌+◌, ◌-◌, ◌*◌, ◌/◌, ◌%◌, ◌^◌, ◌<◌, ◌≤◌, ◌≡◌, ◌≢◌, refl, true, false, List, [], ◌∷◌,
  length, All, arith, inl, inr, Bool-cases, subst,
}
use turtlecoin_v.Serial.{Wire, write_each, read_many}
use turtlecoin_v.Serial.Laws.{
  Reads, WireLaws, Reads->>=, Reads-return, Reads-read_many, Reads-whole,
}
use turtlecoin_v.Network.Ip.{
  IpAddress, Ipv6, has_bit, set_bit, clear_bit, component, set_component, shift_components,
  normalize_v4_embedded, serialize_address, deserialize_address, zero_from, is_v4,
}

has_bit-clear_bit : (k n : ℕ) → has_bit k (clear_bit k n) ≡ false
unfolding has_bit clear_bit
has_bit-clear_bit zero n = ground arith
has_bit-clear_bit (suc k) n =
    let half : (2 * clear_bit k (n / 2) + n % 2) / 2 ≡ clear_bit k (n / 2) = omega arith in
    rw half (has_bit-clear_bit k (n / 2))

-- After normalization the flag of the compatible form is not set.
pub normalized_flag :
    (p : Ipv6) (a : IpAddress) → has_bit p.compat_bit (normalize_v4_embedded p a).flags ≡ false
unfolding normalize_v4_embedded
normalized_flag p a = elim (Bool-cases (has_bit p.compat_bit a.flags)) [
  | inl e ↦ rw e (has_bit-clear_bit p.compat_bit (set_bit p.embed_bit a.flags))
  | inr e ↦ rw e e
]

normalize_plain :
    (p : Ipv6) (a : IpAddress)
    → has_bit p.compat_bit a.flags ≡ false
    → normalize_v4_embedded p a ≡ a
unfolding normalize_v4_embedded
normalize_plain p a e = rw e refl

-- Normalizing an address twice is normalizing it once.
pub normalize_idempotent :
    (p : Ipv6) (a : IpAddress)
    → normalize_v4_embedded p (normalize_v4_embedded p a) ≡ normalize_v4_embedded p a
normalize_idempotent p a = normalize_plain p (normalize_v4_embedded p a) (normalized_flag p a)

length-set_component : (i v : ℕ) (xs : List ℕ) → length (set_component i v xs) ≡ length xs
unfolding set_component
length-set_component i v [] = refl
length-set_component zero v (x ∷ xs) = refl
length-set_component (suc i) v (x ∷ xs) = omega (arith, length-set_component i v xs)

length-shift_components : (n i k : ℕ) (xs : List ℕ) → length (shift_components n i k xs) ≡ length xs
unfolding shift_components
length-shift_components zero i k xs = refl
length-shift_components (suc n) i k xs = omega (
  arith,
  length-shift_components n (i + 1) (k + 1)
      (set_component i 0 (set_component k (component i xs) xs)),
  length-set_component i 0 (set_component k (component i xs) xs),
  length-set_component k (component i xs) xs,
)

-- A component other than 0 behind the skipped ones is noticed.
zero_from-set_component :
    (skipped i v : ℕ) (xs : List ℕ)
    → skipped ≤ i
    → i < length xs
    → v ≢ 0
    → zero_from skipped (set_component i v xs) ≡ false
unfolding zero_from set_component
zero_from-set_component skipped i v [] le lt ne = absurd (omega arith)
zero_from-set_component zero zero v (x ∷ xs) le lt ne = ground arith
zero_from-set_component (suc skipped) zero v (x ∷ xs) le lt ne = absurd (omega arith)
zero_from-set_component zero (suc i) v (x ∷ xs) le lt ne =
    ground (arith, zero_from-set_component zero i v xs (omega arith) (omega arith) ne)
zero_from-set_component (suc skipped) (suc i) v (x ∷ xs) le lt ne =
    zero_from-set_component skipped i v xs (omega arith) (omega arith) ne

-- If the embedded form has its mark at index 4 or above, is_v4 says no to every address that was
-- read in the compatible form and normalized.
pub normalized_v4-is_v4 :
    (p : Ipv6) (a : IpAddress)
    → 5 ≤ p.ipv4_embed_index
    → p.ipv4_embed_index ≤ length a.components
    → has_bit p.compat_bit a.flags ≡ true
    → is_v4 (normalize_v4_embedded p a) ≡ false
unfolding normalize_v4_embedded is_v4
normalized_v4-is_v4 p a lo hi e =
    let moved : List ℕ = shift_components p.ipv4_num_components 0 p.ipv4_embed_index a.components in
    let same = length-shift_components p.ipv4_num_components 0 p.ipv4_embed_index a.components in
    rw e (
      zero_from-set_component 4 (p.ipv4_embed_index - 1) 0xffff moved (omega arith)
        (omega (arith, same)) (omega arith))

-- The fields are in the range of their types, and the address is normal and without a port.
pub record IsAddress (p : Ipv6) (a : IpAddress) : Type 0 where
  pub component_count : length a.components ≡ p.num_components
  pub small_components : All (λ x. x < 2 ^ 16) a.components
  pub small_flags : a.flags < 2 ^ 32
  pub normal : has_bit p.compat_bit a.flags ≡ false
  pub no_port : a.port ≡ 0

module _ (w : Wire) (laws : WireLaws w) (p : Ipv6) where
  components_back :
      (xs : List ℕ)
      → length xs ≡ p.num_components
      → All (λ x. x < 2 ^ 16) xs
      → Reads (read_many p.num_components (w.read_varint 16)) (write_each w.varint xs) xs
  components_back xs count small =
      rw (← count) (
        Reads-read_many (w.read_varint 16) w.varint (λ x. x < 2 ^ 16) (laws.varint_back 16) xs
          small)

  normal_back :
      (a : IpAddress)
      → IsAddress p a
      → normalize_v4_embedded p (record { components = a.components; port = 0; flags = a.flags })
        ≡ a
  normal_back a h = rw (← h.no_port) (normalize_plain p a h.normal)

  -- From its bytes an address comes back in its normal form and without its port.
  pub address-Reads :
      (a : IpAddress)
      → length a.components ≡ p.num_components
      → All (λ x. x < 2 ^ 16) a.components
      → a.flags < 2 ^ 32
      → Reads (deserialize_address w p) (serialize_address w a) (
          normalize_v4_embedded p (record { components = a.components; port = 0; flags = a.flags }))
  unfolding deserialize_address serialize_address
  address-Reads a count small flags =
      Reads->>= _ (components_back a.components count small)
        (Reads-whole (Reads->>= _ (laws.varint_back 32 a.flags flags) (Reads-return _)))

  -- A normal address is read back from its bytes.
  pub address_back :
      (a : IpAddress) → IsAddress p a → Reads (deserialize_address w p) (serialize_address w a) a
  address_back a h =
      subst (Reads (deserialize_address w p) (serialize_address w a)) (normal_back a h)
        (address-Reads a h.component_count h.small_components h.small_flags)
