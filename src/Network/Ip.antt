-- ===== src/Network/Ip.antt =====
-- IP addresses (include/network/ip_address.h). The IPv6 parser is an external library: its constants
-- and its function from text are the parameter `Ipv6`.
pub mod Laws
use turtlecoin_v.Base.{
  ℕ, zero, suc, ◌+◌, ◌-◌, ◌*◌, ◌/◌, ◌%◌, Bool, true, false, Option, none, some, List, [], ◌∷◌, ◌++◌,
  ◌==◌, not, ◌&&◌, if◌then◌else◌,
}
use turtlecoin_v.Serial.{Bytes, Reader, ◌>>=◌, return, Wire, write_each, read_many}
use turtlecoin_v.Crypto.{Crypto}
use Prim.Native.String.{String}

-- `ipv6_address_full_t`
pub record IpAddress : Type 0 where
  pub components : List ℕ
  pub port : ℕ
  pub flags : ℕ

-- The numbers of components, where an embedded IPv4 address begins, and the places of two flags.
pub record Ipv6 : Type 0 where
  pub num_components : ℕ
  pub ipv4_num_components : ℕ
  pub ipv4_embed_index : ℕ
  pub compat_bit : ℕ
  pub embed_bit : ℕ
  pub str_to_ip : String → Option IpAddress

-- `flags & (1 << k)`, `flags | (1 << k)` and `flags & ~(1 << k)`.
unfoldable pub has_bit : ℕ → ℕ → Bool
has_bit zero n = n % 2 == 1
has_bit (suc k) n = has_bit k (n / 2)

unfoldable pub set_bit : ℕ → ℕ → ℕ
set_bit zero n = n - n % 2 + 1
set_bit (suc k) n = 2 * set_bit k (n / 2) + n % 2

unfoldable pub clear_bit : ℕ → ℕ → ℕ
clear_bit zero n = n - n % 2
clear_bit (suc k) n = 2 * clear_bit k (n / 2) + n % 2

-- Reading and writing a component; the indices of the code are in range.
unfoldable pub component : ℕ → List ℕ → ℕ
component i [] = 0
component zero (x ∷ xs) = x
component (suc i) (x ∷ xs) = component i xs

unfoldable pub set_component : ℕ → ℕ → List ℕ → List ℕ
set_component i v [] = []
set_component zero v (x ∷ xs) = v ∷ xs
set_component (suc i) v (x ∷ xs) = x ∷ set_component i v xs

-- The loop that moves `count` components from index `i` on to index `k` on.
unfoldable pub shift_components : ℕ → ℕ → ℕ → List ℕ → List ℕ
shift_components zero i k comp = comp
shift_components (suc count) i k comp =
    shift_components count (i + 1) (k + 1)
      (set_component i 0 (set_component k (component i comp) comp))

unfoldable pub normalize_v4_embedded : Ipv6 → IpAddress → IpAddress
normalize_v4_embedded p a =
    if has_bit p.compat_bit a.flags
    then record a {
      components =
          set_component (p.ipv4_embed_index - 1) 0xffff
            (shift_components p.ipv4_num_components 0 p.ipv4_embed_index a.components);
      flags = clear_bit p.compat_bit (set_bit p.embed_bit a.flags);
    }
    else a

-- The constructor from text; `none` is the exception.
unfoldable pub of_string : Ipv6 → String → Option IpAddress
of_string p text = elim (p.str_to_ip text) [
  | none ↦ none
  | some a ↦ some (normalize_v4_embedded p a)
]

unfoldable pub serialize_address : Wire → IpAddress → Bytes
serialize_address w a = write_each w.varint a.components ++ w.varint a.flags

unfoldable pub deserialize_address : Wire → Ipv6 → Reader IpAddress
deserialize_address w p = do
  components ← read_many p.num_components (w.read_varint 16)
  flags ← w.read_varint 32
  return (normalize_v4_embedded p (record { components = components; port = 0; flags = flags }))

unfoldable pub address_hash : Wire → Crypto → IpAddress → ℕ
address_hash w c a = c.sha3 (serialize_address w a)

-- The loop of `is_v4` over the components from index `skipped` on.
unfoldable pub zero_from : ℕ → List ℕ → Bool
zero_from skipped [] = true
zero_from zero (x ∷ xs) = x == 0 && zero_from zero xs
zero_from (suc skipped) (x ∷ xs) = zero_from skipped xs

unfoldable pub is_v4 : IpAddress → Bool
is_v4 a = zero_from 4 a.components

unfoldable pub is_v6 : IpAddress → Bool
is_v6 a = not (is_v4 a)
