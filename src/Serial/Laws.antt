-- ===== src/Serial/Laws.antt =====
-- A reader that undoes a writer, and the rules by which such pairs are composed.
use turtlecoin_v.Base.{
  ℕ, ◌≡◌, refl, ◌∙◌, ap, some, List, [], ◌∷◌, ◌++◌, append_assoc, append-nil, length, All, Bool,
  ◌<◌, ◌^◌,
}
use turtlecoin_v.Serial.{
  Bytes, Reader, ◌>>=◌, return, peek, Wire, write_each, read_many, IsKey, IsSignature, IsU64,
}

-- `r` reads `a` off the bytes `bs`, whatever follows them.
pub record Reads {A : Type 0} (r : Reader A) (bs : Bytes) (a : A) : Type 0 where
  pub back : (rest : Bytes) → r (bs ++ rest) ≡ some (a, rest)

-- What the structures rely on: each call of a deserializer_t reads back what the call of the same
-- name on a serializer_t wrote, for values of the type.
pub record WireLaws (w : Wire) : Type 0 where
  pub varint_back : (width n : ℕ) → n < 2 ^ width → Reads (w.read_varint width) (w.varint n) n
  pub key_back : (k : ℕ) → IsKey k → Reads w.read_key (w.key k) k
  pub signature_back : (s : ℕ) → IsSignature s → Reads w.read_signature (w.signature s) s
  pub key_serialize_back : (k : ℕ) → IsKey k → Reads w.read_key (w.key_serialize k) k
  pub signature_serialize_back :
      (s : ℕ) → IsSignature s → Reads w.read_signature (w.signature_serialize s) s
  pub boolean_back : (b : Bool) → Reads w.read_boolean (w.boolean b) b
  pub key_vector_back :
      (ks : List ℕ)
      → IsU64 (length ks)
      → All IsKey ks
      → Reads w.read_key_vector (w.key_vector ks) ks
  pub bytes_back : (bs : Bytes) → Reads (w.read_bytes (length bs)) (w.bytes bs) bs
  pub clsag_back : (s : ℕ) → Reads w.read_clsag (w.clsag s) s
  pub range_proof_back : (p : ℕ) → Reads w.read_range_proof (w.range_proof p) p

pub Reads-return : {A : Type 0} (a : A) → Reads (return a) [] a
unfolding return
Reads-return a = record { back = λ rest. refl }

-- A read that succeeds hands its value and the rest on.
>>=-some :
    {A B : Type 0} (r : Reader A) (f : A → Reader B) (bs : Bytes) {a : A} {rest : Bytes}
    → r bs ≡ some (a, rest)
    → (r >>= f) bs ≡ f a rest
unfolding ◌>>=◌
>>=-some r f bs e = rw (e, ◌>>=◌)

-- The bytes of a sequence of calls are read by the sequence of reads.
pub Reads->>= :
    {A B : Type 0} {r : Reader A} (f : A → Reader B) {bs cs : Bytes} {a : A} {b : B}
    → Reads r bs a
    → Reads (f a) cs b
    → Reads (r >>= f) (bs ++ cs) b
Reads->>= {r = r} f {bs = bs} {cs = cs} h k = record {
  back = λ rest.
      rw append_assoc (>>=-some r f (bs ++ (cs ++ rest)) (h.back (cs ++ rest)) ∙ k.back rest);
}

peek-some :
    {A : Type 0} (r : Reader A) (bs : Bytes) {a : A} {rest : Bytes}
    → r bs ≡ some (a, rest)
    → peek r bs ≡ some (a, bs)
unfolding peek
peek-some r bs e = rw (e, peek)

-- `r` reads `a` off the front of `bs`, and what is left is not said.
pub record Peeks {A : Type 0} (r : Reader A) (bs : Bytes) (a : A) : Type 0 where
  pub front : (rest : Bytes) → (left : Bytes) × (r (bs ++ rest) ≡ some (a, left))

pub Peeks-Reads : {A : Type 0} {r : Reader A} {bs : Bytes} {a : A} → Reads r bs a → Peeks r bs a
Peeks-Reads h = record { front = λ rest. (rest, h.back rest) }

pub Peeks-append :
    {A : Type 0} {r : Reader A} {bs : Bytes} {a : A} (cs : Bytes)
    → Peeks r bs a
    → Peeks r (bs ++ cs) a
Peeks-append {r = r} {bs = bs} cs h = record {
  front =
      λ rest. ((h.front (cs ++ rest)).0, ap r (append_assoc bs cs rest) ∙ (h.front (cs ++ rest)).1);
}

-- A peek at the first value, followed by a read of all.
pub Reads-peek :
    {A B : Type 0} {r : Reader A} (f : A → Reader B) {bs : Bytes} {a : A} {b : B}
    → Peeks r bs a
    → Reads (f a) bs b
    → Reads (peek r >>= f) bs b
Reads-peek {r = r} f {bs = bs} h k = record {
  back = λ rest.
      >>=-some (peek r) f (bs ++ rest) (peek-some r (bs ++ rest) (h.front rest).1) ∙ k.back rest;
}

-- A last chunk with nothing behind it.
pub Reads-last :
    {A : Type 0} {r : Reader A} {bs : Bytes} {a : A} → Reads r bs a → Reads r (bs ++ []) a
Reads-last {bs = bs} h = rw (append-nil bs) h

pub Reads-whole :
    {A : Type 0} {r : Reader A} {bs : Bytes} {a : A} → Reads r (bs ++ []) a → Reads r bs a
Reads-whole {r = r} {bs = bs} {a = a} h = rw (append-nil bs) at h

-- A loop that reads as many items as were written.
pub Reads-read_many :
    {A : Type 0} (r : Reader A) (write : A → Bytes) (P : A → Type 0)
    → ((x : A) → P x → Reads r (write x) x)
    → (xs : List A) → All P xs
    → Reads (read_many (length xs) r) (write_each write xs) xs
unfolding read_many write_each
Reads-read_many r write P h [] p = Reads-return []
Reads-read_many r write P h (x ∷ xs) p =
    Reads->>= _ (h x p.0)
      (Reads-whole (Reads->>= _ (Reads-read_many r write P h xs p.1) (Reads-return (x ∷ xs))))
