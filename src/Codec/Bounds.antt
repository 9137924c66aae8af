-- ===== src/Codec/Bounds.antt =====
-- What one call of `decode` (src/transport/cbor_codec.rs) takes from its buffer.
use t2_bus.Base.{
  ℕ, ◌+◌, ◌≤◌, ltb, Bool-cases, inl, inr, ◌⊎◌, length, take, drop, Option, some, ◌≡◌, ◌≢◌, refl,
  arith,
}
use t2_bus.Err.{Result, ok, err, panic}
use t2_bus.Protocol.{Bytes, max_message_size_bytes}
use t2_bus.Codec.{Cbor, from_be_bytes, finish, decode}

module _ {A : Type 0} (cbor : Cbor A) where
  -- What a frame takes: its header, and a body of an allowed length that is there.
  pub record Takes (src : Bytes) (item : A) (rest : Bytes) : Type 0 where
    pub size : ℕ
    pub has_header : 4 ≤ size
    pub is_allowed : size ≤ max_message_size_bytes + 4
    pub is_there : size ≤ length src
    pub is_rest : rest ≡ drop size src
    pub is_body : cbor.deser (drop 4 (take size src)) ≡ ok item

  -- Nothing is decoded, and the buffer stays.
  abbrev pub IsKept : Bytes → Result (Option A) × Bytes → Type 0
  IsKept src (r, rest) = ((item : A) → r ≢ ok (some item)) × (rest ≡ src)

  finish-Takes :
      (src : Bytes) (n : ℕ) (r : Result A)
      → cbor.deser (drop 4 (take (n + 4) src)) ≡ r
      → n ≤ max_message_size_bytes
      → n + 4 ≤ length src
      → IsKept src (finish cbor src (n + 4) r)
        ⊎ ((item : A) × ((finish cbor src (n + 4) r).0 ≡ ok (some item))
            × Takes src item (finish cbor src (n + 4) r).1)
  finish-Takes src n (ok item) e a b = inr (
    item,
    refl,
    record {
      size = n + 4;
      has_header = omega arith;
      is_allowed = omega arith;
      is_there = b;
      is_rest = refl;
      is_body = e;
    },
  )
  finish-Takes src n (err x) e a b = inl (λ item h. ground (arith, h), refl)
  finish-Takes src n panic e a b = inl (λ item h. ground (arith, h), refl)

  -- A call of the decoder either decodes nothing and leaves the buffer as it is, or takes the header
  -- and one body from its front: 4 bytes at least, the size limit and 4 at most, and no more than
  -- there are.
  pub decode_bounds :
      (src : Bytes)
      → IsKept src (decode cbor src)
        ⊎ ((item : A) × ((decode cbor src).0 ≡ ok (some item)) × Takes src item (decode cbor src).1)
  unfolding decode
  decode_bounds src =
      let n = from_be_bytes (take 4 src) in
      elim (Bool-cases (ltb (length src) 4)) [
        | inl e ↦ rw e (inl (λ item h. ground (arith, h), refl))
        | inr e ↦ elim (Bool-cases (ltb max_message_size_bytes n)) [
          | inl f ↦ rw (e, f) (inl (λ item h. ground (arith, h), refl))
          | inr f ↦ elim (Bool-cases (ltb (length src) (n + 4))) [
            | inl g ↦ rw (e, f, g) (inl (λ item h. ground (arith, h), refl))
            | inr g ↦
                rw (e, f, g)
                  (finish-Takes src n (cbor.deser (drop 4 (take (n + 4) src))) refl
                    (ground (arith, f)) (ground (arith, g)))
          ]
        ]
      ]
