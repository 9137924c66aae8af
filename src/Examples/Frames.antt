-- ===== src/Examples/Frames.antt =====
-- The codec and the payloads, with bytes for messages.
use t2_bus.Base.{
  ℕ, ◌+◌, ◌%◌, ◌^◌, ◌<◌, [], ◌∷◌, ◌++◌, length, none, some, suc, zero, subst, sym, ◌≡◌, ◌⊎◌, refl,
  arith, codes,
}
use t2_bus.Err.{ok, err, io_error}
use t2_bus.Protocol.{Bytes, Gzip, max_message_size_bytes}
use t2_bus.Codec.Bounds.{IsKept, Takes, decode_bounds}
use t2_bus.Codec.{Cbor, decode, encode, frame, to_be_bytes, decode-encode, encode_oversized}

abbrev pub plain_gzip : Gzip
plain_gzip = record {
  compress = λ b. 31 ∷ b;
  decompress = λ b. elim b [ [] ↦ none | x ∷ xs ↦ some xs ];
  decompress-compress = λ b. refl;
}

abbrev pub plain_cbor : Cbor Bytes
plain_cbor = record { ser = λ b. ok b; deser = λ b. ok b; deser-ser = λ b bytes e. sym e }

writes : encode plain_cbor (7 ∷ 8 ∷ []) [] ≡ ok (0 ∷ 0 ∷ 0 ∷ 2 ∷ 7 ∷ 8 ∷ [])
unfolding encode
writes = refl

reads : decode plain_cbor (0 ∷ 0 ∷ 0 ∷ 2 ∷ 7 ∷ 8 ∷ 9 ∷ []) ≡ (ok (some (7 ∷ 8 ∷ [])), 9 ∷ [])
unfolding decode
reads = refl

decode-encode_example :
    (encode plain_cbor (7 ∷ 8 ∷ []) [] ≡ ok (frame (7 ∷ 8 ∷ [])))
    × (decode plain_cbor (frame (7 ∷ 8 ∷ []) ++ 9 ∷ []) ≡ (ok (some (7 ∷ 8 ∷ [])), 9 ∷ []))
decode-encode_example =
    decode-encode plain_cbor (7 ∷ 8 ∷ []) (7 ∷ 8 ∷ []) (9 ∷ []) refl (omega arith)

zeros : ℕ → Bytes
zeros zero = []
zeros (suc n) = 0 ∷ zeros n

length-zeros : (n : ℕ) → length (zeros n) ≡ n
unfolding zeros
length-zeros zero = refl
length-zeros (suc n) = ground (arith, length-zeros n)

-- One message, one byte above the limit.
abbrev too_long : Bytes
too_long = zeros (max_message_size_bytes + 1)

abbrev long_cbor : Cbor (Unit {0})
long_cbor = record { ser = λ _. ok too_long; deser = λ _. ok tt; deser-ser = λ _ _ _. refl }

encode_oversized_example :
    (encode long_cbor tt [] ≡ ok (frame too_long))
    × (decode long_cbor (to_be_bytes (length too_long % 2 ^ 32) ++ 0 ∷ []) ≡ (
      err (io_error (codes "Max message length exceeded")),
      to_be_bytes (length too_long % 2 ^ 32) ++ 0 ∷ [],
    ))
encode_oversized_example =
    encode_oversized long_cbor tt too_long (0 ∷ []) refl
      (subst (λ n. max_message_size_bytes < n) (sym (length-zeros _)) (omega arith))
      (subst (λ n. n < 2 ^ 32) (sym (length-zeros _)) (omega arith))

decode_bounds_example :
    IsKept plain_cbor (0 ∷ 0 ∷ 0 ∷ 1 ∷ 7 ∷ 9 ∷ []) (decode plain_cbor (0 ∷ 0 ∷ 0 ∷ 1 ∷ 7 ∷ 9 ∷ []))
    ⊎ ((item : Bytes) × ((decode plain_cbor (0 ∷ 0 ∷ 0 ∷ 1 ∷ 7 ∷ 9 ∷ [])).0 ≡ ok (some item))
        × Takes plain_cbor
            (0 ∷ 0 ∷ 0 ∷ 1 ∷ 7 ∷ 9 ∷ [])
            item
            (decode plain_cbor (0 ∷ 0 ∷ 0 ∷ 1 ∷ 7 ∷ 9 ∷ [])).1)
decode_bounds_example = decode_bounds plain_cbor (0 ∷ 0 ∷ 0 ∷ 1 ∷ 7 ∷ 9 ∷ [])
