-- ===== src/Codec.antt =====
-- src/transport/cbor_codec.rs: messages as length-prefixed frames in a byte buffer.
pub mod Bounds
use t2_bus.Base.{
  ℕ, ◌+◌, ◌*◌, ◌/◌, ◌%◌, ◌^◌, ◌≤◌, ◌<◌, ltb, if◌then◌else◌, false, [], ◌∷◌, ◌++◌, length,
  length-append, take, drop, Option, none, some, codes, ◌≡◌, refl, ap, arith,
}
use native.Mathlib.Numerals.{towards_suc}
use native.Mathlib.Nat.{mod-eq_of_lt}
use mathlib.Core.List.{append_assoc}
use t2_bus.Err.{Result, ok, err, panic, io_error, ◌>>=◌}
use t2_bus.Protocol.{Bytes, max_message_size_bytes}

-- What the codec uses of the CBOR library for one message type: reading back what was written gives
-- the value.
pub record Cbor (A : Type 0) : Type 0 where
  pub ser : A → Result Bytes
  pub deser : Bytes → Result A
  pub deser-ser : (a : A) (b : Bytes) → ser a ≡ ok b → deser b ≡ ok a

abbrev pub header_length : ℕ
header_length = 4

-- `u32::from_be_bytes` of the first four bytes, and `BytesMut::put_u32`
unfoldable pub from_be_bytes : Bytes → ℕ
from_be_bytes (a ∷ b ∷ c ∷ d ∷ _) = ((a * 256 + b) * 256 + c) * 256 + d
from_be_bytes _ = 0

unfoldable pub to_be_bytes : ℕ → Bytes
to_be_bytes n = (n / 2 ^ 24 % 256) ∷ (n / 2 ^ 16 % 256) ∷ (n / 2 ^ 8 % 256) ∷ (n % 256) ∷ []

module _ {A : Type 0} (cbor : Cbor A) where
  -- The message and the buffer behind it; on an error the buffer stays.
  abbrev pub finish : Bytes → ℕ → Result A → Result (Option A) × Bytes
  finish src msg_len (ok m) = (ok (some m), drop msg_len src)
  finish src msg_len (err e) = (err e, src)
  finish src msg_len panic = (panic, src)

  unfoldable pub decode : Bytes → Result (Option A) × Bytes
  unfolding from_be_bytes
  decode src =
      let buf_len = length src in
      let payload_len = from_be_bytes (take 4 src) in
      let msg_len = payload_len + 4 in
      if ltb buf_len 4
      then (ok none, src)
      else if ltb max_message_size_bytes payload_len
      then (err (io_error (codes "Max message length exceeded")), src)
      else if ltb buf_len msg_len
      then (ok none, src)
      else finish src msg_len (cbor.deser (drop 4 (take msg_len src)))

  -- `dst` is the buffer that is written to.
  unfoldable pub encode : A → Bytes → Result Bytes
  unfolding to_be_bytes
  encode item dst = do
    bytes ← cbor.ser item
    ok (dst ++ to_be_bytes (length bytes % 2 ^ 32) ++ bytes)

take-append : (xs ys : Bytes) → take (length xs) (xs ++ ys) ≡ xs
take-append [] ys = refl
take-append (x ∷ xs) ys = ground (arith, take-append xs ys)

drop-append : (xs ys : Bytes) → drop (length xs) (xs ++ ys) ≡ ys
drop-append [] ys = refl
drop-append (x ∷ xs) ys = ground (arith, drop-append xs ys)

length-frame : (n : ℕ) (body : Bytes) → length (to_be_bytes n ++ body) ≡ length body + 4
unfolding to_be_bytes
length-frame n body = omega arith

take-frame : (k n : ℕ) (body : Bytes) → drop 4 (take (k + 4) (to_be_bytes n ++ body)) ≡ take k body
unfolding to_be_bytes
take-frame k n body = simp towards_suc

drop-frame : (k n : ℕ) (body : Bytes) → drop (k + 4) (to_be_bytes n ++ body) ≡ drop k body
unfolding to_be_bytes
drop-frame k n body = simp towards_suc

from_be_bytes-frame :
    (n : ℕ) (body : Bytes) → n < 2 ^ 32 → from_be_bytes (take 4 (to_be_bytes n ++ body)) ≡ n
unfolding from_be_bytes to_be_bytes
from_be_bytes-frame n body h = omega arith

-- A message's bytes behind their length.
abbrev pub frame : Bytes → Bytes
frame bytes = to_be_bytes (length bytes % 2 ^ 32) ++ bytes

module _ {A : Type 0} (cbor : Cbor A) where
  -- What `decode` does with a header that announces `n` bytes.
  decode_frame :
      (n : ℕ) (body : Bytes)
      → n < 2 ^ 32
      → decode cbor (to_be_bytes n ++ body) ≡ (
          if ltb max_message_size_bytes n
          then (err (io_error (codes "Max message length exceeded")), to_be_bytes n ++ body)
          else if ltb (length body) n
          then (ok none, to_be_bytes n ++ body)
          else finish cbor (to_be_bytes n ++ body) (n + 4) (cbor.deser (take n body)))
  unfolding decode
  decode_frame n body h =
      rw (from_be_bytes-frame n body h, length-frame n body, take-frame n n body) (ground arith)

  -- The frame is appended to what waits to be sent.
  pub encode-frame :
      (item : A) (bytes dst : Bytes)
      → cbor.ser item ≡ ok bytes
      → encode cbor item dst ≡ ok (dst ++ frame bytes)
  unfolding encode
  encode-frame item bytes dst e = rw e (ap ok (append_assoc dst _ bytes))

  -- A buffer that begins with the frame of a message of an allowed size, as `encode` writes it,
  -- decodes to that message, and what follows the frame is left in the buffer.
  pub decode-encode :
      (item : A) (bytes rest : Bytes)
      → cbor.ser item ≡ ok bytes
      → length bytes ≤ max_message_size_bytes
      → (encode cbor item [] ≡ ok (frame bytes))
        × (decode cbor (frame bytes ++ rest) ≡ (ok (some item), rest))
  decode-encode item bytes rest e h = (
    encode-frame item bytes [] e,
    rw (append_assoc, mod-eq_of_lt small, decode_frame (length bytes) (bytes ++ rest) small)
        (rw (
          too_long,
          complete,
          take-append bytes rest,
          cbor.deser-ser item bytes e,
          drop-frame (length bytes) (length bytes) (bytes ++ rest),
          drop-append bytes rest,
        )),
  )
    where
      small : length bytes < 2 ^ 32
      small = omega arith

      too_long : ltb max_message_size_bytes (length bytes) ≡ false
      too_long = ground arith

      complete : ltb (length (bytes ++ rest)) (length bytes) ≡ false
      complete = ground (arith, length-append bytes rest)

  -- As long as a frame of an allowed size has not arrived whole, nothing is decoded and nothing is
  -- taken from the buffer.
  pub decode_partial :
      (n : ℕ) (body : Bytes)
      → n ≤ max_message_size_bytes
      → length body < n
      → decode cbor (to_be_bytes n ++ body) ≡ (ok none, to_be_bytes n ++ body)
  decode_partial n body h short = rw (decode_frame n body (omega arith)) (ground arith)

  -- A message above the size limit and below 4 GiB, where its length fits a u32, is encoded without an
  -- error, and its frame makes the decoder fail, whatever part of its body has arrived.
  pub encode_oversized :
      (item : A) (bytes part : Bytes)
      → cbor.ser item ≡ ok bytes
      → max_message_size_bytes < length bytes
      → length bytes < 2 ^ 32
      → (encode cbor item [] ≡ ok (frame bytes))
        × (decode cbor (to_be_bytes (length bytes % 2 ^ 32) ++ part) ≡ (
          err (io_error (codes "Max message length exceeded")),
          to_be_bytes (length bytes % 2 ^ 32) ++ part,
        ))
  encode_oversized item bytes part e long small = (
    encode-frame item bytes [] e,
    rw (mod-eq_of_lt small, decode_frame (length bytes) part small) (ground arith),
  )
