-- ===== src/Protocol.antt =====
-- src/protocol.rs: the messages between clients and the server, and payloads.
use Prim.Native.Nat.{◌^◌}
use t2_bus.Base.{
  ℕ, ltb, if◌then◌else◌, Bool, true, false, List, Option, none, some, length, ◌≡◌, arith,
}
use t2_bus.Topic.{Topic}
use t2_bus.Err.{BusError, Result, ok, panic}

abbrev pub Bytes : Type 0
Bytes = List ℕ

abbrev pub max_message_size_bytes : ℕ
max_message_size_bytes = 2 ^ 20

abbrev pub payload_compression_threshold_bytes : ℕ
payload_compression_threshold_bytes = 5000

pub record Payload : Type 0 where
  pub bytes : Bytes
  pub is_compressed : Bool

pub data RspMsgStatus : Type 0 where
  answered timeout : RspMsgStatus

pub record PubMsg : Type 0 where
  pub topic : Topic
  pub payload : Payload

pub record ReqMsg : Type 0 where
  pub topic : Topic
  pub payload : Payload

pub record RspMsg : Type 0 where
  pub req_id : ℕ
  pub status : RspMsgStatus
  pub payload : Payload

pub record AckMsg : Type 0 where
  pub msg_id : ℕ
  pub error : Option BusError
  pub num_recipients : Option ℕ

-- From the client to the server. `SubMsg`, `UnsubMsg`, `SrvMsg` and `UnsrvMsg` hold a topic alone.
pub data ProtocolClient : Type 0 where
  sub : Topic → ProtocolClient
  publish : PubMsg → ProtocolClient
  srv : Topic → ProtocolClient
  req : ReqMsg → ProtocolClient
  rsp : RspMsg → ProtocolClient
  unsub : Topic → ProtocolClient
  unsrv : Topic → ProtocolClient
  stop : ProtocolClient
  keep_alive : ProtocolClient

-- From the server to the client.
pub data ProtocolServer : Type 0 where
  publish : PubMsg → ProtocolServer
  req : ReqMsg → ProtocolServer
  rsp : RspMsg → ProtocolServer
  ack : AckMsg → ProtocolServer

pub record Msg (A : Type 0) : Type 0 where
  pub id : ℕ
  pub content : A

-- What the code uses of the gzip library: an encoder that does not fail, and a decoder that fails on
-- bytes that are no gzip stream and undoes the encoder.
pub record Gzip : Type 0 where
  pub compress : Bytes → Bytes
  pub decompress : Bytes → Option Bytes
  pub decompress-compress : (b : Bytes) → decompress (compress b) ≡ some b

abbrev unwrapped : Option Bytes → Result Bytes
unwrapped none = panic
unwrapped (some b) = ok b

module _ (gzip : Gzip) where
  -- `impl From<Vec<u8>> for Payload`
  unfoldable pub to_payload : Bytes → Payload
  to_payload b =
      if ltb payload_compression_threshold_bytes (length b)
      then record { bytes = gzip.compress b; is_compressed = true }
      else record { bytes = b; is_compressed = false }

  -- `impl From<Payload> for Vec<u8>`, where `unwrap` panics on a payload that does not decode
  unfoldable pub from_payload : Payload → Result Bytes
  from_payload p = if p.is_compressed then unwrapped (gzip.decompress p.bytes) else ok p.bytes

  -- A payload made from bytes reads back as those bytes, compressed or not, with no panic.
  pub from_payload-to_payload : (b : Bytes) → from_payload (to_payload b) ≡ ok b
  unfolding from_payload to_payload
  from_payload-to_payload b = ground (arith, gzip.decompress-compress b)
