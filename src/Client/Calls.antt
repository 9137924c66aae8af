-- ===== src/Client/Calls.antt =====
-- What a call of the client (src/client/mod.rs) returns for the answers that it gets.
use t2_bus.Base.{ℕ, true, [], ◌∷◌, ◌++◌, none, some, inl, inr, ◌≡◌, ◌≢◌, arith}
use t2_bus.Text.{Text}
use t2_bus.Topic.{Topic, TopicPath}
use t2_bus.Err.{BusError, ok, err, panic, request_failed_timeout, Result-cases}
use t2_bus.Exec.{◌>>=◌}
use t2_bus.Protocol
use t2_bus.Protocol.{
  Bytes, Gzip, to_payload, from_payload, from_payload-to_payload, answered, timeout, RspMsg, AckMsg,
  PubMsg,
}
use t2_bus.Codec.{Cbor}
use t2_bus.Topic.Parse.{Patterns, new_topic}
use t2_bus.Server
use t2_bus.Server.{Core, ack_of, handle}
use t2_bus.Client.{Callback, req}
use t2_bus.Client.Api.{
  Client, arrived, send_task, expect_ack, publish_bytes, send_request, request_bytes, read_answer,
  request,
}

module _ (describe : BusError → Text) (recv_error : Text) (gzip : Gzip) (patterns : Patterns) where
  abbrev pub asked : Topic → Bytes → Callback → Callback → Client → Client
  asked topic payload callback_ack callback_rsp s = record s {
    tasks =
        s.tasks
        ++ req (record { topic = topic; payload = to_payload gzip payload }) callback_ack
            callback_rsp
          ∷ [];
  }

  send_request_acked :
      (topic : Topic) (payload : Bytes) (ca cr : Callback) (ack : AckMsg) (r : RspMsg) (s : Client)
      → s.is_running ≡ true
      → ack.error ≡ none
      → send_request describe recv_error gzip patterns topic payload ca cr (arrived ack) (some r) s
        ≡ (ok r, asked topic payload ca cr s)
  unfolding send_request send_task expect_ack ◌>>=◌
  send_request_acked topic payload ca cr ack r s h e = ground (arith, h, e)

  module _ {Q A : Type 0} (question : Cbor Q) (answer : Cbor A) (prefix : Text) (path : TopicPath)
      (topic : Topic) (q : Q) (payload : Bytes) (ca cr : Callback) (ack : AckMsg) (s : Client) where
    -- A request on a valid topic that the bus acknowledges without an error, and that is answered
    -- with a payload made from an encoded value, returns that value, compressed or not, and has
    -- handed the main loop the request.
    pub request-answered :
        (a : A) (bytes : Bytes) (r : RspMsg)
        → s.is_running ≡ true
        → new_topic patterns prefix path ≡ ok topic
        → question.ser q ≡ ok payload
        → ack.error ≡ none
        → answer.ser a ≡ ok bytes
        → r.status ≡ answered
        → r.payload ≡ to_payload gzip bytes
        → request describe recv_error gzip patterns question answer prefix path q ca cr
            (arrived ack)
            (some r)
            s
          ≡ (ok a, asked topic payload ca cr s)
    unfolding request read_answer ◌>>=◌
    request-answered a bytes r h valid encoded e coded is_answered same = ground (
      arith,
      valid,
      encoded,
      send_request_acked topic payload ca cr ack r s h e,
      is_answered,
      same,
      from_payload-to_payload gzip bytes,
      answer.deser-ser a bytes coded,
    )

    -- The same request that times out at the server: `request` returns an error, but
    -- `request_bytes`, which does not look at the status, returns the empty payload as an answer.
    pub request_timeout_answers :
        s.is_running ≡ true
        → new_topic patterns prefix path ≡ ok topic
        → question.ser q ≡ ok payload
        → ack.error ≡ none
        → (id : ℕ)
        → let r : RspMsg = record { req_id = id; status = timeout; payload = to_payload gzip [] } in
          (request describe recv_error gzip patterns question answer prefix path q ca cr
              (arrived ack)
              (some r)
              s
            ≡ (err request_failed_timeout, asked topic payload ca cr s))
          × (request_bytes describe recv_error gzip patterns topic payload ca cr
                (arrived ack)
                (some r)
                s
              ≡ (ok [], asked topic payload ca cr s))
    unfolding request request_bytes read_answer ◌>>=◌
    request_timeout_answers h valid encoded e id =
        let r : RspMsg = record { req_id = id; status = timeout; payload = to_payload gzip [] } in
        (
          ground (arith, valid, encoded, send_request_acked topic payload ca cr ack r s h e),
          ground (
            arith,
            send_request_acked topic payload ca cr ack r s h e,
            from_payload-to_payload gzip [],
          ),
        )

  -- A publication that the server handles without a panic is acknowledged in a way that does not
  -- make `publish_bytes` panic: the number of recipients is there wherever it is unwrapped.
  pub publish_bytes-ne-panic :
      (send_error : Text) (client id : ℕ) (params : PubMsg) (core : Core) (topic : Topic)
      (bytes : Bytes) (ca : Callback) (s : Client)
      → (Server.publish send_error params core).0 ≢ panic
      → (publish_bytes describe recv_error gzip patterns topic bytes ca
          (arrived (
            ack_of id
              (handle send_error client id (Protocol.ProtocolClient.publish params) core).0))
          s).0
        ≢ panic
  unfolding publish_bytes send_task expect_ack handle ◌>>=◌
  publish_bytes-ne-panic send_error client id params core topic bytes ca s n =
      elim (Result-cases (Server.publish send_error params core).0 n) [
        | inl (k, e) ↦ ground (arith, e)
        | inr (b, e) ↦ ground (arith, e)
      ]
