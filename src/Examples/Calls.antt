-- ===== src/Examples/Calls.antt =====
-- A request on `f32:a/*`, with bytes for the question and the answer.
use t2_bus.Base.{true, codes, [], ◌∷◌, none, some, ◌≡◌, refl}
use t2_bus.Text.{Text}
use t2_bus.Err.{BusError, ok, err, request_failed_timeout}
use t2_bus.Protocol.{to_payload, answered, timeout, RspMsg, AckMsg}
use t2_bus.Client.Api.{Client, arrived, request, request_bytes}
use t2_bus.Client.Calls
use t2_bus.Topic.Parse.{new_topic}
use t2_bus.Examples.Topics.{star}
use t2_bus.Examples.Parsing.{plain_patterns}
use t2_bus.Examples.Frames.{plain_gzip, plain_cbor}

abbrev pub describe : BusError → Text
describe e = codes "error"

abbrev pub recv_error : Text
recv_error = codes "channel closed"

abbrev pub caller : Client
caller = record { is_running = true; tasks = [] }

abbrev accepted : AckMsg
accepted = record { msg_id = 1; error = none; num_recipients = none }

abbrev reply : RspMsg
reply = record { req_id = 1; status = answered; payload = to_payload plain_gzip (5 ∷ []) }

request-answered_example :
    request describe recv_error plain_gzip plain_patterns plain_cbor plain_cbor
      (codes "f32")
      star.path
      (7 ∷ [])
      10
      11
      (arrived accepted)
      (some reply)
      caller
    ≡ (
      ok (5 ∷ []),
      Calls.asked describe recv_error plain_gzip plain_patterns star (7 ∷ []) 10 11 caller,
    )
unfolding new_topic
request-answered_example =
    Calls.request-answered describe recv_error plain_gzip plain_patterns plain_cbor plain_cbor
      (codes "f32") star.path star (7 ∷ []) (7 ∷ []) 10 11 accepted caller (5 ∷ []) (5 ∷ []) reply
      refl refl refl refl refl refl refl

request_timeout_answers_example :
    let r : RspMsg = record { req_id = 1; status = timeout; payload = to_payload plain_gzip [] } in
    (request describe recv_error plain_gzip plain_patterns plain_cbor plain_cbor
        (codes "f32")
        star.path
        (7 ∷ [])
        10
        11
        (arrived accepted)
        (some r)
        caller
      ≡ (
        err request_failed_timeout,
        Calls.asked describe recv_error plain_gzip plain_patterns star (7 ∷ []) 10 11 caller,
      ))
    × (request_bytes describe recv_error plain_gzip plain_patterns star
          (7 ∷ [])
          10
          11
          (arrived accepted)
          (some r)
          caller
        ≡ (
          ok [],
          Calls.asked describe recv_error plain_gzip plain_patterns star (7 ∷ []) 10 11 caller,
        ))
unfolding new_topic
request_timeout_answers_example =
    Calls.request_timeout_answers describe recv_error plain_gzip plain_patterns plain_cbor
      plain_cbor (codes "f32") star.path star (7 ∷ []) (7 ∷ []) 10 11 accepted caller refl refl refl
      refl 1
