-- ===== src/Client/Api.antt =====
-- src/client/mod.rs: what a program calls: publications, requests and responses, up to the task that
-- they hand to the client's main loop and what they make of its answers.
use t2_bus.Base.{ℕ, if◌then◌else◌, Bool, List, [], ◌∷◌, ◌++◌, Option, none, some}
use t2_bus.Text.{Text}
use t2_bus.Topic.{Topic, TopicPath}
use t2_bus.Err.{
  BusError, Result, ok, err, panic, channel_closed, request_failed, request_failed_timeout,
  request_failed_channel_closed, internal_error,
}
use t2_bus.Exec.{Exec, pure, raise, ◌>>=◌, ◌>>◌}
use t2_bus.Protocol.{
  Bytes, Gzip, to_payload, from_payload, RspMsgStatus, answered, timeout, RspMsg, AckMsg,
}
use t2_bus.Codec.{Cbor}
use t2_bus.Topic.Parse.{Patterns, new_topic}
use t2_bus.Client.{Task, publish, sub, unsub, req, rsp, Callback}

-- `is_running` tells whether the main loop still takes tasks, and `tasks` is what it was given.
pub record Client : Type 0 where
  pub is_running : Bool
  pub tasks : List Task

-- What comes of waiting for an acknowledgement.
pub data AckOutcome : Type 0 where
  arrived : AckMsg → AckOutcome
  channel_gone : AckOutcome
  timed_out : AckOutcome

unfoldable pub send_task : Task → Exec Client (Unit {0})
send_task t s =
    if s.is_running
    then (ok tt, record s { tasks = s.tasks ++ t ∷ [] })
    else (err channel_closed, s)

abbrev pub lift : {A : Type 0} → Result A → Exec Client A
lift r s = (r, s)

-- `describe` is the text of an error, and `recv_error` that of a closed oneshot channel.
module _ (describe : BusError → Text) (recv_error : Text) (gzip : Gzip) (patterns : Patterns) where
  abbrev accepted : AckMsg → Option BusError → Result (Option ℕ)
  accepted ack none = ok ack.num_recipients
  accepted ack (some e) = err (request_failed (describe e))

  unfoldable pub expect_ack : AckOutcome → Result (Option ℕ)
  expect_ack (arrived ack) = accepted ack ack.error
  expect_ack channel_gone = err request_failed_channel_closed
  expect_ack timed_out = err request_failed_timeout

  abbrev recipients : Option ℕ → Result ℕ
  recipients none = panic
  recipients (some n) = ok n

  unfoldable pub publish_bytes : Topic → Bytes → Callback → AckOutcome → Exec Client ℕ
  unfolding send_task expect_ack to_payload ◌>>=◌
  publish_bytes topic payload callback_ack outcome = do
    send_task (publish (record { topic = topic; payload = to_payload gzip payload }) callback_ack)
    num_recipients ← lift (expect_ack outcome)
    lift (recipients num_recipients)

  unfoldable pub stop_bus : Callback → AckOutcome → Exec Client (Unit {0})
  unfolding send_task expect_ack ◌>>=◌
  stop_bus callback_ack outcome = do
    send_task (Task.stop_bus callback_ack)
    lift (expect_ack outcome)
    pure tt

  -- What is returned stands for the `SubscriptionInto`, which holds the topic.
  unfoldable pub subscribe_bytes_into : Topic → Callback → Callback → AckOutcome → Exec Client Topic
  unfolding send_task expect_ack ◌>>=◌
  subscribe_bytes_into topic callback_ack sender outcome = do
    send_task (sub topic callback_ack sender)
    lift (expect_ack outcome)
    pure topic

  -- `SubscriptionInto::drop`, which ignores an error.
  unfoldable pub drop_subscription : Topic → Client → Client
  unfolding send_task
  drop_subscription topic s = (send_task (unsub topic) s).1

  -- The response, or none if its channel has closed.
  abbrev response : Option RspMsg → Result RspMsg
  response none = err (internal_error recv_error)
  response (some r) = ok r

  -- A request up to the response.
  unfoldable pub send_request :
      Topic → Bytes → Callback → Callback → AckOutcome → Option RspMsg → Exec Client RspMsg
  unfolding send_task expect_ack to_payload ◌>>=◌
  send_request topic payload callback_ack callback_rsp outcome received = do
    send_task (
        req (record { topic = topic; payload = to_payload gzip payload }) callback_ack callback_rsp)
    lift (expect_ack outcome)
    lift (response received)

  unfoldable pub request_bytes :
      Topic → Bytes → Callback → Callback → AckOutcome → Option RspMsg → Exec Client Bytes
  unfolding send_request from_payload ◌>>=◌
  request_bytes topic payload callback_ack callback_rsp outcome received = do
    answer ← send_request topic payload callback_ack callback_rsp outcome received
    lift (from_payload gzip answer.payload)

  module _ {Q A : Type 0} (question : Cbor Q) (answer : Cbor A) (prefix : Text) where
    unfoldable pub read_answer : RspMsg → RspMsgStatus → Exec Client A
    unfolding from_payload ◌>>=◌
    read_answer r answered = do
      bytes ← lift (from_payload gzip r.payload)
      lift (answer.deser bytes)
    read_answer r timeout = raise request_failed_timeout

    unfoldable pub request :
        TopicPath → Q → Callback → Callback → AckOutcome → Option RspMsg → Exec Client A
    unfolding send_request read_answer new_topic ◌>>=◌
    request path q callback_ack callback_rsp outcome received = do
      topic ← lift (new_topic patterns prefix path)
      payload ← lift (question.ser q)
      r ← send_request topic payload callback_ack callback_rsp outcome received
      read_answer r r.status

    unfoldable pub respond : ℕ → A → Callback → AckOutcome → Exec Client (Unit {0})
    unfolding send_task expect_ack to_payload ◌>>=◌
    respond request_id a callback_ack outcome = do
      payload ← lift (answer.ser a)
      send_task (
          rsp (record { req_id = request_id; status = answered; payload = to_payload gzip payload })
            callback_ack)
      lift (expect_ack outcome)
      pure tt
