-- ===== src/Client/Typed.antt =====
-- src/client/mod.rs and src/client/subscription.rs: typed publications, subscriptions and services,
-- with the tasks that decode what arrives and pass it on.
use t2_bus.Base.{ℕ, if◌then◌else◌, Bool, false, List, [], ◌∷◌, ◌++◌}
use t2_bus.Text.{Text}
use t2_bus.Topic.{Topic, TopicPath}
use t2_bus.Err.{BusError, Result, ok, err, panic}
use t2_bus.Exec.{Exec, pure, ◌>>=◌, ◌>>◌}
use t2_bus.Protocol.{Bytes, Gzip, from_payload, PubMsg, ReqMsg}
use t2_bus.Codec.{Cbor}
use t2_bus.Topic.Parse.{Patterns, new_topic}
use t2_bus.Stopper.{Process, Wait, await}
use t2_bus.Client.{sub, srv, unsrv, stop, Callback}
use t2_bus.Client.Api.{
  Client, AckOutcome, send_task, lift, expect_ack, subscribe_bytes_into, publish_bytes,
}

-- A `Subscription`: the topic that its `SubscriptionInto` holds, and the program's channel.
pub record Subscription : Type 0 where
  pub topic : Topic
  pub receiver : Callback

-- What a forwarding task waits for: a message. The program drops its receiver in between.
pub data Arrival (M : Type 0) : Type 0 where
  arrives : M → Arrival M
  drops : Arrival M

-- The program's end: whether its receiver is there, and what it was handed.
pub record Receiver (V : Type 0) : Type 0 where
  pub is_held : Bool
  pub handed : List V

-- How the task stands.
pub data Forwarder : Type 0 where
  forwards : Forwarder
  returned : Forwarder
  panicked : Forwarder

module _ {M V : Type 0} (read : M → Result V) where
  -- One message: `unwrap` panics on a malformed one, and the task returns if there is no receiver.
  abbrev pub pass_on : Result V → Receiver V → Forwarder × Receiver V
  pass_on (ok v) r =
      if r.is_held then (forwards, record r { handed = r.handed ++ v ∷ [] }) else (returned, r)
  pass_on (err e) r = (panicked, r)
  pass_on panic r = (panicked, r)

  abbrev pub react : Arrival M → Receiver V → Forwarder × Receiver V
  react (arrives m) r = pass_on (read m) r
  react drops r = (forwards, record r { is_held = false })

  unfoldable pub forward : List (Arrival M) → Receiver V → Forwarder × Receiver V
  forward [] r = (forwards, r)
  forward (a ∷ arrivals) r =
      let (f, r') = react a r in
      let rest = forward arrivals r' in
      elim f [ forwards ↦ rest | returned ↦ (returned, r') | panicked ↦ (panicked, r') ]

abbrev decoded : {T : Type 0} → (Bytes → Result T) → Result Bytes → Result T
decoded deser (ok bytes) = deser bytes
decoded deser (err e) = err e
decoded deser panic = panic

-- The value with the path, and with the request id for a request.
abbrev with_path : {T : Type 0} → TopicPath → Result T → Result (TopicPath × T)
with_path path (ok v) = ok (path, v)
with_path path (err e) = err e
with_path path panic = panic

abbrev with_id : {T : Type 0} → TopicPath → ℕ → Result T → Result (TopicPath × ℕ × T)
with_id path id (ok v) = ok (path, id, v)
with_id path id (err e) = err e
with_id path id panic = panic

-- `RequestSubscription::drop`, which ignores an error.
unfoldable pub drop_request_subscription : Topic → Client → Client
unfolding send_task
drop_request_subscription topic s = (send_task (unsrv topic) s).1

-- The subscription that was made before is dropped where a call fails.
abbrev or_drop : {A : Type 0} → Topic → Result A × Client → Result A × Client
or_drop topic (ok a, s) = (ok a, s)
or_drop topic (err e, s) = (err e, drop_request_subscription topic s)
or_drop topic (panic, s) = (panic, drop_request_subscription topic s)

-- `Client::stop`, with what comes of the main loop.
unfoldable pub stop_client : Process → Client → Wait × Client
unfolding send_task
stop_client core s = (await core, (send_task stop s).1)

module _ (describe : BusError → Text) (recv_error : Text) (gzip : Gzip) (patterns : Patterns) where
  unfoldable pub subscribe_bytes :
      Topic → Callback → Callback → AckOutcome → Exec Client Subscription
  unfolding subscribe_bytes_into ◌>>=◌
  subscribe_bytes topic callback_ack receiver outcome = do
    held ←
        subscribe_bytes_into describe recv_error gzip patterns topic callback_ack receiver outcome
    pure (record { topic = held; receiver = receiver })

  module _ {T : Type 0} (cbor : Cbor T) (prefix : Text) where
    -- What the forwarding tasks make of a message.
    unfoldable pub read_pub : PubMsg → Result (TopicPath × T)
    unfolding from_payload
    read_pub m = with_path m.topic.path (decoded cbor.deser (from_payload gzip m.payload))

    unfoldable pub read_req : ℕ × ReqMsg → Result (TopicPath × ℕ × T)
    unfolding from_payload
    read_req (id, m) = with_id m.topic.path id (decoded cbor.deser (from_payload gzip m.payload))

    unfoldable pub publish : TopicPath → T → Callback → AckOutcome → Exec Client ℕ
    unfolding publish_bytes new_topic ◌>>=◌
    publish path msg callback_ack outcome = do
      topic ← lift (new_topic patterns prefix path)
      payload ← lift (cbor.ser msg)
      publish_bytes describe recv_error gzip patterns topic payload callback_ack outcome

    -- `callback_pub` is what the forwarding task takes from.
    unfoldable pub subscribe_into : TopicPath → Callback → Callback → AckOutcome → Exec Client Topic
    unfolding send_task expect_ack new_topic ◌>>=◌
    subscribe_into path callback_ack callback_pub outcome = do
      topic ← lift (new_topic patterns prefix path)
      send_task (sub topic callback_ack callback_pub)
      lift (expect_ack describe recv_error gzip patterns outcome)
      pure topic

    unfoldable pub subscribe :
        TopicPath → Callback → Callback → Callback → AckOutcome → Exec Client Subscription
    unfolding subscribe_into ◌>>=◌
    subscribe path callback_ack callback_pub receiver outcome = do
      topic ← subscribe_into path callback_ack callback_pub outcome
      pure (record { topic = topic; receiver = receiver })

    -- The part of `serve` in which the subscription exists already.
    unfoldable pub serve_topic : Topic → Callback → Callback → AckOutcome → Exec Client Topic
    unfolding send_task expect_ack ◌>>=◌
    serve_topic topic callback_ack callback_req outcome = do
      send_task (srv topic callback_ack callback_req)
      lift (expect_ack describe recv_error gzip patterns outcome)
      pure topic

    unfoldable pub serve : TopicPath → Callback → Callback → AckOutcome → Exec Client Topic
    unfolding serve_topic new_topic drop_request_subscription ◌>>=◌
    serve path callback_ack callback_req outcome = do
      topic ← lift (new_topic patterns prefix path)
      (λ s. or_drop topic (serve_topic topic callback_ack callback_req outcome s))
