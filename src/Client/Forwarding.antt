-- ===== src/Client/Forwarding.antt =====
-- What the forwarding tasks of src/client/mod.rs hand to the program.
use t2_bus.Base.{
  ℕ, if◌then◌else◌, Bool, true, false, List, [], ◌∷◌, ◌++◌, Option, none, some, Option-cases,
  lookup, inl, inr, ◌⊎◌, ◌↔◌, ◌≡◌, ◌≢◌, refl, arith,
}
use mathlib.Core.List.{append_assoc}
use t2_bus.Text.{Text}
use t2_bus.Topic.{Topic, TopicPath}
use t2_bus.Err.{BusError, Result, ok, err, panic, channel_closed}
use t2_bus.Exec.{◌>>=◌}
use t2_bus.Directory.{get_owner}
use t2_bus.Protocol.{
  Bytes, Gzip, to_payload, from_payload-to_payload, PubMsg, ReqMsg, ProtocolServer,
}
use t2_bus.Codec.{Cbor}
use t2_bus.Topic.Parse.{Patterns, new_topic, validate_protocol}
use t2_bus.Client
use t2_bus.Client.{
  ClientCore, Callback, Task, srv, unsrv, Signal, received, Status, running, ended, main_loop,
  round, after_receive, receive_req, hand,
}
use t2_bus.Client.Api.{
  Client, AckOutcome, arrived, channel_gone, timed_out, send_task, expect_ack, publish_bytes,
}
use t2_bus.Client.Typed.{
  Arrival, arrives, Receiver, Forwarder, forwards, returned, panicked, pass_on, forward, read_pub,
  read_req, publish, serve_topic, serve, drop_request_subscription,
}

-- The receiver with one more value.
abbrev pub with_value : {V : Type 0} → V → Receiver V → Receiver V
with_value v r = record r { handed = r.handed ++ v ∷ [] }

-- Whether a task still takes messages.
abbrev pub is_there : Forwarder → Bool
is_there forwards = true
is_there returned = false
is_there panicked = false

read_fails :
    {M V : Type 0} (read : M → Result V) (o : Result V) (r : Receiver V)
    → ((v : V) → o ≢ ok v)
    → pass_on read o r ≡ (panicked, r)
read_fails read (ok v) r bad = absurd (bad v refl)
read_fails read (err e) r bad = refl
read_fails read panic r bad = refl

-- Whether the bus has accepted.
abbrev pub is_accepted : AckOutcome → Bool
is_accepted (arrived ack) = elim ack.error [ none ↦ true | some e ↦ false ]
is_accepted channel_gone = false
is_accepted timed_out = false

module _ (describe : BusError → Text) (recv_error : Text) (gzip : Gzip) (patterns : Patterns) where
  new_topic-path :
      (prefix : Text) (path : TopicPath) (topic : Topic)
      → new_topic patterns prefix path ≡ ok topic
      → topic.path ≡ path
  unfolding new_topic validate_protocol
  new_topic-path prefix path topic e = ground (arith, e)

  -- What is handed in stays, whatever is answered.
  publish_bytes-tasks :
      (topic : Topic) (payload : Bytes) (callback : Callback) (outcome : AckOutcome) (s : Client)
      → s.is_running ≡ true
      → (publish_bytes describe recv_error gzip patterns topic payload callback outcome s).1.tasks
        ≡ s.tasks
          ++ Client.publish (record { topic = topic; payload = to_payload gzip payload }) callback
            ∷ []
  unfolding publish_bytes send_task ◌>>=◌
  publish_bytes-tasks topic payload callback outcome s run =
      elim (cases (expect_ack describe recv_error gzip patterns outcome)) [
        | inl (n, e) ↦ ground (arith, run, e)
        | inr (inl (n, e)) ↦ ground (arith, run, e)
        | inr (inr e) ↦ ground (arith, run, e)
      ]
    where
      cases :
          (r : Result (Option ℕ))
          → ((n : Option ℕ) × (r ≡ ok n)) ⊎ (((x : BusError) × (r ≡ err x)) ⊎ (r ≡ panic))
      cases (ok n) = inl (n, refl)
      cases (err x) = inr (inl (x, refl))
      cases panic = inr (inr refl)

  module _ {T : Type 0} (cbor : Cbor T) (prefix : Text) where
    -- A value that is published on a valid path, while the main loop runs, is handed to the main loop
    -- as one message, whatever is answered. Where that message reaches the forwarding task of a
    -- subscription whose receiver is there, the program is handed that value with its path, compressed
    -- or not, and the task goes on with what arrives next.
    pub publish-forwarded :
        (path : TopicPath) (topic : Topic) (v : T) (bytes : Bytes) (callback : Callback)
        (outcome : AckOutcome) (s : Client) (arrivals : List (Arrival PubMsg))
        (r : Receiver (TopicPath × T))
        → s.is_running ≡ true
        → new_topic patterns prefix path ≡ ok topic
        → cbor.ser v ≡ ok bytes
        → r.is_held ≡ true
        → (m : PubMsg) × ((publish describe recv_error gzip patterns cbor prefix path v callback
              outcome s).1.tasks
            ≡ s.tasks ++ Client.publish m callback ∷ [])
          × (forward
                (read_pub describe recv_error gzip patterns cbor prefix)
                (arrives m ∷ arrivals)
                r
              ≡ forward
                  (read_pub describe recv_error gzip patterns cbor prefix)
                  arrivals
                  (with_value (path, v) r))
    unfolding publish forward read_pub ◌>>=◌
    publish-forwarded path topic v bytes callback outcome s arrivals r run valid coded held = (
      record { topic = topic; payload = to_payload gzip bytes },
      ground (arith, valid, coded, publish_bytes-tasks topic bytes callback outcome s run),
      ground (
        arith,
        held,
        new_topic-path prefix path topic valid,
        from_payload-to_payload gzip bytes,
        cbor.deser-ser v bytes coded,
      ),
    )

    -- A request that does not decode makes the forwarding task of a service panic. The next request
    -- for that service then ends the main loop of the client that serves with an error.
    pub malformed_request_ends :
        (id k owner : ℕ) (m q : ReqMsg) (arrivals : List (Arrival (ℕ × ReqMsg)))
        (r : Receiver (TopicPath × ℕ × T)) (c : ClientCore) (callback : Callback)
        (signals : List Signal)
        → ((v : TopicPath × ℕ × T)
            → read_req describe recv_error gzip patterns cbor prefix (id, m) ≢ ok v)
        → get_owner q.topic c.subscriptions ≡ some owner
        → lookup owner c.callbacks_req ≡ some callback
        → c.is_held callback
          ≡ is_there
              (forward
                (read_req describe recv_error gzip patterns cbor prefix)
                (arrives (id, m) ∷ arrivals)
                r).0
        → (forward
              (read_req describe recv_error gzip patterns cbor prefix)
              (arrives (id, m) ∷ arrivals)
              r
            ≡ (panicked, r))
          × (main_loop (received (record { id = k; content = ProtocolServer.req q }) ∷ signals) c
              ≡ (ended (err channel_closed), c))
    unfolding forward main_loop round after_receive receive_req hand ◌>>=◌
    malformed_request_ends id k owner m q arrivals r c callback signals bad o e h =
        let gone =
          read_fails (read_req describe recv_error gzip patterns cbor prefix)
            (read_req describe recv_error gzip patterns cbor prefix (id, m)) r bad in
        ground (arith, gone, o, e, h)

    -- A service on a valid path, while the main loop runs, is handed to the main loop, and taken back
    -- behind that exactly if the bus does not accept it; it succeeds exactly if the bus does.
    pub serve_outcomes :
        (path : TopicPath) (topic : Topic) (ack callback : Callback) (outcome : AckOutcome)
        (s : Client)
        → s.is_running ≡ true
        → new_topic patterns prefix path ≡ ok topic
        → let (r, s') =
            serve describe recv_error gzip patterns cbor prefix path ack callback outcome s in
          ((r ≡ ok topic) ↔ (is_accepted outcome ≡ true))
          × (s'.tasks
              ≡ s.tasks
                ++ srv topic ack callback ∷ (if is_accepted outcome then [] else unsrv topic ∷ []))
    unfolding serve serve_topic send_task expect_ack drop_request_subscription ◌>>=◌
    serve_outcomes path topic ack callback channel_gone s run valid =
        let two = append_assoc s.tasks (srv topic ack callback ∷ []) (unsrv topic ∷ []) in
        ground (arith, run, valid, two)
    serve_outcomes path topic ack callback timed_out s run valid =
        let two = append_assoc s.tasks (srv topic ack callback ∷ []) (unsrv topic ∷ []) in
        ground (arith, run, valid, two)
    serve_outcomes path topic ack callback (arrived m) s run valid =
        let two = append_assoc s.tasks (srv topic ack callback ∷ []) (unsrv topic ∷ []) in
        elim (Option-cases m.error) [
          | inl e ↦ ground (arith, run, valid, e)
          | inr (x, e) ↦ ground (arith, run, valid, e, two)
        ]
