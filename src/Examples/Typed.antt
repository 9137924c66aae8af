-- ===== src/Examples/Typed.antt =====
-- Typed publications and services on `f32:a/*`, with bytes for the values.
use t2_bus.Base.{ℕ, true, false, codes, [], ◌∷◌, ◌++◌, lookup, ◌≡◌, ◌≢◌, refl, arith}
use t2_bus.Text.{text_discrete}
use t2_bus.Topic.{TopicPath}
use t2_bus.Err.{Result, ok, err, channel_closed, io_error}
use t2_bus.Protocol.{Bytes, PubMsg, ReqMsg, ProtocolServer}
use t2_bus.Codec.{Cbor}
use t2_bus.Topic.Parse.{new_topic}
use t2_bus.Client.{ClientCore, srv, unsrv, task, received, ended, init, main_loop}
use t2_bus.Client.Api.{timed_out}
use t2_bus.Client.Typed.{arrives, Receiver, panicked, forward, read_pub, read_req, publish}
use t2_bus.Client.Forwarding.{with_value, publish-forwarded, malformed_request_ends}
use t2_bus.Examples.Topics.{star, word}
use t2_bus.Examples.Parsing.{plain_patterns}
use t2_bus.Examples.Frames.{plain_gzip, plain_cbor}
use t2_bus.Examples.Calls.{describe, recv_error, caller}

abbrev receiver : Receiver (TopicPath × Bytes)
receiver = record { is_held = true; handed = [] }

publish-forwarded_example :
    (m : PubMsg) × ((publish describe recv_error plain_gzip plain_patterns plain_cbor
        (codes "f32")
        star.path
        (7 ∷ [])
        10
        timed_out
        caller).1.tasks
      ≡ caller.tasks ++ t2_bus.Client.publish m 10 ∷ [])
    × (forward
          (read_pub describe recv_error plain_gzip plain_patterns plain_cbor (codes "f32"))
          (arrives m ∷ [])
          receiver
        ≡ forward
            (read_pub describe recv_error plain_gzip plain_patterns plain_cbor (codes "f32"))
            []
            (with_value (star.path, 7 ∷ []) receiver))
unfolding new_topic
publish-forwarded_example =
    publish-forwarded describe recv_error plain_gzip plain_patterns plain_cbor (codes "f32")
      star.path star (7 ∷ []) (7 ∷ []) 10 timed_out caller [] receiver refl refl refl refl

-- A value is one byte.
abbrev read_byte : Bytes → Result ℕ
read_byte [] = err (io_error (codes "CBOR"))
read_byte (x ∷ xs) = ok x

read_byte-cons :
    (n : ℕ) (b : Bytes) → ◌≡◌ {A = Result Bytes} (ok (n ∷ [])) (ok b) → read_byte b ≡ ok n
read_byte-cons n b e = ground (arith, e)

abbrev byte_cbor : Cbor ℕ
byte_cbor = record { ser = λ n. ok (n ∷ []); deser = read_byte; deser-ser = read_byte-cons }

abbrev empty_question : ReqMsg
empty_question = record { topic = word; payload = record { bytes = []; is_compressed = false } }

-- The client serves a topic, and callback 11 has gone.
abbrev server : ClientCore
server = (main_loop (task (srv word 10 11) ∷ []) (init (λ c. false))).1

abbrev service : Receiver (TopicPath × ℕ × ℕ)
service = record { is_held = true; handed = [] }

does_not_decode :
    (v : TopicPath × ℕ × ℕ)
    → read_req describe recv_error plain_gzip plain_patterns byte_cbor
        (codes "f32")
        (5, empty_question)
      ≢ ok v
unfolding read_req
does_not_decode v e = ground (arith, e)

malformed_request_ends_example :
    (forward
        (read_req describe recv_error plain_gzip plain_patterns byte_cbor (codes "f32"))
        (arrives (5, empty_question) ∷ [])
        service
      ≡ (panicked, service))
    × (main_loop
          (received (record { id = 6; content = ProtocolServer.req empty_question }) ∷ [])
          server
        ≡ (ended (err channel_closed), server))
unfolding main_loop init lookup forward read_req text_discrete
malformed_request_ends_example =
    malformed_request_ends describe recv_error plain_gzip plain_patterns byte_cbor (codes "f32") 5 6
      1 empty_question empty_question [] service server 11 [] does_not_decode refl refl refl
