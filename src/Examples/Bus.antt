-- ===== src/Examples/Bus.antt =====
-- A server with two clients: client 1 is subscribed to `f32:a/*`, client 2 serves `f32:a/b`, and
-- client 1 has a request pending.
use t2_bus.Base.{
  ℕ, ◌+◌, ◌%◌, true, false, inl, [], ◌∷◌, List, length, some, lookup, contains, ◌≡◌, ◌≢◌, ◌↔◌, refl,
  codes, arith,
}
use t2_bus.Text.{Text, text_discrete}
use t2_bus.Topic.{segments}
use t2_bus.Err.{ok, err, panic, delivery_failed, invalid_request_id}
use t2_bus.Directory
use t2_bus.Directory.Overlap.{Overlap}
use t2_bus.Protocol.{ProtocolClient, ProtocolServer, PubMsg, ReqMsg, RspMsg, answered}
use t2_bus.Server.{
  Core, Channel, Task, register, message, request_timeout, init, run, ended, publish, request,
  respond, deregister_client, enqueue, kill_topic, empty_payload, u32_mod,
}
use t2_bus.Server.Invariant.{IsValid}
use t2_bus.Server.Tasks.{init-IsValid, run-IsValid}
use t2_bus.Server.Publishing
use t2_bus.Server.Interruption
use t2_bus.Server.Publishing.{Received, Served}
use t2_bus.Server.Requests
use t2_bus.Server.Departure
use t2_bus.Examples.Topics.{star, word, anything}

abbrev pub closed_error : Text
closed_error = codes "channel closed"

abbrev question : ReqMsg
question = record { topic = word; payload = empty_payload }

abbrev setup : List Task
setup =
    register
    ∷ register
    ∷ message 1 (record { id = 1; content = ProtocolClient.sub star })
    ∷ message 2 (record { id = 1; content = ProtocolClient.srv word })
    ∷ message 1 (record { id = 7; content = ProtocolClient.req question })
    ∷ []

-- The server after these tasks.
abbrev pub bus : Core
bus = (run closed_error setup init).1

run-IsValid_example : (k : ℕ) × IsValid k (run closed_error setup init).1
run-IsValid_example =
    run-IsValid closed_error setup 1 init
      (tt, (tt, (ground arith, (ground arith, (ground arith, tt))))) (ground arith) init-IsValid

bus-IsValid : (k : ℕ) × IsValid k bus
bus-IsValid =
    run-IsValid closed_error setup 1 init
      (tt, (tt, (ground arith, (ground arith, (ground arith, tt))))) (ground arith) init-IsValid

one_pending :
    lookup 2 bus.pending_responses
    ≡ some (record { request_id = 7; responder_id = 2; requester_id = 1 })
unfolding run lookup init
one_pending = refl

abbrev pub hello : PubMsg
hello = record { topic = word; payload = empty_payload }

-- The state with nothing but what the operations need, written out.
abbrev pub open_channel : Channel
open_channel = record { is_open = true; queue = [] }

abbrev closed_channel : Channel
closed_channel = record { is_open = false; queue = [] }

abbrev pub small : Core
small = record {
  senders = (1, open_channel) ∷ (2, open_channel) ∷ [];
  directory =
      (Directory.claim 2 word
        (Directory.subscribe 1 star (Directory.subscribe 0 kill_topic Directory.new).1).1).1;
  next_client_id = 3;
  next_msg_id = 4;
  pending_responses = (9, record { request_id = 5; responder_id = 2; requester_id = 1 }) ∷ [];
  timers = 9 ∷ [];
}

pub one_reached : Directory.get_subscribers word small.directory ≡ 1 ∷ []
unfolding Directory.get_subscribers Directory.subscribe Directory.claim Directory.new
one_reached = refl

owned : Directory.get_owner word small.directory ≡ some 2
unfolding Directory.get_owner Directory.subscribe Directory.claim Directory.new text_discrete
owned = refl

publish_reaches_example :
    ((publish closed_error hello small).0
      ≡ ok (length (Directory.get_subscribers word small.directory)))
    × ((publish closed_error hello small).1.directory ≡ small.directory)
    × Served hello
        (contains 1 (Directory.get_subscribers word small.directory))
        (lookup 1 small.senders)
        (lookup 1 (publish closed_error hello small).1.senders)
unfolding lookup
publish_reaches_example =
    Publishing.publish_reaches closed_error hello small 1 (rw one_reached)
      (rw one_reached ((open_channel, refl, refl), tt))

pub publish-ok :
    (publish closed_error hello small).0
    ≡ ok (length (Directory.get_subscribers word small.directory))
unfolding lookup
publish-ok =
    (Publishing.publish_reaches closed_error hello small 1 (rw one_reached)
      (rw one_reached ((open_channel, refl, refl), tt))).0

-- Client 1 has gone, and the server does not know yet.
abbrev stale : Core
stale = record small { senders = (1, closed_channel) ∷ (2, open_channel) ∷ [] }

publish_stopped_example :
    ((publish closed_error hello stale).0 ≡ err (delivery_failed 1 closed_error))
    × Served hello
        (contains 2 [])
        (lookup 2 stale.senders)
        (lookup 2 (publish closed_error hello stale).1.senders)
unfolding lookup
publish_stopped_example =
    Interruption.publish_stopped closed_error hello [] [] 1 2 closed_channel stale one_reached refl
      tt refl refl refl

abbrev reply : ℕ → RspMsg
reply id = record { req_id = id; status = answered; payload = empty_payload }

request_response_example :
    let s₁ = (request closed_error 1 7 question small).1 in
    let s₂ = (respond closed_error 2 (reply 4) s₁).1 in
    (lookup 2 s₁.senders
      ≡ some (enqueue open_channel (record { id = 4; content = ProtocolServer.req question })))
    × (lookup 1 s₂.senders
        ≡ some (
            enqueue open_channel
              (record { id = (4 + 1) % u32_mod; content = ProtocolServer.rsp (reply 7) })))
    × ((respond closed_error 2 (reply 4) s₁).0 ≡ ok tt)
    × (respond closed_error 2 (reply 4) s₂ ≡ (err invalid_request_id, s₂))
unfolding lookup
request_response_example =
    Requests.request_response closed_error 1 7 2 open_channel open_channel question (reply 4) small
      (ground arith) owned refl refl refl refl (ground arith) refl

answered_timeout_ends_server_example :
    let s' = (respond closed_error 2 (reply 9) small).1 in
    ((respond closed_error 2 (reply 9) small).0 ≡ ok tt)
    × (run closed_error (request_timeout 9 ∷ register ∷ []) s'
        ≡ (ended (err invalid_request_id), s'))
unfolding lookup
answered_timeout_ends_server_example =
    Requests.answered_timeout_ends_server closed_error 2
      (record { request_id = 5; responder_id = 2; requester_id = 1 }) open_channel (reply 9) small
      (register ∷ []) refl refl refl refl

abbrev to_all : PubMsg
to_all = record { topic = anything; payload = empty_payload }

kills : Directory.get_subscribers anything init.directory ≡ 0 ∷ []
unfolding Directory.get_subscribers Directory.subscribe Directory.new init
kills = refl

publish_panics_iff_example :
    ((publish closed_error to_all init).0 ≡ panic)
    ↔ Overlap (segments kill_topic) (segments anything)
publish_panics_iff_example =
    Interruption.publish_panics_iff closed_error to_all 1 init init-IsValid
      (rw kills (inl refl, tt))

get_subscribers-deregister_client_example :
    (contains 0 (Directory.get_subscribers word (deregister_client 1 bus).1.directory) ≡ true)
    ↔ (◌≢◌ {A = ℕ} 0 1 × (contains 0 (Directory.get_subscribers word bus.directory) ≡ true))
get_subscribers-deregister_client_example =
    Departure.get_subscribers-deregister_client 1 bus bus-IsValid.0 word 0 bus-IsValid.1
