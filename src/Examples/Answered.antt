-- ===== src/Examples/Answered.antt =====
-- Client 2 serves `f32:a/b`; client 1 sends it a request and is answered.
use t2_bus.Base.{List, none, some, [], ◌∷◌, ◌++◌, lookup, put, false, ◌≡◌, refl, arith}
use t2_bus.Err.{ok}
use t2_bus.Directory
use t2_bus.Directory.{new}
use t2_bus.Protocol.{answered, ReqMsg, RspMsg, Msg, ProtocolServer}
use t2_bus.Server
use t2_bus.Server.{ack_of, Core, empty_payload, message, process_task}
use t2_bus.Client.{
  init, ClientCore, srv, req, rsp, acked, requested, responded, task, received, round, running,
  main_loop,
}
use t2_bus.System.Calling.{req_msg, rsp_msg, take_all}
use t2_bus.System.Returning.{holding, request_returns}
use t2_bus.Examples.Topics.{word}
use t2_bus.Examples.Bus.{closed_error}
use t2_bus.Examples.Clients.{start}

abbrev question : ReqMsg
question = record { topic = word; payload = empty_payload }

-- The serving client, and the server that both are connected to.
abbrev serving : ClientCore
serving = (main_loop (task (srv word 10 11) ∷ []) start).1

abbrev server : Core
server = record Server.init {
  senders = put 1 (holding []) (put 2 (holding []) []);
  directory = (Directory.claim 2 word new).1;
}

abbrev reply : RspMsg
reply = record { req_id = 0; status = answered; payload = empty_payload }

request_returns_example :
    let (r₁, s₁) = process_task closed_error (message 1 (req_msg start question)) server in
    let (r₂, s₂) = process_task closed_error (message 2 (rsp_msg serving reply)) s₁ in
    ((round (task (req question 20 21)) start).1.sent ≡ start.sent ++ req_msg start question ∷ [])
    × (r₁ ≡ ok false)
    × ((m : Msg ProtocolServer) × (lookup 2 s₁.senders ≡ some (holding (m ∷ [])))
        × (let (st, b') = main_loop (received m ∷ task (rsp reply 12) ∷ []) serving in
            (st ≡ running)
            × (b'.events ≡ serving.events ++ requested 11 0 question ∷ [])
            × (b'.sent ≡ serving.sent ++ rsp_msg serving reply ∷ [])))
    × (r₂ ≡ ok false)
    × ((ms : List (Msg ProtocolServer)) × (lookup 1 s₂.senders ≡ some (holding ms))
        × (let (st, a') = main_loop (task (req question 20 21) ∷ take_all ms) start in
            (st ≡ running)
            × (a'.events
                ≡ (start.events ++ acked 20 (ack_of 1 (ok none)) ∷ [])
                  ++ responded 21 (record reply { req_id = 1 }) ∷ [])))
unfolding Server.init init main_loop put lookup Directory.claim new Directory.get_owner
request_returns_example =
    request_returns closed_error 1 2 1 start serving server question 20 21 11 12 answered
      empty_payload (λ e. omega (arith, e)) refl refl refl refl refl refl refl refl refl refl
