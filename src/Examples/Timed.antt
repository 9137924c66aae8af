-- ===== src/Examples/Timed.antt =====
-- Client 1 serves `f32:a/b` and sends a request to it, which times out; its answer waits behind two
-- acknowledgements and the request itself.
use t2_bus.Base.{List, none, put, ℕ, ◌+◌, ◌≤◌, true, [], ◌∷◌, lookup, ◌≡◌, ◌≢◌, refl, arith}
use t2_bus.Err.{ok, panic}
use t2_bus.Protocol.{timeout, ReqMsg, Msg, ProtocolClient, ProtocolServer}
use t2_bus.Server
use t2_bus.Server.{ack_of, Channel, Core, empty_payload, message, process_task}
use t2_bus.Client
use t2_bus.Client.{ClientCore, Signal, srv, req, task, received, round}
use t2_bus.System.Owed.{owed}
use t2_bus.System.Asking.{sends, waiting}
use t2_bus.System.Steps.{System, Reach, act, upload, serve, take, later, here, initial}
use t2_bus.System.Safety.{answers_are_awaited, received_calm}
use t2_bus.Examples.Topics.{word}
use t2_bus.Examples.Bus.{closed_error}

abbrev question : ReqMsg
question = record { topic = word; payload = empty_payload }

abbrev srv_msg : Msg ProtocolClient
srv_msg = record { id = 1; content = ProtocolClient.srv word }

abbrev req_msg : Msg ProtocolClient
req_msg = record { id = 2; content = ProtocolClient.req question }

-- The server does a task, the client a round.
abbrev at_server : Server.Task → System → System
at_server t a = record a { server = (process_task closed_error t a.server).1 }

abbrev at_client : Signal → System → System
at_client g a = record a { client = (round g a.client).1 }

abbrev uploaded : Msg ProtocolClient → System → System
uploaded m a = record {
  server = (process_task closed_error (message 1 m) a.server).1;
  client = record a.client { sent = [] };
}

abbrev registered : System
registered = at_server Server.register (initial (λ c. true))

abbrev serving : System
serving = at_client (task (srv word 10 11)) registered

abbrev asking : System
asking = at_client (task (req question 12 13)) (uploaded srv_msg serving)

abbrev timed_out : System
timed_out = at_server (Server.request_timeout 1) (uploaded req_msg asking)

serving-Reach : Reach closed_error 1 (λ c. true) serving
unfolding round Client.init process_task Server.init
serving-Reach =
    later (later here (serve Server.register tt refl))
      (act (task (srv word 10 11)) tt (omega arith) refl)

asking-Reach : Reach closed_error 1 (λ c. true) asking
unfolding round Client.init process_task Server.init lookup
asking-Reach =
    later (later serving-Reach (upload refl refl))
      (act (task (req question 12 13)) tt (omega arith) refl)

timed_out-Reach : Reach closed_error 1 (λ c. true) timed_out
unfolding round Client.init process_task Server.init lookup
timed_out-Reach =
    later (later asking-Reach (upload refl refl)) (serve (Server.request_timeout 1) tt refl)

abbrev acknowledgement : ℕ → ℕ → Msg ProtocolServer
acknowledgement id of = record { id = id; content = ProtocolServer.ack (ack_of of (ok none)) }

abbrev delivered : Msg ProtocolServer
delivered = record { id = 1; content = ProtocolServer.req question }

abbrev answer : Msg ProtocolServer
answer = record {
  id = 3;
  content = ProtocolServer.rsp (record { req_id = 2; status = timeout; payload = empty_payload });
}

-- The client takes a message from its channel.
abbrev taken : Msg ProtocolServer → List (Msg ProtocolServer) → System → System
taken m rest a = record {
  server = record a.server {
    senders = put 1 (record { is_open = true; queue = rest }) a.server.senders;
  };
  client = (round (received m) a.client).1;
}

abbrev handed : System
handed =
    taken delivered (acknowledgement 2 2 ∷ answer ∷ [])
      (taken (acknowledgement 0 1) (delivered ∷ acknowledgement 2 2 ∷ answer ∷ []) timed_out)

abbrev answered : System
answered = taken (acknowledgement 2 2) (answer ∷ []) handed

handed-Reach : Reach closed_error 1 (λ c. true) handed
unfolding round Client.init process_task Server.init lookup put
handed-Reach =
    later (later timed_out-Reach (take refl refl refl (omega arith)))
      (take refl refl refl (omega arith))

answered-Reach : Reach closed_error 1 (λ c. true) answered
unfolding round Client.init process_task Server.init lookup put
answered-Reach = later handed-Reach (take refl refl refl (omega arith))

answers_are_awaited_example :
    owed 1 2 answered.server + sends 2 answered.client.sent
    ≤ waiting (lookup 2 answered.client.callbacks_rsp)
answers_are_awaited_example =
    answers_are_awaited closed_error 1 (λ c. true) answered 2 answered-Reach

received_calm_example : (round (received answer) answered.client).0 ≢ panic
unfolding round Client.init process_task Server.init lookup put
received_calm_example =
    received_calm closed_error 1 (λ c. true) answered
      (record { is_open = true; queue = answer ∷ [] }) answer [] answered-Reach refl refl

-- One answer can come.
one_owed : owed 1 2 answered.server ≡ 1
unfolding round Client.init process_task Server.init lookup put
one_owed = refl
