-- ===== src/Server.antt =====
-- src/server/core.rs and src/server/mod.rs: the state of the bus server and its handlers.
pub mod Invariant
pub mod Handlers
pub mod Tasks
pub mod Delivery
pub mod Requests
pub mod Publishing
pub mod Interruption
pub mod Departure
pub mod Stub
pub mod Forwarding
pub mod Listen
pub mod Builder
pub mod Asking
pub mod Building
pub mod Stopping
use Prim.Native.Nat.{◌^◌}
use t2_bus.Base.{
  ℕ, ◌+◌, ◌%◌, ◌==◌, if◌then◌else◌, Bool, true, false, not, ◌&&◌, ◌||◌, List, [], ◌∷◌, ◌++◌, length,
  Option, none, some, Map, lookup, put, delete, retain, codes,
}
use t2_bus.Text.{Text}
use t2_bus.Topic.{Topic}
use t2_bus.Directory
use t2_bus.Directory.{Directory, Outcome}
use t2_bus.Err.{
  BusError, Result, ok, err, panic, invalid_request_id, service_not_found, delivery_failed,
  unknown_client,
}
use t2_bus.Protocol.{
  Payload, RspMsgStatus, timeout, PubMsg, ReqMsg, RspMsg, AckMsg, ProtocolClient, ProtocolServer,
  Msg,
}
use t2_bus.Exec.{Exec, pure, raise, crash, modify, gets, continue, ◌>>=◌, ◌>>◌}

-- The modulus of the `u32` counters, which wrap around in a release build.
abbrev pub u32_mod : ℕ
u32_mod = 2 ^ 32

pub record PendingResponse : Type 0 where
  pub request_id : ℕ
  pub responder_id : ℕ
  pub requester_id : ℕ

-- One end of an unbounded channel: what it holds, and whether the receiver is still there.
pub record Channel : Type 0 where
  pub is_open : Bool
  pub queue : List (Msg ProtocolServer)

-- `timers` holds the requests for which a sleeping task will send a `RequestTimeout`.
pub record Core : Type 0 where
  pub senders : Map Channel
  pub directory : Directory
  pub next_client_id : ℕ
  pub next_msg_id : ℕ
  pub pending_responses : Map PendingResponse
  pub timers : List ℕ

-- A transport is handed to the client's stub, which is another task: the server keeps its channel.
pub data Task : Type 0 where
  register : Task
  deregister : ℕ → Task
  message : ℕ → Msg ProtocolClient → Task
  request_timeout : ℕ → Task

abbrev pub kill_topic : Topic
kill_topic = record { protocol = codes "bus"; path = record { text = codes "kill" } }

abbrev pub empty_payload : Payload
empty_payload = record { bytes = []; is_compressed = false }

-- `Core::new`
unfoldable pub init : Core
unfolding Directory.subscribe Directory.new
init = record {
  senders = [];
  directory = (Directory.subscribe 0 kill_topic Directory.new).1;
  next_client_id = 1;
  next_msg_id = 0;
  pending_responses = [];
  timers = [];
}

-- An operation of the directory, inside the core.
abbrev pub in_directory : (Directory → Outcome) → Exec Core (Unit {0})
in_directory f s = let (r, d) = f s.directory in (r, record s { directory = d })

unfoldable pub register_client : Exec Core (Unit {0})
unfolding put
register_client s = (
  ok tt,
  record s {
    senders = put s.next_client_id (record { is_open = true; queue = [] }) s.senders;
    next_client_id = (s.next_client_id + 1) % u32_mod;
  },
)

-- The responses that do not involve the client.
unfoldable pub spares : ℕ → PendingResponse → Bool
spares id p = not (p.requester_id == id) && not (p.responder_id == id)

unfoldable pub deregister_client : ℕ → Exec Core (Unit {0})
unfolding delete retain spares Directory.drop_client
deregister_client id s = (
  ok tt,
  record s {
    senders = delete id s.senders;
    directory = (Directory.drop_client id s.directory).0;
    pending_responses = retain (spares id) s.pending_responses;
  },
)

unfoldable pub new_msg : ProtocolServer → Exec Core (Msg ProtocolServer)
new_msg content s = (
  ok (record { id = s.next_msg_id; content = content }),
  record s { next_msg_id = (s.next_msg_id + 1) % u32_mod },
)

abbrev pub enqueue : Channel → Msg ProtocolServer → Channel
enqueue c m = record c { queue = c.queue ++ m ∷ [] }

-- The acknowledgement of a handled message.
abbrev pub ack_of : ℕ → Result (Option ℕ) → AckMsg
ack_of id (ok n) = record { msg_id = id; error = none; num_recipients = n }
ack_of id (err e) = record { msg_id = id; error = some e; num_recipients = none }
ack_of id panic = record { msg_id = id; error = none; num_recipients = none }

-- A failure to deliver the acknowledgement is ignored.
abbrev pub ignore_error : {A : Type 0} → Result A × Core → Result (Unit {0}) × Core
ignore_error (ok a, s) = (ok tt, s)
ignore_error (err e, s) = (ok tt, s)
ignore_error (panic, s) = (panic, s)

abbrev pub is_stop : ProtocolClient → Bool
is_stop ProtocolClient.stop = true
is_stop _ = false

-- How the loop of `run` stands: waiting for a task, or ended with a result.
pub data Status : Type 0 where
  running : Status
  ended : Result (Unit {0}) → Status

abbrev pub status_of : Result Bool → Status
status_of (ok false) = running
status_of (ok true) = ended (ok tt)
status_of (err e) = ended (err e)
status_of panic = ended panic

-- `send_error` is the channel library's text for a failed send.
module _ (send_error : Text) where
  unfoldable pub send_to : ℕ → Msg ProtocolServer → Option Channel → Exec Core ℕ
  unfolding put deregister_client ◌>>=◌
  send_to client_id m none = raise (unknown_client client_id)
  send_to client_id m (some c) =
      if c.is_open
      then modify (λ s. record s { senders = put client_id (enqueue c m) s.senders }) >> pure m.id
      else (do deregister_client client_id; raise (delivery_failed client_id send_error))

  unfoldable pub deliver : ℕ → ProtocolServer → Exec Core ℕ
  unfolding new_msg send_to lookup ◌>>=◌
  deliver client_id payload = do
    m ← new_msg payload
    client_opt ← gets (λ s. lookup client_id s.senders)
    send_to client_id m client_opt

  unfoldable pub send_request : ℕ → ℕ → ReqMsg → Option ℕ → Exec Core (Unit {0})
  unfolding deliver put ◌>>=◌
  send_request client_id req_id params none = raise (service_not_found params.topic)
  send_request client_id req_id params (some server_id) = do
    msg_id ← deliver server_id (ProtocolServer.req params)
    let pending : PendingResponse = record {
      request_id = req_id;
      requester_id = client_id;
      responder_id = server_id;
    }
    modify λ s. record s {
      pending_responses = put msg_id pending s.pending_responses;
      timers = msg_id ∷ s.timers;
    }

  unfoldable pub request : ℕ → ℕ → ReqMsg → Exec Core (Unit {0})
  unfolding send_request Directory.get_owner ◌>>=◌
  request client_id req_id params = do
    server_id_opt ← gets (λ s. Directory.get_owner params.topic s.directory)
    send_request client_id req_id params server_id_opt

  unfoldable pub send_response : ℕ → RspMsg → Option PendingResponse → Exec Core (Unit {0})
  unfolding deliver delete ◌>>=◌
  send_response client_id params none = raise invalid_request_id
  send_response client_id params (some p) =
      if not (client_id == 0) && not (p.responder_id == client_id)
      then raise invalid_request_id
      else (do
        modify (λ s. record s { pending_responses = delete params.req_id s.pending_responses })
        deliver p.requester_id (ProtocolServer.rsp (record params { req_id = p.request_id }))
        pure tt)

  unfoldable pub respond : ℕ → RspMsg → Exec Core (Unit {0})
  unfolding send_response lookup ◌>>=◌
  respond client_id params = do
    pending ← gets (λ s. lookup params.req_id s.pending_responses)
    send_response client_id params pending

  -- The loop of `publish`. Client 0 stands for the kill topic.
  unfoldable pub deliver_all : PubMsg → List ℕ → Exec Core (Unit {0})
  unfolding deliver ◌>>=◌
  deliver_all params [] = pure tt
  deliver_all params (client_id ∷ rest) =
      let others = deliver_all params rest in
      if client_id == 0
      then crash
      else (do deliver client_id (ProtocolServer.publish params); others)

  unfoldable pub publish : PubMsg → Exec Core ℕ
  unfolding deliver_all Directory.get_subscribers ◌>>=◌
  publish params = do
    subscriber_ids ← gets (λ s. Directory.get_subscribers params.topic s.directory)
    deliver_all params subscriber_ids
    pure (length subscriber_ids)

  -- The handlers, with the number of recipients of a publication.
  unfoldable pub handle : ℕ → ℕ → ProtocolClient → Exec Core (Option ℕ)
  unfolding publish request respond ◌>>=◌ Directory.subscribe Directory.unsubscribe Directory.claim
      Directory.unclaim
  handle client_id id (ProtocolClient.publish params) = do n ← publish params; pure (some n)
  handle client_id id (ProtocolClient.sub t) = do
    in_directory (Directory.subscribe client_id t)
    pure none
  handle client_id id (ProtocolClient.unsub t) = do
    in_directory (Directory.unsubscribe client_id t)
    pure none
  handle client_id id (ProtocolClient.srv t) = do
    in_directory (Directory.claim client_id t)
    pure none
  handle client_id id (ProtocolClient.unsrv t) = do
    in_directory (Directory.unclaim client_id t)
    pure none
  handle client_id id (ProtocolClient.req params) = do request client_id id params; pure none
  handle client_id id (ProtocolClient.rsp params) = do respond client_id params; pure none
  handle client_id id ProtocolClient.stop = pure none
  handle client_id id ProtocolClient.keep_alive = pure none

  abbrev pub acknowledge : ℕ → ℕ → Result (Option ℕ) × Core → Result (Unit {0}) × Core
  acknowledge client_id id (panic, s) = (panic, s)
  acknowledge client_id id (r, s) =
      ignore_error (deliver client_id (ProtocolServer.ack (ack_of id r)) s)

  -- Whether the server is to stop.
  unfoldable pub process_msg : ℕ → Msg ProtocolClient → Exec Core Bool
  unfolding handle deliver ◌>>=◌
  process_msg client_id m = do
    (λ s. acknowledge client_id m.id (handle client_id m.id m.content s))
    pure (is_stop m.content)

  unfoldable pub process_task : Task → Exec Core Bool
  unfolding register_client deregister_client process_msg respond ◌>>=◌
  process_task register = do register_client; pure false
  process_task (deregister id) = do deregister_client id; pure false
  process_task (message client_id m) = process_msg client_id m
  process_task (request_timeout id) = do
    respond 0 (record { req_id = id; status = timeout; payload = empty_payload })
    pure false

  -- `run` on the tasks that arrive, each taken while the loop is running.
  unfoldable pub run : List Task → Core → Status × Core
  unfolding process_task
  run [] s = (running, s)
  run (t ∷ tasks) s =
      let (r, s') = process_task t s in
      let rest = run tasks s' in elim (status_of r) [ running ↦ rest | ended e ↦ (ended e, s') ]
