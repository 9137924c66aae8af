-- ===== src/Client.antt =====
-- src/client/core.rs: the state of a client, what it sends and what it does with what it receives.
pub mod Invariant
pub mod Receive
pub mod Panics
pub mod Delivery
pub mod Api
pub mod Calls
pub mod Serving
pub mod Typed
pub mod Forwarding
use t2_bus.Base.{
  ℕ, ◌+◌, ◌%◌, ◌^◌, if◌then◌else◌, Bool, true, false, List, [], ◌∷◌, ◌++◌, Option, none, some, Map,
  lookup, put, delete,
}
use t2_bus.Topic.{Topic}
use t2_bus.Err.{BusError, Result, ok, err, panic, channel_closed}
use t2_bus.Directory
use t2_bus.Directory.{Directory, Outcome}
use t2_bus.Exec.{Exec, pure, raise, crash, modify, gets, continue, ◌>>=◌, ◌>>◌}
use t2_bus.Protocol.{PubMsg, ReqMsg, RspMsg, AckMsg, ProtocolClient, ProtocolServer, Msg}

-- A callback is the sending half of a channel, named by a number.
abbrev pub Callback : Type 0
Callback = ℕ

pub data Task : Type 0 where
  publish : PubMsg → Callback → Task
  sub : Topic → Callback → Callback → Task
  req : ReqMsg → Callback → Callback → Task
  rsp : RspMsg → Callback → Task
  srv : Topic → Callback → Callback → Task
  unsub : Topic → Task
  unsrv : Topic → Task
  stop : Task
  stop_bus : Callback → Task
  keep_alive : Task

-- What reaches the receiving half of a callback.
pub data Event : Type 0 where
  acked : Callback → AckMsg → Event
  responded : Callback → RspMsg → Event
  published : Callback → PubMsg → Event
  requested : Callback → ℕ → ReqMsg → Event

-- `is_held` tells whether the receiving half of a callback still exists, `events` is what the
-- callbacks have been handed, `sent` is what went to the transport, and `broken` is the error that
-- the transport answers with once it is broken.
pub record ClientCore : Type 0 where
  pub next_msg_id : ℕ
  pub callbacks_ack : Map Callback
  pub callbacks_rsp : Map Callback
  pub callbacks_pub : Map Callback
  pub callbacks_req : Map Callback
  pub subscriptions : Directory
  pub is_held : Callback → Bool
  pub events : List Event
  pub sent : List (Msg ProtocolClient)
  pub broken : Option BusError

abbrev pub u32_mod : ℕ
u32_mod = 2 ^ 32

-- `ClientCore::start`, with a working transport
unfoldable pub init : (Callback → Bool) → ClientCore
unfolding Directory.new
init is_held = record {
  next_msg_id = 0;
  callbacks_ack = [];
  callbacks_rsp = [];
  callbacks_pub = [];
  callbacks_req = [];
  subscriptions = Directory.new;
  is_held = is_held;
  events = [];
  sent = [];
  broken = none;
}

abbrev pub register_ack : ℕ → Callback → Exec ClientCore (Unit {0})
register_ack id callback =
    modify (λ s. record s { callbacks_ack = put id callback s.callbacks_ack })

abbrev pub in_subscriptions : (Directory → Outcome) → Exec ClientCore (Unit {0})
in_subscriptions f s = let (r, d) = f s.subscriptions in (r, record s { subscriptions = d })

abbrev pub unwrap : {A : Type 0} → Option A → Exec ClientCore A
unwrap none = crash
unwrap (some a) = pure a

-- What `before_send` does for each task, under the task's message id.
unfoldable pub prepare : ℕ → Task → Exec ClientCore ProtocolClient
unfolding put ◌>>=◌ Directory.subscribe Directory.get_owner Directory.unclaim Directory.claim
prepare id (publish params ack) = do register_ack id ack; pure (ProtocolClient.publish params)
prepare id (sub topic ack pub_callback) = do
  register_ack id ack
  modify (λ s. record s { callbacks_pub = put id pub_callback s.callbacks_pub })
  in_subscriptions (Directory.subscribe id topic)
  pure (ProtocolClient.sub topic)
prepare id (req params ack rsp_callback) = do
  register_ack id ack
  modify (λ s. record s { callbacks_rsp = put id rsp_callback s.callbacks_rsp })
  pure (ProtocolClient.req params)
prepare id (rsp params ack) = do register_ack id ack; pure (ProtocolClient.rsp params)
prepare id (srv topic ack req_callback) = do
  register_ack id ack
  modify (λ s. record s { callbacks_req = put id req_callback s.callbacks_req })
  in_subscriptions (Directory.claim id topic)
  pure (ProtocolClient.srv topic)
prepare id (unsub topic) = pure (ProtocolClient.unsub topic)
prepare id (unsrv topic) = do
  owner ← gets (λ s. Directory.get_owner topic s.subscriptions)
  callback_id ← unwrap owner
  in_subscriptions (Directory.unclaim callback_id topic)
  pure (ProtocolClient.unsrv topic)
prepare id stop = crash
prepare id (stop_bus ack) = do register_ack id ack; pure ProtocolClient.stop
prepare id keep_alive = pure ProtocolClient.keep_alive

unfoldable pub before_send : Task → Exec ClientCore (Msg ProtocolClient)
unfolding prepare ◌>>=◌
before_send task = do
  modify (λ s. record s { next_msg_id = (s.next_msg_id + 1) % u32_mod })
  id ← gets (λ s. s.next_msg_id)
  content ← prepare id task
  pure (record { id = id; content = content })

-- The transport's sink.
unfoldable pub transmit : Msg ProtocolClient → Exec ClientCore (Unit {0})
transmit m s = elim s.broken [
  | none ↦ (ok tt, record s { sent = s.sent ++ m ∷ [] })
  | some e ↦ (err e, s)
]

unfoldable pub send : Task → Exec ClientCore (Unit {0})
unfolding before_send transmit ◌>>=◌
send task = do m ← before_send task; transmit m

-- Hands a value to a callback, and tells whether its receiver was there.
unfoldable pub hand : Callback → Event → Exec ClientCore Bool
hand callback e s =
    if s.is_held callback
    then (ok true, record s { events = s.events ++ e ∷ [] })
    else (ok false, s)

unfoldable pub receive_ack : AckMsg → Option Callback → Exec ClientCore (Unit {0})
unfolding hand delete ◌>>=◌
receive_ack payload none = pure tt
receive_ack payload (some callback) = do
  modify (λ s. record s { callbacks_ack = delete payload.msg_id s.callbacks_ack })
  hand callback (acked callback payload)
  pure tt

unfoldable pub receive_rsp : RspMsg → Exec ClientCore (Unit {0})
unfolding hand lookup delete ◌>>=◌
receive_rsp payload = do
  found ← gets (λ s. lookup payload.req_id s.callbacks_rsp)
  callback ← unwrap found
  modify (λ s. record s { callbacks_rsp = delete payload.req_id s.callbacks_rsp })
  hand callback (responded callback payload)
  pure tt

-- Unsubscribes at the server from each of the topics.
unfoldable pub send_unsubs : List Topic → Exec ClientCore (Unit {0})
unfolding send ◌>>=◌
send_unsubs [] = pure tt
send_unsubs (t ∷ topics) = let rest = send_unsubs topics in (do send (unsub t); rest)

-- The subscriber dropped its channel.
unfoldable pub forget : ℕ → Exec ClientCore (Unit {0})
unfolding send_unsubs delete Directory.drop_client ◌>>=◌
forget callback_id = do
  modify (λ s. record s { callbacks_pub = delete callback_id s.callbacks_pub })
  topics ← (λ s.
      let (d, topics) = Directory.drop_client callback_id s.subscriptions in
      (ok topics, record s { subscriptions = d }))
  send_unsubs topics

unfoldable pub call_back : PubMsg → ℕ → Exec ClientCore (Unit {0})
unfolding hand forget lookup ◌>>=◌
call_back payload callback_id = do
  found ← gets (λ s. lookup callback_id s.callbacks_pub)
  callback ← unwrap found
  held ← hand callback (published callback payload)
  if held then pure tt else forget callback_id

unfoldable pub call_back_all : PubMsg → List ℕ → Exec ClientCore (Unit {0})
unfolding call_back ◌>>=◌
call_back_all payload [] = pure tt
call_back_all payload (id ∷ ids) =
    let rest = call_back_all payload ids in (do call_back payload id; rest)

unfoldable pub receive_pub : PubMsg → Exec ClientCore (Unit {0})
unfolding call_back_all Directory.get_subscribers ◌>>=◌
receive_pub payload = do
  callback_ids ← gets (λ s. Directory.get_subscribers payload.topic s.subscriptions)
  call_back_all payload callback_ids

unfoldable pub receive_req : ℕ → ReqMsg → Option ℕ → Exec ClientCore (Unit {0})
unfolding hand lookup ◌>>=◌
receive_req id payload none = pure tt
receive_req id payload (some callback_id) = do
  found ← gets (λ s. lookup callback_id s.callbacks_req)
  callback ← unwrap found
  held ← hand callback (requested callback id payload)
  if held then pure tt else raise channel_closed

unfoldable pub after_receive : ℕ → ProtocolServer → Exec ClientCore (Unit {0})
unfolding receive_ack receive_rsp receive_pub receive_req lookup Directory.get_owner ◌>>=◌
after_receive id (ProtocolServer.ack payload) = do
  found ← gets (λ s. lookup payload.msg_id s.callbacks_ack)
  receive_ack payload found
after_receive id (ProtocolServer.rsp payload) = receive_rsp payload
after_receive id (ProtocolServer.publish payload) = receive_pub payload
after_receive id (ProtocolServer.req payload) = do
  owner ← gets (λ s. Directory.get_owner payload.topic s.subscriptions)
  receive_req id payload owner

-- What the main loop waits for: a message or an error from the transport or its end, a task or the
-- end of the tasks, and the tick of the keep-alive timer.
pub data Signal : Type 0 where
  received : Msg ProtocolServer → Signal
  transport_error : BusError → Signal
  transport_end : Signal
  task : Task → Signal
  task_end : Signal
  tick : Signal

abbrev pub is_stop : Task → Bool
is_stop stop = true
is_stop _ = false

-- One round of the main loop, and whether the loop returns.
unfoldable pub round : Signal → Exec ClientCore Bool
unfolding after_receive send ◌>>=◌
round (received m) = do after_receive m.id m.content; pure false
round (transport_error e) = raise e
round transport_end = raise channel_closed
round (task t) = if is_stop t then pure true else (do send t; pure false)
round task_end = pure true
round tick = do send keep_alive; pure false

pub data Status : Type 0 where
  running : Status
  ended : Result (Unit {0}) → Status

abbrev pub status_of : Result Bool → Status
status_of (ok false) = running
status_of (ok true) = ended (ok tt)
status_of (err e) = ended (err e)
status_of panic = ended panic

unfoldable pub main_loop : List Signal → ClientCore → Status × ClientCore
unfolding round
main_loop [] s = (running, s)
main_loop (x ∷ signals) s =
    let (r, s') = round x s in
    let rest = main_loop signals s' in
    elim (status_of r) [ running ↦ rest | ended e ↦ (ended e, s') ]
