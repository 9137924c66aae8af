-- ===== src/System/Calling.antt =====
-- A request all the way: the caller's task, the server, the client that serves, and back.
use t2_bus.Base.{
  ℕ, ==_iff, true, false, List, [], ◌∷◌, ◌++◌, none, some, lookup, put, delete, lookup-put, ◌≡◌,
  ◌≢◌, refl, arith,
}
use t2_bus.Text.{Text}
use t2_bus.Err.{ok}
use t2_bus.Exec.{◌>>=◌}
use t2_bus.Directory.{get_owner}
use t2_bus.Protocol.{ReqMsg, RspMsg, AckMsg, ProtocolClient, ProtocolServer, Msg}
use t2_bus.Server.{
  Core, Channel, PendingResponse, message, enqueue, ack_of, process_task, process_msg, handle,
}
use t2_bus.Server.Delivery.{delivered, deliver_open}
use t2_bus.Server.Requests
use t2_bus.Server.Requests.{request_routed, respond_routed}
use t2_bus.Client.{
  ClientCore, Callback, acked, requested, responded, req, rsp, task, received, Signal, prepare,
  before_send, transmit, send, round, after_receive, receive_req, receive_rsp, receive_ack, hand,
}
use t2_bus.Client.Serving.{next_id}

-- What a client sends for a request, and for a response.
abbrev pub req_msg : ClientCore → ReqMsg → Msg ProtocolClient
req_msg c q = record { id = next_id c; content = ProtocolClient.req q }

abbrev pub rsp_msg : ClientCore → RspMsg → Msg ProtocolClient
rsp_msg c r = record { id = next_id c; content = ProtocolClient.rsp r }

-- The server's acknowledgement of message `x` to client `i`.
abbrev pub acknowledged : ℕ → ℕ → Channel → Core → Core
acknowledged i x c s = delivered i c (ProtocolServer.ack (ack_of x (ok none))) s

-- The entry for request `y` of client `i` to client `j`.
abbrev pub pending : ℕ → ℕ → ℕ → PendingResponse
pending i j y = record { request_id = y; requester_id = i; responder_id = j }

module _ (send_error : Text) (i j x : ℕ) (c d : Channel) (s : Core) where
  pub process_task-req :
      (q : ReqMsg)
      → i ≢ j
      → get_owner q.topic s.directory ≡ some j
      → lookup i s.senders ≡ some c
      → c.is_open ≡ true
      → lookup j s.senders ≡ some d
      → d.is_open ≡ true
      → process_task send_error (message i (record { id = x; content = ProtocolClient.req q })) s
        ≡ (ok false, acknowledged i x c (Requests.requested send_error i x j d q s))
  unfolding process_task process_msg handle ◌>>=◌
  process_task-req q ne own e o f p =
      let routed = request_routed send_error i x j d q s own f p in
      let s' = Requests.requested send_error i x j d q s in
      let there : lookup i s'.senders ≡ some c = ground (
        arith,
        e,
        ne,
        ==_iff j i,
        lookup-put j i (enqueue d (record { id = s.next_msg_id; content = ProtocolServer.req q }))
            s.senders,
      ) in
      let done = deliver_open send_error i (ProtocolServer.ack (ack_of x (ok none))) s' c there o in
      rw (routed, done) refl

  pub process_task-rsp :
      (y : ℕ) (r : RspMsg)
      → i ≢ j
      → lookup r.req_id s.pending_responses ≡ some (pending i j y)
      → lookup i s.senders ≡ some c
      → c.is_open ≡ true
      → lookup j s.senders ≡ some d
      → d.is_open ≡ true
      → process_task send_error (message j (record { id = x; content = ProtocolClient.rsp r })) s
        ≡ (ok false, acknowledged j x d (Requests.responded send_error (pending i j y) c r s))
  unfolding process_task process_msg handle ◌>>=◌
  process_task-rsp y r ne e f o g p =
      let routed = respond_routed send_error j (pending i j y) c r s e refl f o in
      let s' = Requests.responded send_error (pending i j y) c r s in
      let there : lookup j s'.senders ≡ some d = ground (
        arith,
        g,
        ne,
        ==_iff i j,
        lookup-put i j
            (enqueue c (record {
              id = s.next_msg_id;
              content = ProtocolServer.rsp (record r { req_id = y });
            }))
            s.senders,
      ) in
      let done = deliver_open send_error j (ProtocolServer.ack (ack_of x (ok none))) s' d there p in
      rw (routed, done) refl

-- The signals of a client that takes all of what it was sent.
abbrev pub take_all : List (Msg ProtocolServer) → List Signal
take_all [] = []
take_all (m ∷ ms) = received m ∷ take_all ms

module _ (c : ClientCore) where
  -- The client that has handed over an acknowledgement, an answer or a request, and that has sent an
  -- answer.
  abbrev pub handed_ack : Callback → AckMsg → ClientCore
  handed_ack ack p = record c {
    callbacks_ack = delete p.msg_id c.callbacks_ack;
    events = c.events ++ acked ack p ∷ [];
  }

  abbrev pub handed_rsp : Callback → RspMsg → ClientCore
  handed_rsp callback r = record c {
    callbacks_rsp = delete r.req_id c.callbacks_rsp;
    events = c.events ++ responded callback r ∷ [];
  }

  abbrev pub handed_req : Callback → ℕ → ReqMsg → ClientCore
  handed_req handler n q = record c { events = c.events ++ requested handler n q ∷ [] }

  abbrev pub replied : Callback → RspMsg → ClientCore
  replied ack r = record c {
    next_msg_id = next_id c;
    callbacks_ack = put (next_id c) ack c.callbacks_ack;
    sent = c.sent ++ rsp_msg c r ∷ [];
  }

  abbrev pub called : Callback → Callback → ReqMsg → ClientCore
  called ack callback q = record c {
    next_msg_id = next_id c;
    callbacks_ack = put (next_id c) ack c.callbacks_ack;
    callbacks_rsp = put (next_id c) callback c.callbacks_rsp;
    sent = c.sent ++ req_msg c q ∷ [];
  }

  pub round-req :
      (q : ReqMsg) (ack callback : Callback)
      → c.broken ≡ none
      → round (task (req q ack callback)) c ≡ (ok false, called ack callback q)
  unfolding round send before_send prepare transmit ◌>>=◌
  round-req q ack callback b = ground (arith, b)

  pub round-rsp :
      (r : RspMsg) (ack : Callback)
      → c.broken ≡ none
      → round (task (rsp r ack)) c ≡ (ok false, replied ack r)
  unfolding round send before_send prepare transmit ◌>>=◌
  round-rsp r ack b = ground (arith, b)

  pub received_ack :
      (n : ℕ) (p : AckMsg) (ack : Callback)
      → lookup p.msg_id c.callbacks_ack ≡ some ack
      → c.is_held ack ≡ true
      → round (received (record { id = n; content = ProtocolServer.ack p })) c
        ≡ (ok false, handed_ack ack p)
  unfolding round after_receive receive_ack hand ◌>>=◌
  received_ack n p ack e held = rw (e, receive_ack, held) refl

  pub received_rsp :
      (n : ℕ) (r : RspMsg) (callback : Callback)
      → lookup r.req_id c.callbacks_rsp ≡ some callback
      → c.is_held callback ≡ true
      → round (received (record { id = n; content = ProtocolServer.rsp r })) c
        ≡ (ok false, handed_rsp callback r)
  unfolding round after_receive receive_rsp hand ◌>>=◌
  received_rsp n r callback e held = rw (e, held) refl

  pub received_req :
      (n k : ℕ) (q : ReqMsg) (handler : Callback)
      → get_owner q.topic c.subscriptions ≡ some k
      → lookup k c.callbacks_req ≡ some handler
      → c.is_held handler ≡ true
      → round (received (record { id = n; content = ProtocolServer.req q })) c
        ≡ (ok false, handed_req handler n q)
  unfolding round after_receive receive_req hand ◌>>=◌
  received_req n k q handler own e held = rw (own, receive_req, e, held) refl
