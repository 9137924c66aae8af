-- ===== src/System/Returning.antt =====
-- A request comes back: the caller, the server and the client that serves, one after the other
-- (src/client/core.rs, src/server/core.rs).
use t2_bus.Base.{
  ℕ, ◌+◌, ◌%◌, ==_iff, true, false, List, [], ◌∷◌, ◌++◌, none, some, Map, lookup, put, lookup-put,
  ◌≡◌, ◌≢◌, refl, arith,
}
use t2_bus.Text.{Text}
use t2_bus.Err.{ok}
use t2_bus.Directory.{get_owner}
use t2_bus.Protocol.{ReqMsg, RspMsg, RspMsgStatus, Payload, ProtocolClient, ProtocolServer, Msg}
use t2_bus.Server.{Core, Channel, message, ack_of, process_task, u32_mod}
use t2_bus.Server.Requests
use t2_bus.Client.{
  ClientCore, Callback, acked, requested, responded, req, rsp, task, received, Signal, running,
  round, main_loop,
}
use t2_bus.Client.Serving.{next_id}
use t2_bus.System.Calling.{
  req_msg, rsp_msg, take_all, acknowledged, pending, process_task-req, process_task-rsp, handed_ack,
  handed_rsp, handed_req, replied, called, round-req, round-rsp, received_ack, received_rsp,
  received_req,
}

-- A channel with what waits in it.
abbrev pub holding : List (Msg ProtocolServer) → Channel
holding ms = record { is_open = true; queue = ms }

abbrev pub ack_msg : ℕ → ℕ → Msg ProtocolServer
ack_msg n x = record { id = n; content = ProtocolServer.ack (ack_of x (ok none)) }

-- A round after which the loop goes on.
main_loop-round :
    (x : Signal) (signals : List Signal) (s s' : ClientCore)
    → round x s ≡ (ok false, s')
    → main_loop (x ∷ signals) s ≡ main_loop signals s'
unfolding main_loop
main_loop-round x signals s s' e = ground (arith, e)

module _ (c : ClientCore) (q : ReqMsg) where
  main_loop-serves :
      (n k : ℕ) (r : RspMsg) (handler ack : Callback)
      → c.broken ≡ none
      → get_owner q.topic c.subscriptions ≡ some k
      → lookup k c.callbacks_req ≡ some handler
      → c.is_held handler ≡ true
      → main_loop
          (received (record { id = n; content = ProtocolServer.req q }) ∷ task (rsp r ack) ∷ [])
          c
        ≡ (running, replied (handed_req c handler n q) ack r)
  main_loop-serves n k r handler ack b own e held =
      rw (main_loop-round _ _ c _ (received_req c n k q handler own e held)) (
        rw (main_loop-round _ [] _ _ (round-rsp (handed_req c handler n q) r ack b))
          (unfold main_loop in refl))

  abbrev answered : RspMsg → RspMsg
  answered r = record r { req_id = next_id c }

  main_loop-calls :
      (n m : ℕ) (r : RspMsg) (ack callback : Callback)
      → c.broken ≡ none
      → c.is_held ack ≡ true
      → c.is_held callback ≡ true
      → main_loop
          (task (req q ack callback)
            ∷ received (ack_msg n (next_id c))
            ∷ received (record { id = m; content = ProtocolServer.rsp (answered r) })
            ∷ [])
          c
        ≡ (
          running,
          handed_rsp
              (handed_ack (called c ack callback q) ack (ack_of (next_id c) (ok none)))
              callback
              (answered r),
        )
  main_loop-calls n m r ack callback b h h' =
      let found : lookup (next_id c) (called c ack callback q).callbacks_ack ≡ some ack = ground (
        arith,
        lookup-put (next_id c) (next_id c) ack c.callbacks_ack,
        ==_iff (next_id c) (next_id c),
      ) in
      let waits : lookup (next_id c) (called c ack callback q).callbacks_rsp ≡ some callback =
        ground (
          arith,
          lookup-put (next_id c) (next_id c) callback c.callbacks_rsp,
          ==_iff (next_id c) (next_id c),
        ) in
      let acknowledgement =
        received_ack (called c ack callback q) n (ack_of (next_id c) (ok none)) ack found h in
      let answer =
        received_rsp (handed_ack (called c ack callback q) ack (ack_of (next_id c) (ok none))) m
          (answered r) callback waits h' in
      rw (main_loop-round _ _ c _ (round-req c q ack callback b)) (
        rw (main_loop-round _ _ _ _ acknowledgement)
          (rw (main_loop-round _ [] _ _ answer) (unfold main_loop in refl)))

-- Of two channels that are put, the one put last is at `j`.
lookup-put_other :
    (i j : ℕ) (c d : Channel) (m : Map Channel) → i ≢ j → lookup i (put j d (put i c m)) ≡ some c
lookup-put_other i j c d m ne =
    ground (arith, ne, ==_iff j i, ==_iff i i, lookup-put j i d (put i c m), lookup-put i i c m)

module _ (send_error : Text) (i j x y : ℕ) (q : ReqMsg) (s : Core) where
  -- What the serving client is sent, and the server after the request.
  abbrev forwarded : Msg ProtocolServer
  forwarded = record { id = s.next_msg_id; content = ProtocolServer.req q }

  abbrev asked : Core
  asked = acknowledged i x (holding []) (Requests.requested send_error i x j (holding []) q s)

  abbrev ack_id : ℕ
  ack_id = (s.next_msg_id + 1) % u32_mod

  asked-senders :
      i ≢ j
      → (lookup j asked.senders ≡ some (holding (forwarded ∷ [])))
        × (lookup i asked.senders ≡ some (holding (ack_msg ack_id x ∷ [])))
  asked-senders ne = (
    lookup-put_other j i (holding (forwarded ∷ [])) (holding (ack_msg ack_id x ∷ [])) s.senders
        (λ e. ne (omega (arith, e))),
    ground (
      arith,
      ==_iff i i,
      lookup-put i i (holding (ack_msg ack_id x ∷ []))
          (Requests.requested send_error i x j (holding []) q s).senders,
    ),
  )

  module _ (r : RspMsg) where
    abbrev replied_to : Core
    replied_to =
        acknowledged j y (holding (forwarded ∷ []))
          (Requests.responded send_error (pending i j x) (holding (ack_msg ack_id x ∷ [])) r asked)

    abbrev answer_msg : Msg ProtocolServer
    answer_msg = record {
      id = asked.next_msg_id;
      content = ProtocolServer.rsp (record r { req_id = x });
    }

    replied_to-senders :
        i ≢ j → lookup i replied_to.senders ≡ some (holding (ack_msg ack_id x ∷ answer_msg ∷ []))
    replied_to-senders ne = lookup-put_other i j _ _ asked.senders ne

    process_task-replied :
        i ≢ j
        → r.req_id ≡ s.next_msg_id
        → process_task send_error
            (message j (record { id = y; content = ProtocolClient.rsp r }))
            asked
          ≡ (ok false, replied_to)
    process_task-replied ne e =
        let (f, g) = asked-senders ne in
        let waits : lookup r.req_id asked.pending_responses ≡ some (pending i j x) = ground (
          arith,
          e,
          ==_iff s.next_msg_id r.req_id,
          lookup-put s.next_msg_id r.req_id (pending i j x) s.pending_responses,
        ) in
        process_task-rsp send_error i j y (holding (ack_msg ack_id x ∷ []))
          (holding (forwarded ∷ [])) asked x r ne waits g refl f refl

-- The caller and the client that serves are different clients, with nothing waiting in their open
-- channels, and their transports work. The server knows who serves the topic of the request, the
-- serving client has the callback of the service, and the receivers of that callback and of both of
-- the caller's are there. The caller's task sends one message, which the server handles and goes on;
-- the serving client then has one message in its channel, at which its callback is handed the request
-- under an id. It answers under that id with any status and payload, which sends one message, and the
-- server handles that and goes on too. Then the caller, which takes all that is in its channel, has
-- handed the acknowledgement and after it the answer to its callbacks, under the id of its own
-- message, and both main loops go on.
pub request_returns :
    (send_error : Text) (i j k : ℕ) (a b : ClientCore) (s : Core) (q : ReqMsg)
    (ack callback handler reply_ack : Callback) (status : RspMsgStatus) (payload : Payload)
    → i ≢ j
    → a.broken ≡ none
    → a.is_held ack ≡ true
    → a.is_held callback ≡ true
    → b.broken ≡ none
    → get_owner q.topic b.subscriptions ≡ some k
    → lookup k b.callbacks_req ≡ some handler
    → b.is_held handler ≡ true
    → get_owner q.topic s.directory ≡ some j
    → lookup i s.senders ≡ some (holding [])
    → lookup j s.senders ≡ some (holding [])
    → let id = s.next_msg_id in
      let r : RspMsg = record { req_id = id; status = status; payload = payload } in
      let (r₁, s₁) = process_task send_error (message i (req_msg a q)) s in
      let (r₂, s₂) = process_task send_error (message j (rsp_msg b r)) s₁ in
      ((round (task (req q ack callback)) a).1.sent ≡ a.sent ++ req_msg a q ∷ [])
      × (r₁ ≡ ok false)
      × ((m : Msg ProtocolServer) × (lookup j s₁.senders ≡ some (holding (m ∷ [])))
          × (let (st, b') = main_loop (received m ∷ task (rsp r reply_ack) ∷ []) b in
              (st ≡ running)
              × (b'.events ≡ b.events ++ requested handler id q ∷ [])
              × (b'.sent ≡ b.sent ++ rsp_msg b r ∷ [])))
      × (r₂ ≡ ok false)
      × ((ms : List (Msg ProtocolServer)) × (lookup i s₂.senders ≡ some (holding ms))
          × (let (st, a') = main_loop (task (req q ack callback) ∷ take_all ms) a in
              (st ≡ running)
              × (a'.events
                  ≡ (a.events ++ acked ack (ack_of (next_id a) (ok none)) ∷ [])
                    ++ responded callback (record r { req_id = next_id a }) ∷ [])))
request_returns send_error i j k a b s q ack callback handler reply_ack status payload ne ba h h' bb
      own e held own' ei ej =
    let r : RspMsg = record { req_id = s.next_msg_id; status = status; payload = payload } in
    let x = next_id a in
    let y = next_id b in
    let first =
      process_task-req send_error i j x (holding []) (holding []) s q ne own' ei refl ej refl in
    let second = process_task-replied send_error i j x y q s r ne refl in
    let serves = main_loop-serves b q s.next_msg_id k r handler reply_ack bb own e held in
    let calls =
      main_loop-calls a q (ack_id send_error i j x y q s) (asked send_error i j x y q s).next_msg_id
        r ack callback ba h h' in
    rw (first, second, round-req a q ack callback ba)
      (
        refl,
        refl,
        (
          forwarded send_error i j x y q s,
          (asked-senders send_error i j x y q s ne).0,
          rw serves (refl, refl, refl),
        ),
        refl,
        (_, replied_to-senders send_error i j x y q s r ne, rw calls (refl, refl)),
      )
