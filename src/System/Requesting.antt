-- ===== src/System/Requesting.antt =====
-- A service all the way: the client's task, the server, a request, and the client's callback.
use t2_bus.Base.{
  ℕ, ==_iff, true, false, List, [], ◌∷◌, ◌++◌, none, some, lookup, put, lookup-put, ◌≡◌, refl,
  arith,
}
use t2_bus.Text.{Text}
use t2_bus.Topic.{Topic, segments}
use t2_bus.Err.{ok}
use t2_bus.Exec.{◌>>=◌}
use t2_bus.Directory
use t2_bus.Directory.{Directory, get_owner}
use t2_bus.Directory.View.{has_wildcard, get_owner_segments-view}
use t2_bus.Directory.Claims.{claim_segments_verdict}
use t2_bus.Directory.Routing.{get_owner-claim}
use t2_bus.Protocol.{ReqMsg, ProtocolClient, ProtocolServer, Msg}
use t2_bus.Server
use t2_bus.Server.{
  Core, Channel, message, enqueue, ack_of, process_task, process_msg, handle, u32_mod,
}
use t2_bus.Server.Delivery.{delivered, deliver_open}
use t2_bus.Server.Requests.{request_routed}
use t2_bus.Client.{
  ClientCore, Callback, requested, srv, task, received, Signal, running, prepare, before_send,
  transmit, send, round, main_loop, after_receive, receive_req, hand,
}
use t2_bus.Client.Serving.{next_id}

-- What a client sends for a service.
abbrev pub srv_msg : ClientCore → Topic → Msg ProtocolClient
srv_msg c t = record { id = next_id c; content = ProtocolClient.srv t }

-- The client after it has sent it.
abbrev serving : ClientCore → Topic → Callback → Callback → ClientCore
serving c t ack callback = record c {
  next_msg_id = next_id c;
  callbacks_ack = put (next_id c) ack c.callbacks_ack;
  callbacks_req = put (next_id c) callback c.callbacks_req;
  subscriptions = (Directory.claim (next_id c) t c.subscriptions).1;
  sent = c.sent ++ srv_msg c t ∷ [];
}

claim-ok :
    (id : ℕ) (t : Topic) (d : Directory)
    → has_wildcard (segments t) ≡ false
    → get_owner t d ≡ none
    → (Directory.claim id t d).0 ≡ ok tt
unfolding Directory.claim get_owner
claim-ok id t d w n =
    ground (
      arith,
      w,
      n,
      claim_segments_verdict id (segments t) d,
      get_owner_segments-view (segments t) d,
    )

get_owner-claim_free :
    (id : ℕ) (t : Topic) (d : Directory)
    → has_wildcard (segments t) ≡ false
    → get_owner t d ≡ none
    → get_owner t (Directory.claim id t d).1 ≡ some id
unfolding get_owner
get_owner-claim_free id t d w n =
    ground (arith, w, n, get_owner-claim id t t d, get_owner_segments-view (segments t) d)

round-srv :
    (c : ClientCore) (t : Topic) (ack callback : Callback)
    → c.broken ≡ none
    → has_wildcard (segments t) ≡ false
    → get_owner t c.subscriptions ≡ none
    → round (task (srv t ack callback)) c ≡ (ok false, serving c t ack callback)
unfolding round send before_send prepare transmit ◌>>=◌
round-srv c t ack callback b w n = ground (arith, b, claim-ok (next_id c) t c.subscriptions w n)

-- The server after it has handled the service of a client.
abbrev served : ℕ → ClientCore → Topic → Channel → Core → Core
served i c t ch s =
    delivered i ch (ProtocolServer.ack (ack_of (next_id c) (ok none)))
      (record s { directory = (Directory.claim i t s.directory).1 })

process_task-srv :
    (send_error : Text) (i : ℕ) (c : ClientCore) (t : Topic) (ch : Channel) (s : Core)
    → lookup i s.senders ≡ some ch
    → ch.is_open ≡ true
    → has_wildcard (segments t) ≡ false
    → get_owner t s.directory ≡ none
    → process_task send_error (message i (srv_msg c t)) s ≡ (ok false, served i c t ch s)
unfolding process_task process_msg handle ◌>>=◌
process_task-srv send_error i c t ch s e o w n =
    let answers = claim-ok i t s.directory w n in
    let acknowledged =
      deliver_open send_error i (ProtocolServer.ack (ack_of (next_id c) (ok none)))
        (record s { directory = (Directory.claim i t s.directory).1 }) ch e o in
    ground (arith, answers, acknowledged)

-- The client serves, and the request arrives.
abbrev pub signals : ClientCore → Callback → Callback → ℕ → ReqMsg → List Signal
signals c ack callback k q =
    task (srv q.topic ack callback)
    ∷ received (record { id = k; content = ProtocolServer.req q })
    ∷ []

receive_req-serving :
    (c : ClientCore) (ack callback : Callback) (k : ℕ) (q : ReqMsg)
    → has_wildcard (segments q.topic) ≡ false
    → get_owner q.topic c.subscriptions ≡ none
    → c.is_held callback ≡ true
    → after_receive k (ProtocolServer.req q) (serving c q.topic ack callback) ≡ (
      ok tt,
      record (serving c q.topic ack callback) { events = c.events ++ requested callback k q ∷ [] },
    )
unfolding after_receive receive_req hand ◌>>=◌
receive_req-serving c ack callback k q w n held = ground (
  arith,
  get_owner-claim_free (next_id c) q.topic c.subscriptions w n,
  lookup-put (next_id c) (next_id c) callback c.callbacks_req,
  ==_iff (next_id c) (next_id c),
  held,
)

main_loop-signals :
    (c : ClientCore) (ack callback : Callback) (k : ℕ) (q : ReqMsg)
    → c.broken ≡ none
    → has_wildcard (segments q.topic) ≡ false
    → get_owner q.topic c.subscriptions ≡ none
    → c.is_held callback ≡ true
    → main_loop (signals c ack callback k q) c ≡ (
      running,
      record (serving c q.topic ack callback) { events = c.events ++ requested callback k q ∷ [] },
    )
unfolding main_loop round ◌>>=◌
main_loop-signals c ack callback k q b w n held =
    ground (
      arith,
      round-srv c q.topic ack callback b w n,
      receive_req-serving c ack callback k q w n held,
    )

-- A client whose transport works serves a topic without a wildcard, which is free with it and with the
-- server, and the server, where its channel is open, handles what it sends. Then the server has a
-- request for that topic, from whichever client, put at the end of the client's channel, and when the
-- client takes it from there its loop goes on and the callback of the service, which is held, is
-- handed the request, once.
pub service_receives :
    (send_error : Text) (i from id k : ℕ) (c : ClientCore) (ack callback : Callback) (q : ReqMsg)
    (ch : Channel) (s : Core)
    → c.broken ≡ none
    → c.is_held callback ≡ true
    → has_wildcard (segments q.topic) ≡ false
    → get_owner q.topic c.subscriptions ≡ none
    → get_owner q.topic s.directory ≡ none
    → lookup i s.senders ≡ some ch
    → ch.is_open ≡ true
    → let m = srv_msg c q.topic in
      let s' = (process_task send_error (message i m) s).1 in
      let (r, s'') = Server.request send_error from id q s' in
      ((round (task (srv q.topic ack callback)) c).1.sent ≡ c.sent ++ m ∷ [])
      × (r ≡ ok tt)
      × ((before : Channel) × (n : ℕ) × (lookup i s'.senders ≡ some before)
          × (lookup i s''.senders
              ≡ some (enqueue before (record { id = n; content = ProtocolServer.req q }))))
      × ((main_loop (signals c ack callback k q) c).0 ≡ running)
      × ((main_loop (signals c ack callback k q) c).1.events
          ≡ c.events ++ requested callback k q ∷ [])
service_receives send_error i from id k c ack callback q ch s b held w n n' e o =
    let s' = served i c q.topic ch s in
    let queued : Channel = enqueue ch (record {
      id = s.next_msg_id;
      content = ProtocolServer.ack (ack_of (next_id c) (ok none));
    }) in
    let there : lookup i s'.senders ≡ some queued =
      ground (arith, lookup-put i i queued s.senders, ==_iff i i) in
    let routed =
      request_routed send_error from id i queued q s'
        (get_owner-claim_free i q.topic s.directory w n') there o in
    let reached : Channel =
      enqueue queued (record { id = s'.next_msg_id; content = ProtocolServer.req q }) in
    rw
      (
        process_task-srv send_error i c q.topic ch s e o w n',
        round-srv c q.topic ack callback b w n,
        main_loop-signals c ack callback k q b w n held,
        routed,
      )
      (
        refl,
        refl,
        (
          queued,
          s'.next_msg_id,
          there,
          ground (arith, lookup-put i i reached s'.senders, ==_iff i i),
        ),
        refl,
        refl,
      )
