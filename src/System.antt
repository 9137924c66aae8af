-- ===== src/System.antt =====
-- A client and the server together: src/client/core.rs and src/server/core.rs.
pub mod Owed
pub mod Answers
pub mod Asking
pub mod Sending
pub mod Waiting
pub mod Steps
pub mod Safety
pub mod Subscribing
pub mod Unsubscribing
pub mod Requesting
pub mod Calling
pub mod Returning
use t2_bus.Base.{
  ℕ, ◌+◌, ◌%◌, ◌==◌, if◌then◌else◌, Bool, true, false, not, ◌&&◌, ◌||◌, inl, inr, ◌⊎◌, List, [],
  ◌∷◌, ◌++◌, Option, none, some, lookup, put, lookup-put, ◌≡◌, ◌≢◌, refl, ap, arith,
}
use t2_bus.Text.{Text}
use t2_bus.Topic.{Topic, segments}
use t2_bus.Err.{Result, ok, err, panic}
use t2_bus.Exec.{pure, modify, gets, continue, ◌>>=◌, ◌>>◌}
use t2_bus.Directory
use t2_bus.Directory.Subscriptions.{subscribe_segments-ok}
use t2_bus.Protocol.{ProtocolClient, ProtocolServer, Msg}
use t2_bus.Server.{Core, Channel, message, enqueue, ack_of, process_task, process_msg, handle}
use t2_bus.Server.Delivery.{delivered, deliver_open}
use t2_bus.Client.{ClientCore, sub, prepare, before_send, transmit, send, round, task}
use t2_bus.Client.Serving.{next_id}

-- What a client sends for a subscription.
abbrev pub sub_msg : ClientCore → Topic → Msg ProtocolClient
sub_msg c t = record { id = next_id c; content = ProtocolClient.sub t }

-- The client after it has sent it.
abbrev pub subscribing : ClientCore → Topic → ℕ → ℕ → ClientCore
subscribing c t ack callback = record c {
  next_msg_id = next_id c;
  callbacks_ack = put (next_id c) ack c.callbacks_ack;
  callbacks_pub = put (next_id c) callback c.callbacks_pub;
  subscriptions = (Directory.subscribe (next_id c) t c.subscriptions).1;
  sent = c.sent ++ sub_msg c t ∷ [];
}

pub round-sub :
    (c : ClientCore) (t : Topic) (ack callback : ℕ)
    → c.broken ≡ none
    → round (task (sub t ack callback)) c ≡ (ok false, subscribing c t ack callback)
unfolding round send before_send prepare transmit ◌>>=◌ Directory.subscribe
round-sub c t ack callback b =
    ground (arith, b, subscribe_segments-ok (next_id c) (segments t) c.subscriptions)

-- The server after it has handled the subscription of a client.
abbrev pub subscribed : ℕ → ClientCore → Topic → Channel → Core → Core
subscribed i c t ch s =
    delivered i ch (ProtocolServer.ack (ack_of (next_id c) (ok none)))
      (record s { directory = (Directory.subscribe i t s.directory).1 })

pub process_task-sub :
    (send_error : Text) (i : ℕ) (c : ClientCore) (t : Topic) (ch : Channel) (s : Core)
    → lookup i s.senders ≡ some ch
    → ch.is_open ≡ true
    → process_task send_error (message i (sub_msg c t)) s ≡ (ok false, subscribed i c t ch s)
unfolding process_task process_msg handle ◌>>=◌ Directory.subscribe
process_task-sub send_error i c t ch s e o =
    let answers = subscribe_segments-ok i (segments t) s.directory in
    let acknowledged =
      deliver_open send_error i (ProtocolServer.ack (ack_of (next_id c) (ok none)))
        (record s { directory = (Directory.subscribe i t s.directory).1 }) ch e o in
    ground (arith, answers, acknowledged)
