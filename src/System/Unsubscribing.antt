-- ===== src/System/Unsubscribing.antt =====
-- One of several subscriptions to a topic is dropped: the client's task, and the server.
use t2_bus.Base.{
  ℕ, true, false, Bool-cases, inl, inr, [], ◌∷◌, ◌++◌, none, some, lookup, contains, ◌≡◌, refl,
  arith,
}
use t2_bus.Text.{Text, Segments}
use t2_bus.Topic.{Topic, segments}
use t2_bus.Err.{ok}
use t2_bus.Exec.{◌>>=◌}
use t2_bus.Directory
use t2_bus.Directory.View.{subscribers_at}
use t2_bus.Directory.Subscriptions.{unsubscribe_segments-ok}
use t2_bus.Directory.Routing.{get_subscribers-unsubscribe}
use t2_bus.Directory.WellFormed.{IsWellFormed}
use t2_bus.Protocol.{ProtocolClient, ProtocolServer, Msg}
use t2_bus.Server.{Core, Channel, message, ack_of, process_task, process_msg, handle}
use t2_bus.Server.Delivery.{delivered, deliver_open}
use t2_bus.Client.{ClientCore, unsub, prepare, before_send, transmit, send, round, task}
use t2_bus.Client.Serving.{next_id}

-- What a client sends where a subscription is dropped.
abbrev pub unsub_msg : ClientCore → Topic → Msg ProtocolClient
unsub_msg c t = record { id = next_id c; content = ProtocolClient.unsub t }

-- The client after it has sent it.
abbrev unsubscribing : ClientCore → Topic → ClientCore
unsubscribing c t = record c { next_msg_id = next_id c; sent = c.sent ++ unsub_msg c t ∷ [] }

round-unsub :
    (c : ClientCore) (t : Topic)
    → c.broken ≡ none
    → round (task (unsub t)) c ≡ (ok false, unsubscribing c t)
unfolding round send before_send prepare transmit ◌>>=◌
round-unsub c t b = ground (arith, b)

-- The server after it has handled it.
abbrev unsubscribed : ℕ → ClientCore → Topic → Channel → Core → Core
unsubscribed i c t ch s =
    delivered i ch (ProtocolServer.ack (ack_of (next_id c) (ok none)))
      (record s { directory = (Directory.unsubscribe i t s.directory).1 })

process_task-unsub :
    (send_error : Text) (i : ℕ) (c : ClientCore) (t : Topic) (ch : Channel) (s : Core)
    → lookup i s.senders ≡ some ch
    → ch.is_open ≡ true
    → process_task send_error (message i (unsub_msg c t)) s ≡ (ok false, unsubscribed i c t ch s)
unfolding process_task process_msg handle ◌>>=◌ Directory.unsubscribe
process_task-unsub send_error i c t ch s e o =
    let answers = unsubscribe_segments-ok i (segments t) s.directory in
    let acknowledged =
      deliver_open send_error i (ProtocolServer.ack (ack_of (next_id c) (ok none)))
        (record s { directory = (Directory.unsubscribe i t s.directory).1 }) ch e o in
    ground (arith, answers, acknowledged)

-- A client whose transport works drops a subscription to a topic, which is all that the server has it
-- subscribed to, and the server, where its channel is open, handles what it sends. The client's own
-- subscriptions stay as they were, others to that topic included, and their callbacks too, but no
-- publication on any topic reaches the client any more.
pub unsub_starves :
    (send_error : Text) (i : ℕ) (c : ClientCore) (t u : Topic) (ch : Channel) (s : Core)
    → c.broken ≡ none
    → IsWellFormed s.directory
    → lookup i s.senders ≡ some ch
    → ch.is_open ≡ true
    → ((p : Segments) → contains i (subscribers_at p s.directory) ≡ true → p ≡ segments t)
    → let c' = (round (task (unsub t)) c).1 in
      let s' = (process_task send_error (message i (unsub_msg c t)) s).1 in
      (c'.sent ≡ c.sent ++ unsub_msg c t ∷ [])
      × (c'.subscriptions ≡ c.subscriptions)
      × (c'.callbacks_pub ≡ c.callbacks_pub)
      × (contains i (Directory.get_subscribers u s'.directory) ≡ false)
unsub_starves send_error i c t u ch s b w e o only =
    let now = get_subscribers-unsubscribe i t s.directory u i w in
    rw (process_task-unsub send_error i c t ch s e o, round-unsub c t b)
      (
        refl,
        refl,
        refl,
        elim (Bool-cases
            (contains i (Directory.get_subscribers u (Directory.unsubscribe i t s.directory).1))) [
              | inl z ↦
                  let (p, sub, other, _) = now.0 z in
                  elim other [ inl n ↦ absurd (n refl) | inr n ↦ absurd (n (only p sub)) ]
              | inr z ↦ z
            ],
      )
