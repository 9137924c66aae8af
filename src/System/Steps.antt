-- ===== src/System/Steps.antt =====
-- A client (src/client/core.rs) and the server (src/server/core.rs) over one connection, step by step,
-- while the programs that use them, the clock and the other clients do what they like.
use t2_bus.Base.{ℕ, ◌+◌, ◌≤◌, ◌<◌, List, ◌∷◌, Option, some, lookup, put, Bool, false, ◌≡◌, ◌≢◌}
use t2_bus.Text.{Text}
use t2_bus.Err.{BusError, ok}
use t2_bus.Protocol.{Msg, ProtocolClient, ProtocolServer}
use t2_bus.Server
use t2_bus.Server.{Core, Channel, message, process_task}
use t2_bus.Client
use t2_bus.Client.{ClientCore, Callback, Signal, received, round, u32_mod}
use t2_bus.System.Waiting.{IsLocal}

pub record System : Type 0 where
  pub server : Core
  pub client : ClientCore

-- What is not a message of client `i`.
abbrev pub IsElsewhere : ℕ → Server.Task → Type 0
IsElsewhere i (message j m) = j ≢ i
IsElsewhere i Server.register = Unit
IsElsewhere i (Server.deregister j) = Unit
IsElsewhere i (Server.request_timeout id) = Unit

-- What can happen while neither main loop has ended and the client's message ids do not wrap around.
-- What the client has sent waits in `sent` until the server handles it, and what the server has sent
-- waits in the client's channel until the client takes it. The server's other tasks come in any
-- order, `request_timeout` at any time.
pub data Step (send_error : Text) (i : ℕ) (a : System) : System → Type 0 where
  act :
      (g : Signal)
      → IsLocal g
      → a.client.next_msg_id + 1 < u32_mod
      → (round g a.client).0 ≡ ok false
      → Step send_error i a (record a { client = (round g a.client).1 })
  upload :
      {m : Msg ProtocolClient} {rest : List (Msg ProtocolClient)}
      → a.client.sent ≡ m ∷ rest
      → (process_task send_error (message i m) a.server).0 ≡ ok false
      → Step send_error i a (record {
        server = (process_task send_error (message i m) a.server).1;
        client = record a.client { sent = rest };
      })
  serve :
      (t : Server.Task)
      → IsElsewhere i t
      → (process_task send_error t a.server).0 ≡ ok false
      → Step send_error i a (record a { server = (process_task send_error t a.server).1 })
  take :
      {ch : Channel} {m : Msg ProtocolServer} {rest : List (Msg ProtocolServer)}
      → lookup i a.server.senders ≡ some ch
      → ch.queue ≡ m ∷ rest
      → (round (received m) a.client).0 ≡ ok false
      → a.client.next_msg_id ≤ (round (received m) a.client).1.next_msg_id
      → Step send_error i a (record {
        server = record a.server { senders = put i (record ch { queue = rest }) a.server.senders };
        client = (round (received m) a.client).1;
      })
  other_channel :
      (j : ℕ) (ch : Channel)
      → j ≢ i
      → Step send_error i a
          (record a { server = record a.server { senders = put j ch a.server.senders } })
  close :
      {ch : Channel}
      → lookup i a.server.senders ≡ some ch
      → Step send_error i a (record a {
        server = record a.server {
          senders = put i (record ch { is_open = false }) a.server.senders;
        };
      })
  hold :
      (is_held : Callback → Bool) (broken : Option BusError)
      → Step send_error i a
          (record a { client = record a.client { is_held = is_held; broken = broken } })

-- A server and a client that have just started.
abbrev pub initial : (Callback → Bool) → System
initial is_held = record { server = Server.init; client = Client.init is_held }

pub data Reach (send_error : Text) (i : ℕ) (is_held : Callback → Bool) : System → Type 0 where
  here : Reach send_error i is_held (initial is_held)
  later :
      {a b : System}
      → Reach send_error i is_held a
      → Step send_error i a b
      → Reach send_error i is_held b
