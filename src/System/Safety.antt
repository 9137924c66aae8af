-- ===== src/System/Safety.antt =====
-- What a client (src/client/core.rs) can be sent by the server (src/server/core.rs) does not make it
-- panic.
use t2_bus.Base.{
  ℕ, ◌+◌, ◌≤◌, ==_iff, Bool, false, List, ◌∷◌, some, inl, inr, lookup, put, lookup-put, ◌≡◌, ◌≢◌,
  refl, arith, ap,
}
use t2_bus.Text.{Text}
use t2_bus.Err.{panic, Result-cases}
use t2_bus.Exec.{◌>>=◌}
use t2_bus.Protocol.{Msg, ProtocolClient, ProtocolServer}
use t2_bus.Server
use t2_bus.Server.{Core, Channel, message, process_task}
use t2_bus.Client
use t2_bus.Client.{ClientCore, Callback, Signal, received, round, after_receive}
use t2_bus.Client.Invariant.{IsValid, init-IsValid}
use t2_bus.Client.Receive.{round-IsValid}
use t2_bus.Client.Panics.{after_receive_panics_iff, IsStray}
use t2_bus.System.Owed.{answers, queued, in_channel, owed}
use t2_bus.System.Answers.{asks, adds, process_task-owed}
use t2_bus.System.Asking.{sends, waiting, Fits}
use t2_bus.System.Sending.{Bounded}
use t2_bus.System.Waiting.{local-Bounded, received-Bounded}
use t2_bus.System.Steps.{
  System, Step, Reach, act, upload, serve, take, other_channel, close, hold, here, later, initial,
  IsElsewhere,
}

-- The client has its callbacks, and what it can still be answered is waited for.
record Sound (i : ℕ) (a : System) : Type 0 where
  valid : IsValid a.client
  bounded : (x : ℕ) → Bounded x (owed i x a.server) a.client

initial-Sound : (i : ℕ) (is_held : Callback → Bool) → Sound i (initial is_held)
unfolding Server.init Client.init lookup
initial-Sound i is_held = record {
  valid = init-IsValid is_held;
  bounded = λ x. (omega arith, λ l. omega arith);
}

-- Another queue in the client's channel.
put_channel-owed :
    (i x : ℕ) (ch ch' : Channel) (s : Core)
    → lookup i s.senders ≡ some ch
    → owed i x (record s { senders = put i ch' s.senders }) + queued x ch.queue
      ≡ owed i x s + queued x ch'.queue
put_channel-owed i x ch ch' s e = rw e (ground (arith, ==_iff i i, lookup-put i i ch' s.senders))

-- Fewer answers fit where more do.
less-Fits : (x : ℕ) {n m k : ℕ} (c : ClientCore) → m ≤ n → Fits x n k c → Fits x m k c
less-Fits x c l (h, b) = (omega (arith, l, h), λ y. omega (arith, l, b y))

adds-IsElsewhere :
    (i x : ℕ) (send_error : Text) (t : Server.Task) → IsElsewhere i t → adds i x send_error t ≡ 0
adds-IsElsewhere i x send_error (message j m) n = ground (arith, n, ==_iff j i)
adds-IsElsewhere i x send_error Server.register n = refl
adds-IsElsewhere i x send_error (Server.deregister j) n = refl
adds-IsElsewhere i x send_error (Server.request_timeout id) n = refl

module _ (send_error : Text) (i : ℕ) where
  uploaded-Bounded :
      (a : System) {m : Msg ProtocolClient} {rest : List (Msg ProtocolClient)} (x : ℕ)
      → a.client.sent ≡ m ∷ rest
      → Bounded x (owed i x a.server) a.client
      → Bounded x
          (owed i x (process_task send_error (message i m) a.server).1)
          (record a.client { sent = rest })
  uploaded-Bounded a {m = m} x e (h, b) =
      let total = ap (sends x) e in
      let adds : owed i x (process_task send_error (message i m) a.server).1
          ≤ owed i x a.server + asks x m.id m.content =
        ground (arith, ==_iff i i, process_task-owed i x send_error (message i m) a.server) in
      (omega (arith, h, adds, total), λ l. omega (arith, b l, adds, total))

  Step-Sound : {a b : System} → Step send_error i a b → Sound i a → Sound i b
  Step-Sound {a = a} (act g l w e) h = record {
    valid = (round-IsValid g).keeps a.client h.valid;
    bounded = λ x. local-Bounded x (owed i x a.server) g a.client l (h.bounded x) w;
  }
  Step-Sound {a = a} (upload {m = m} e r) h = record {
    valid = h.valid;
    bounded = λ x. uploaded-Bounded a x e (h.bounded x);
  }
  Step-Sound {a = a} (serve t l r) h = record {
    valid = h.valid;
    bounded = λ x.
        less-Fits x a.client
          (omega (
            arith,
            process_task-owed i x send_error t a.server,
            adds-IsElsewhere i x send_error t l,
          ))
          (h.bounded x);
  }
  Step-Sound {a = a} (take {ch = ch} {rest = rest} f q r w) h = record {
    valid = (round-IsValid (received _)).keeps a.client h.valid;
    bounded = λ x.
        received-Bounded x _ _ a.client
          (less-Fits x a.client
            (omega (
              arith,
              ap (queued x) q,
              put_channel-owed i x ch (record ch { queue = rest }) a.server f,
            ))
            (h.bounded x))
          w;
  }
  Step-Sound {a = a} (other_channel j ch n) h = record {
    valid = h.valid;
    bounded = λ x.
        less-Fits x a.client (ground (arith, n, ==_iff j i, lookup-put j i ch a.server.senders))
          (h.bounded x);
  }
  Step-Sound {a = a} (close {ch = ch} e) h = record {
    valid = h.valid;
    bounded = λ x.
        less-Fits x a.client
          (omega (arith, put_channel-owed i x ch (record ch { is_open = false }) a.server e))
          (h.bounded x);
  }
  Step-Sound (hold is_held broken) h = record { valid = h.valid; bounded = h.bounded }

  Reach-Sound : {is_held : Callback → Bool} {a : System} → Reach send_error i is_held a → Sound i a
  Reach-Sound here = initial-Sound i _
  Reach-Sound (later r st) = Step-Sound st (Reach-Sound r)

round_calm :
    (m : Msg ProtocolServer) (c : ClientCore)
    → (after_receive m.id m.content c).0 ≢ panic
    → (round (received m) c).0 ≢ panic
unfolding round ◌>>=◌
round_calm m c n = elim (Result-cases (after_receive m.id m.content c).0 n) [
  | inl (a, e) ↦ rw e (ground arith)
  | inr (b, e) ↦ rw e (ground arith)
]

-- A message with an answer that is waited for is not stray.
not-IsStray :
    (m : ProtocolServer) (c : ClientCore)
    → ((x : ℕ) → answers x m ≤ waiting (lookup x c.callbacks_rsp))
    → ¬ IsStray m c
not-IsStray (ProtocolServer.rsp p) c h =
    λ e. ground (arith, e, ==_iff p.req_id p.req_id, h p.req_id)
not-IsStray (ProtocolServer.ack p) c h = λ e. e
not-IsStray (ProtocolServer.publish p) c h = λ e. e
not-IsStray (ProtocolServer.req p) c h = λ e. e

module _ (send_error : Text) (i : ℕ) (is_held : Callback → Bool) (a : System) where
  -- Whatever the programs, the clock and the other clients do: in a state that a server and a client
  -- reach, while neither main loop has ended and the client's message ids do not wrap around, the
  -- answers that can still come to a request of the client, which are the request while it is not
  -- handled yet, the responses to it that are pending with the server, and the answers to it in the
  -- client's channel, are one at most together, and none where no callback waits for an answer.
  pub answers_are_awaited :
      (x : ℕ)
      → Reach send_error i is_held a
      → owed i x a.server + sends x a.client.sent ≤ waiting (lookup x a.client.callbacks_rsp)
  answers_are_awaited x r = ((Reach-Sound send_error i r).bounded x).0

  -- Whatever the programs, the clock and the other clients do: in a state that a server and a client
  -- reach, while neither main loop has ended and the client's message ids do not wrap around, the
  -- message that is first in the client's channel does not make the client panic.
  pub received_calm :
      (ch : Channel) (m : Msg ProtocolServer) (rest : List (Msg ProtocolServer))
      → Reach send_error i is_held a
      → lookup i a.server.senders ≡ some ch
      → ch.queue ≡ m ∷ rest
      → (round (received m) a.client).0 ≢ panic
  received_calm ch m rest r e q =
      let sound = Reach-Sound send_error i r in
      round_calm m a.client (λ p.
        not-IsStray m.content a.client
          (λ x. omega (arith, (sound.bounded x).0, ap (queued x) q, ap (in_channel x) e))
          ((after_receive_panics_iff m.id m.content a.client sound.valid).0 p))
