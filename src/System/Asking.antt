-- ===== src/System/Asking.antt =====
-- The requests that a client (src/client/core.rs) has sent, and the callbacks that wait for answers.
use t2_bus.Base.{
  ℕ, ◌+◌, ◌%◌, ◌≤◌, ◌<◌, Bool-cases, Option-cases, inl, inr, List, [], ◌∷◌, ◌++◌, Option, none,
  some, lookup, delete, ◌≡◌, refl, arith,
}
use t2_bus.Topic.{Topic}
use t2_bus.Exec.{modify, ◌>>=◌}
use t2_bus.Exec.Keeps.{Keeps, keeps_rules, modify-Keeps, bind-Keeps, pure-Keeps, crash-Keeps}
use t2_bus.Directory
use t2_bus.Protocol.{PubMsg, ReqMsg, AckMsg, Msg, ProtocolClient}
use t2_bus.Client.{
  ClientCore, Callback, unsub, Event, acked, prepare, before_send, transmit, send, hand,
  receive_ack, receive_pub, receive_req, send_unsubs, forget, call_back, call_back_all, unwrap,
  u32_mod,
}
use t2_bus.System.Answers.{asks}

-- How often request `x` is on its way.
abbrev pub sends : ℕ → List (Msg ProtocolClient) → ℕ
sends x [] = 0
sends x (m ∷ ms) = asks x m.id m.content + sends x ms

pub sends-append :
    (x : ℕ) (ms : List (Msg ProtocolClient)) (m : Msg ProtocolClient)
    → sends x (ms ++ m ∷ []) ≡ sends x ms + asks x m.id m.content
sends-append x [] m = omega arith
sends-append x (n ∷ ms) m = omega (arith, sends-append x ms m)

-- Whether a callback waits for the answer.
abbrev pub waiting : Option Callback → ℕ
waiting none = 0
waiting (some callback) = 1

module _ (x n k : ℕ) where
  -- The answers that can come, where `n` of them are known to the server, are waited for, and there
  -- are none for message ids above `k`.
  abbrev pub Fits : ClientCore → Type 0
  Fits c =
      (n + sends x c.sent ≤ waiting (lookup x c.callbacks_rsp)) × (k < x → n + sends x c.sent ≡ 0)

  pub hand-Fits : (callback : Callback) (e : Event) → Keeps Fits (hand callback e)
  unfolding hand
  hand-Fits callback e = record {
    keeps = λ s h. elim (Bool-cases (s.is_held callback)) [
      | inl held ↦ rw held h
      | inr gone ↦ rw gone h
    ];
  }

  unwrap-Fits : {A : Type 0} (o : Option A) → Keeps Fits (unwrap o)
  unwrap-Fits none = crash-Keeps
  unwrap-Fits (some a) = pure-Keeps a

  pub transmit-Fits : (m : Msg ProtocolClient) → asks x m.id m.content ≡ 0 → Keeps Fits (transmit m)
  unfolding transmit
  transmit-Fits m e = record {
    keeps = λ s h. elim (Option-cases s.broken) [
      | inr (b, f) ↦ rw f h
      | inl f ↦ rw f (
        ground (arith, h, e, sends-append x s.sent m),
        ground (arith, h, e, sends-append x s.sent m),
      )
    ];
  }

  send_unsub-Fits : (t : Topic) → Keeps Fits (send (unsub t))
  unfolding send before_send prepare ◌>>=◌
  send_unsub-Fits t = record {
    keeps = λ s h.
        (transmit-Fits
            (record { id = (s.next_msg_id + 1) % u32_mod; content = ProtocolClient.unsub t })
            refl).keeps
          (record s { next_msg_id = (s.next_msg_id + 1) % u32_mod }) h;
  }

  send_unsubs-Fits : (topics : List Topic) → Keeps Fits (send_unsubs topics)
  unfolding send_unsubs
  send_unsubs-Fits [] = pure-Keeps tt
  send_unsubs-Fits (t ∷ topics) =
      bind-Keeps (send (unsub t)) _ (send_unsub-Fits t) λ _. send_unsubs-Fits topics

  forget-Fits : (id : ℕ) → Keeps Fits (forget id)
  unfolding forget ◌>>=◌
  forget-Fits id = record {
    keeps = λ s h.
        (send_unsubs-Fits (Directory.drop_client id s.subscriptions).1).keeps
          (record s {
            callbacks_pub = delete id s.callbacks_pub;
            subscriptions = (Directory.drop_client id s.subscriptions).0;
          })
          h;
  }

  call_back-Fits : (p : PubMsg) (id : ℕ) → Keeps Fits (call_back p id)
  unfolding call_back
  call_back-Fits p id = search (keeps_rules, hand-Fits, unwrap-Fits, forget-Fits)

  call_back_all-Fits : (p : PubMsg) (ids : List ℕ) → Keeps Fits (call_back_all p ids)
  unfolding call_back_all
  call_back_all-Fits p [] = pure-Keeps tt
  call_back_all-Fits p (id ∷ ids) =
      bind-Keeps (call_back p id) _ (call_back-Fits p id) λ _. call_back_all-Fits p ids

  pub receive_ack-Fits : (p : AckMsg) (o : Option Callback) → Keeps Fits (receive_ack p o)
  unfolding receive_ack
  receive_ack-Fits p none = pure-Keeps tt
  receive_ack-Fits p (some c) =
      bind-Keeps (modify (λ s. record s { callbacks_ack = delete p.msg_id s.callbacks_ack })) _
        (modify-Keeps _ (λ s v. v))
        λ _. bind-Keeps (hand c (acked c p)) _ (hand-Fits c (acked c p)) λ _. pure-Keeps tt

  pub receive_req-Fits : (id : ℕ) (p : ReqMsg) (o : Option ℕ) → Keeps Fits (receive_req id p o)
  unfolding receive_req
  receive_req-Fits id p none = pure-Keeps tt
  receive_req-Fits id p (some callback_id) = search (keeps_rules, hand-Fits, unwrap-Fits)

  pub receive_pub-Fits : (p : PubMsg) → Keeps Fits (receive_pub p)
  unfolding receive_pub
  receive_pub-Fits p = search (keeps_rules, call_back_all-Fits)
