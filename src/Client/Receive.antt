-- ===== src/Client/Receive.antt =====
-- The invariant of a client along `after_receive` and `main_loop` (src/client/core.rs).
use t2_bus.Base.{
  ℕ, Bool, true, false, inl, inr, ◌⊎◌, List, [], ◌∷◌, Option, none, some, lookup, delete, ◌≡◌, refl,
}
use t2_bus.Err.{Result, ok, err, panic, channel_closed}
use t2_bus.Directory
use t2_bus.Exec.{◌>>=◌, pure, modify, gets, raise}
use t2_bus.Exec.Keeps.{
  Keeps, keeps_rules, modify-Keeps, bind-Keeps, if-Keeps, gets-Keeps, pure-Keeps, raise-Keeps,
}
use t2_bus.Protocol.{PubMsg, ReqMsg, RspMsg, AckMsg, ProtocolServer}
use t2_bus.Client.{
  ClientCore, Callback, Signal, keep_alive, received, transport_error, transport_end, task,
  task_end, tick, unwrap, send, is_stop, hand, published, responded, requested, acked, receive_ack,
  receive_rsp, forget, call_back, call_back_all, receive_pub, receive_req, after_receive, round,
  main_loop, status_of, running, ended,
}
use t2_bus.Client.Invariant.{IsValid, send-IsValid, forget-IsValid, hand-IsValid, unwrap-IsValid}

receive_ack-IsValid : (p : AckMsg) (o : Option Callback) → Keeps IsValid (receive_ack p o)
unfolding receive_ack
receive_ack-IsValid p none = pure-Keeps tt
receive_ack-IsValid p (some c) =
    bind-Keeps (modify (λ s. record s { callbacks_ack = delete p.msg_id s.callbacks_ack })) _
      (modify-Keeps _ (λ s v. v))
      λ _. bind-Keeps (hand c (acked c p)) _ (hand-IsValid c (acked c p)) λ _. pure-Keeps tt

receive_rsp-IsValid : (p : RspMsg) → Keeps IsValid (receive_rsp p)
unfolding receive_rsp
receive_rsp-IsValid p =
    bind-Keeps (gets (λ s. lookup p.req_id s.callbacks_rsp)) _ (gets-Keeps _) λ found.
      bind-Keeps (unwrap found) _ (unwrap-IsValid found) λ c.
        bind-Keeps (modify (λ s. record s { callbacks_rsp = delete p.req_id s.callbacks_rsp })) _
          (modify-Keeps _ (λ s v. v))
          λ _.
            bind-Keeps (hand c (responded c p)) _ (hand-IsValid c (responded c p))
              λ _. pure-Keeps tt

call_back-IsValid : (p : PubMsg) (id : ℕ) → Keeps IsValid (call_back p id)
unfolding call_back
call_back-IsValid p id =
    bind-Keeps (gets (λ s. lookup id s.callbacks_pub)) _ (gets-Keeps _) λ found.
      bind-Keeps (unwrap found) _ (unwrap-IsValid found) λ c.
        bind-Keeps (hand c (published c p)) _ (hand-IsValid c (published c p))
          λ held. if-Keeps held (pure tt) (forget id) (pure-Keeps tt) (forget-IsValid id)

call_back_all-IsValid : (p : PubMsg) (ids : List ℕ) → Keeps IsValid (call_back_all p ids)
unfolding call_back_all
call_back_all-IsValid p [] = pure-Keeps tt
call_back_all-IsValid p (id ∷ ids) =
    bind-Keeps (call_back p id) _ (call_back-IsValid p id) λ _. call_back_all-IsValid p ids

receive_pub-IsValid : (p : PubMsg) → Keeps IsValid (receive_pub p)
unfolding receive_pub
receive_pub-IsValid p =
    bind-Keeps (gets (λ s. Directory.get_subscribers p.topic s.subscriptions)) _ (gets-Keeps _)
      λ ids. call_back_all-IsValid p ids

receive_req-IsValid : (id : ℕ) (p : ReqMsg) (o : Option ℕ) → Keeps IsValid (receive_req id p o)
unfolding receive_req
receive_req-IsValid id p none = pure-Keeps tt
receive_req-IsValid id p (some k) =
    bind-Keeps (gets (λ s. lookup k s.callbacks_req)) _ (gets-Keeps _) λ found.
      bind-Keeps (unwrap found) _ (unwrap-IsValid found) λ c.
        bind-Keeps (hand c (requested c id p)) _ (hand-IsValid c (requested c id p)) λ held.
          if-Keeps held (pure tt) (raise channel_closed) (pure-Keeps tt)
            (raise-Keeps channel_closed)

after_receive-IsValid : (id : ℕ) (m : ProtocolServer) → Keeps IsValid (after_receive id m)
unfolding after_receive
after_receive-IsValid id (ProtocolServer.ack p) =
    bind-Keeps (gets (λ s. lookup p.msg_id s.callbacks_ack)) _ (gets-Keeps _)
      λ found. receive_ack-IsValid p found
after_receive-IsValid id (ProtocolServer.rsp p) = receive_rsp-IsValid p
after_receive-IsValid id (ProtocolServer.publish p) = receive_pub-IsValid p
after_receive-IsValid id (ProtocolServer.req p) =
    bind-Keeps (gets (λ s. Directory.get_owner p.topic s.subscriptions)) _ (gets-Keeps _)
      λ o. receive_req-IsValid id p o

pub round-IsValid : (x : Signal) → Keeps IsValid (round x)
unfolding round
round-IsValid (received m) =
    bind-Keeps (after_receive m.id m.content) _ (after_receive-IsValid m.id m.content)
      λ _. pure-Keeps false
round-IsValid (transport_error e) = search keeps_rules
round-IsValid transport_end = search keeps_rules
round-IsValid (task t) =
    if-Keeps (is_stop t) (pure true) (send t >>= λ _. pure false) (pure-Keeps true)
      (bind-Keeps (send t) _ (send-IsValid t) λ _. pure-Keeps false)
round-IsValid task_end = pure-Keeps true
round-IsValid tick = bind-Keeps (send keep_alive) _ (send-IsValid keep_alive) λ _. pure-Keeps false

status-cases :
    (r : Result Bool)
    → (status_of r ≡ running) ⊎ ((e : Result (Unit {0})) × (status_of r ≡ ended e))
status-cases (ok false) = inl refl
status-cases (ok true) = inr (_, refl)
status-cases (err e) = inr (_, refl)
status-cases panic = inr (_, refl)

-- Whatever a client receives, sends and waits for, in any order, and however its loop ends, every
-- subscription and claim in its directory has its callback.
pub main_loop-IsValid :
    (signals : List Signal) (s : ClientCore) → IsValid s → IsValid (main_loop signals s).1
unfolding main_loop
main_loop-IsValid [] s v = v
main_loop-IsValid (x ∷ signals) s v =
    let v' = (round-IsValid x).keeps s v in
    elim (status-cases (round x s).0) [
      | inl e ↦ rw (e, main_loop) (main_loop-IsValid signals (round x s).1 v')
      | inr (r, e) ↦ rw (e, main_loop) v'
    ]
