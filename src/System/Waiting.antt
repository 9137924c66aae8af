-- ===== src/System/Waiting.antt =====
-- The requests of a client along the rounds of its main loop (src/client/core.rs).
use t2_bus.Base.{
  ℕ, ◌+◌, ◌≤◌, ◌<◌, ◌==◌, if◌then◌else◌, false, Bool-cases, Option-cases, inl, inr, Option, none,
  some, lookup, delete, lookup-delete, arith,
}
use t2_bus.Exec.{pure, gets, ◌>>=◌}
use t2_bus.Exec.Keeps.{bind-Keeps, pure-Keeps, gets-Keeps, then_pure}
use t2_bus.Directory
use t2_bus.Protocol.{RspMsg, Msg, ProtocolServer}
use t2_bus.Client.{
  ClientCore, Callback, keep_alive, responded, Signal, received, transport_error, transport_end,
  task, task_end, tick, send, hand, receive_rsp, after_receive, round, is_stop, u32_mod,
}
use t2_bus.System.Owed.{answers}
use t2_bus.System.Asking.{
  waiting, Fits, hand-Fits, receive_ack-Fits, receive_pub-Fits, receive_req-Fits,
}
use t2_bus.System.Sending.{Bounded, send-Bounded}

-- What is local to a program: its tasks and the timer.
abbrev pub IsLocal : Signal → Type 0
IsLocal (task t) = Unit
IsLocal tick = Unit
IsLocal task_end = Unit
IsLocal (received m) = ⊥
IsLocal (transport_error e) = ⊥
IsLocal transport_end = ⊥

module _ (x n : ℕ) where
  waiting-one : (o : Option Callback) → waiting o ≤ 1
  waiting-one none = omega arith
  waiting-one (some callback) = omega arith

  module _ (k : ℕ) where
    answered-Fits :
        (id : ℕ) (c : ClientCore)
        → Fits x (n + (if id == x then 1 else 0)) k c
        → Fits x n k (record c { callbacks_rsp = delete id c.callbacks_rsp })
    answered-Fits id c (h, b) = elim (Bool-cases (id == x)) [
      | inl same ↦
          rw (lookup-delete id x c.callbacks_rsp, same)
            (
              ground (arith, h, same, waiting-one (lookup x c.callbacks_rsp)),
              λ l. omega (arith, b l),
            )
      | inr other ↦
          rw (lookup-delete id x c.callbacks_rsp, other) (omega (arith, h), λ l. omega (arith, b l))
    ]

    -- An answer that arrives takes its callback away.
    receive_rsp-Fits :
        (p : RspMsg) (c : ClientCore)
        → Fits x (n + (if p.req_id == x then 1 else 0)) k c
        → Fits x n k (receive_rsp p c).1
    unfolding receive_rsp ◌>>=◌
    receive_rsp-Fits p c (h, b) = elim (Option-cases (lookup p.req_id c.callbacks_rsp)) [
      | inl e ↦ rw e (omega (arith, h), λ l. omega (arith, b l))
      | inr (callback, e) ↦ rw e (
          (bind-Keeps (hand callback (responded callback p)) (λ _. pure tt)
              (hand-Fits x n k callback (responded callback p)) (λ _. pure-Keeps tt)).keeps
            (record c { callbacks_rsp = delete p.req_id c.callbacks_rsp })
            (answered-Fits p.req_id c (h, b)))
    ]

    after_receive-Fits :
        (id : ℕ) (m : ProtocolServer) (c : ClientCore)
        → Fits x (n + answers x m) k c
        → Fits x n k (after_receive id m c).1
    unfolding after_receive
    after_receive-Fits id (ProtocolServer.ack p) c (h, b) =
        (bind-Keeps (gets (λ s. lookup p.msg_id s.callbacks_ack)) _ (gets-Keeps _)
            (λ found. receive_ack-Fits x n k p found)).keeps
          c (omega (arith, h), λ l. omega (arith, b l))
    after_receive-Fits id (ProtocolServer.rsp p) c h = receive_rsp-Fits p c h
    after_receive-Fits id (ProtocolServer.publish p) c (h, b) =
        (receive_pub-Fits x n k p).keeps c (omega (arith, h), λ l. omega (arith, b l))
    after_receive-Fits id (ProtocolServer.req p) c (h, b) =
        (bind-Keeps (gets (λ s. Directory.get_owner p.topic s.subscriptions)) _ (gets-Keeps _)
            (λ o. receive_req-Fits x n k id p o)).keeps
          c (omega (arith, h), λ l. omega (arith, b l))

  pub received-Bounded :
      (m : Msg ProtocolServer) (c : ClientCore)
      → Fits x (n + answers x m.content) c.next_msg_id c
      → c.next_msg_id ≤ (round (received m) c).1.next_msg_id
      → Bounded x n (round (received m) c).1
  unfolding round
  received-Bounded m c h w =
      let (h', b') =
        then_pure (Fits x n c.next_msg_id) (after_receive m.id m.content) false c
          (after_receive-Fits c.next_msg_id m.id m.content c h) in
      (h', λ l. b' (omega (arith, l, w)))

  pub local-Bounded :
      (g : Signal) (c : ClientCore)
      → IsLocal g
      → Bounded x n c
      → c.next_msg_id + 1 < u32_mod
      → Bounded x n (round g c).1
  unfolding round
  local-Bounded tick c l h w =
      then_pure (Bounded x n) (send keep_alive) false c
        (send-Bounded x n c h (omega (arith, w)) keep_alive)
  local-Bounded task_end c l h w = h
  local-Bounded (task t) c l h w = elim (Bool-cases (is_stop t)) [
    | inl e ↦ rw e h
    | inr e ↦
        rw e (then_pure (Bounded x n) (send t) false c (send-Bounded x n c h (omega (arith, w)) t))
  ]
  local-Bounded (received m) c l h w = absurd l
  local-Bounded (transport_error e) c l h w = absurd l
  local-Bounded transport_end c l h w = absurd l
