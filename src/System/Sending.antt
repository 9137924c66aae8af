-- ===== src/System/Sending.antt =====
-- The requests of a client along `send` (src/client/core.rs).
use t2_bus.Base.{
  ℕ, ◌+◌, ◌%◌, ◌≤◌, ◌<◌, ◌==◌, ==_iff, if◌then◌else◌, Bool-cases, Option-cases, inl, inr, ◌⊎◌, Map,
  lookup, put, lookup-put, ◌≡◌, refl, arith,
}
use t2_bus.Err.{BusError, Result, ok, err, panic}
use t2_bus.Exec.{◌>>=◌}
use t2_bus.Directory
use t2_bus.Protocol.{ReqMsg, Msg, ProtocolClient}
use t2_bus.Client.{
  ClientCore, Callback, Task, publish, sub, unsub, req, rsp, srv, unsrv, stop, stop_bus, keep_alive,
  prepare, before_send, transmit, send, u32_mod,
}
use t2_bus.Client.Serving.{next_id}
use t2_bus.System.Answers.{asks}
use t2_bus.System.Asking.{sends, sends-append, waiting, Fits, transmit-Fits}

Result-forms :
    (r : Result (Unit {0})) → (r ≡ ok tt) ⊎ (((e : BusError) × (r ≡ err e)) ⊎ (r ≡ panic))
Result-forms (ok a) = inl refl
Result-forms (err e) = inr (inl (e, refl))
Result-forms panic = inr (inr refl)

transmit-next_msg_id :
    (m : Msg ProtocolClient) (s : ClientCore) → (transmit m s).1.next_msg_id ≡ s.next_msg_id
unfolding transmit
transmit-next_msg_id m s = elim (Option-cases s.broken) [
  | inl e ↦ rw e refl
  | inr (f, e) ↦ rw e refl
]

-- What has grown by one without wrapping around.
grown : (n : ℕ) → n ≤ (n + 1) % u32_mod → (n + 1) % u32_mod ≡ n + 1
grown n w = omega (arith, w)

module _ (x n : ℕ) where
  -- The message ids handed out are the bound of the requests.
  abbrev pub Bounded : ClientCore → Type 0
  Bounded c = Fits x n c.next_msg_id c

  transmit-Bounded :
      (m : Msg ProtocolClient) (s : ClientCore)
      → asks x m.id m.content ≡ 0
      → Bounded s
      → Bounded (transmit m s).1
  transmit-Bounded m s e h =
      rw (transmit-next_msg_id m s) ((transmit-Fits x n s.next_msg_id m e).keeps s h)

  next-Bounded :
      (c : ClientCore)
      → Bounded c
      → c.next_msg_id ≤ next_id c
      → Bounded (record c { next_msg_id = next_id c })
  next-Bounded c (h, b) w = (h, λ l. b (omega (arith, l, w)))

  -- A request with the next message id, whose callback is there.
  asked-Fits :
      (callback : Callback) (m : Map Callback) (k id total : ℕ)
      → total ≤ waiting (lookup x m)
      → (k < x → total ≡ 0)
      → id ≡ k + 1
      → (total + (if id == x then 1 else 0) ≤ waiting (lookup x (put id callback m)))
        × (id < x → total + (if id == x then 1 else 0) ≡ 0)
  asked-Fits callback m k id total h b e = elim (Bool-cases (id == x)) [
    | inl same ↦
        let zero : total ≡ 0 = b (ground (arith, e, same, ==_iff id x)) in
        rw (lookup-put id x callback m, same)
          (omega (arith, zero), λ l. ground (arith, l, same, ==_iff id x))
    | inr other ↦
        rw (lookup-put id x callback m, other)
          (omega (arith, h), λ l. omega (arith, b (omega (arith, e, l))))
  ]

  -- It is put with the others, if the transport works.
  transmit_req-Bounded :
      (params : ReqMsg) (s : ClientCore)
      → (n + sends x s.sent + (if s.next_msg_id == x then 1 else 0)
          ≤ waiting (lookup x s.callbacks_rsp))
      → (s.next_msg_id < x → n + sends x s.sent + (if s.next_msg_id == x then 1 else 0) ≡ 0)
      → Bounded (transmit (record { id = s.next_msg_id; content = ProtocolClient.req params }) s).1
  unfolding transmit
  transmit_req-Bounded params s h b =
      let m : Msg ProtocolClient = record {
        id = s.next_msg_id;
        content = ProtocolClient.req params;
      } in
      elim (Option-cases s.broken) [
        | inl e ↦ rw (e, sends-append x s.sent m) (omega (arith, h), λ l. omega (arith, b l))
        | inr (f, e) ↦ rw e (omega (arith, h), λ l. omega (arith, b l))
      ]

  send_req-Bounded :
      (params : ReqMsg) (ack callback : Callback) (c : ClientCore)
      → Bounded c
      → c.next_msg_id ≤ next_id c
      → Bounded (send (req params ack callback) c).1
  unfolding send before_send prepare ◌>>=◌
  send_req-Bounded params ack callback c (h, b) w =
      let (h', b') =
        asked-Fits callback c.callbacks_rsp c.next_msg_id (next_id c) (n + sends x c.sent) h b
          (grown c.next_msg_id w) in
      transmit_req-Bounded params
        (record c {
          next_msg_id = next_id c;
          callbacks_ack = put (next_id c) ack c.callbacks_ack;
          callbacks_rsp = put (next_id c) callback c.callbacks_rsp;
        })
        h' b'

  module _ (c : ClientCore) (h : Bounded c) (w : c.next_msg_id ≤ next_id c) where
    -- The state in which a message without a request is transmitted.
    abbrev later : Bounded (record c { next_msg_id = next_id c })
    later = next-Bounded c h w

    abbrev msg : ProtocolClient → Msg ProtocolClient
    msg content = record { id = next_id c; content = content }

    pub send-Bounded : (t : Task) → Bounded (send t c).1
    unfolding send before_send prepare ◌>>=◌
    send-Bounded (req params ack callback) = send_req-Bounded params ack callback c h w
    send-Bounded (publish params ack) =
        transmit-Bounded (msg (ProtocolClient.publish params)) _ refl later
    send-Bounded (sub topic ack callback) =
        elim (Result-forms (Directory.subscribe (next_id c) topic c.subscriptions).0) [
          | inl e ↦ rw e (transmit-Bounded (msg (ProtocolClient.sub topic)) _ refl later)
          | inr (inl (f, e)) ↦ rw e later
          | inr (inr e) ↦ rw e later
        ]
    send-Bounded (unsub topic) = transmit-Bounded (msg (ProtocolClient.unsub topic)) _ refl later
    send-Bounded (rsp params ack) = transmit-Bounded (msg (ProtocolClient.rsp params)) _ refl later
    send-Bounded (srv topic ack callback) =
        elim (Result-forms (Directory.claim (next_id c) topic c.subscriptions).0) [
          | inl e ↦ rw e (transmit-Bounded (msg (ProtocolClient.srv topic)) _ refl later)
          | inr (inl (f, e)) ↦ rw e later
          | inr (inr e) ↦ rw e later
        ]
    send-Bounded (unsrv topic) = elim (Option-cases (Directory.get_owner topic c.subscriptions)) [
      | inl e ↦ rw e later
      | inr (owner, e) ↦ elim (Result-forms (Directory.unclaim owner topic c.subscriptions).0) [
        | inl f ↦ rw (e, f) (transmit-Bounded (msg (ProtocolClient.unsrv topic)) _ refl later)
        | inr (inl (g, f)) ↦ rw (e, f) later
        | inr (inr f) ↦ rw (e, f) later
      ]
    ]
    send-Bounded stop = later
    send-Bounded (stop_bus ack) = transmit-Bounded (msg ProtocolClient.stop) _ refl later
    send-Bounded keep_alive = transmit-Bounded (msg ProtocolClient.keep_alive) _ refl later
