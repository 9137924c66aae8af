-- ===== src/System/Owed.antt =====
-- How many answers a client can still get to one of its requests, and how src/server/core.rs changes
-- that number.
use t2_bus.Base.{
  ℕ, ◌+◌, ◌%◌, ◌≤◌, ◌==◌, ==_iff, if◌then◌else◌, Bool, true, ◌&&◌, Bool-cases, inl, inr, List, [],
  ◌∷◌, ◌++◌, Option, none, some, Map, lookup, put, delete, retain, lookup-put, lookup-delete, ◌≡◌,
  refl, arith,
}
use t2_bus.Text.{Text}
use t2_bus.Protocol.{Msg, ProtocolServer}
use t2_bus.Exec.{◌>>=◌}
use t2_bus.Server.{
  Core, PendingResponse, Channel, enqueue, spares, new_msg, send_to, deliver, register_client,
  deregister_client, u32_mod,
}

-- Whether a pending response is for request `x` of client `i`.
abbrev pub asked : ℕ → ℕ → PendingResponse → ℕ
asked i x p = if p.requester_id == i && p.request_id == x then 1 else 0

abbrev pub pending_count : ℕ → ℕ → Map PendingResponse → ℕ
pending_count i x [] = 0
pending_count i x ((k, p) ∷ m) = asked i x p + pending_count i x m

-- Whether a message is the answer to request `x`.
abbrev pub answers : ℕ → ProtocolServer → ℕ
answers x (ProtocolServer.rsp p) = if p.req_id == x then 1 else 0
answers x (ProtocolServer.ack p) = 0
answers x (ProtocolServer.publish p) = 0
answers x (ProtocolServer.req p) = 0

abbrev pub queued : ℕ → List (Msg ProtocolServer) → ℕ
queued x [] = 0
queued x (m ∷ ms) = answers x m.content + queued x ms

abbrev pub in_channel : ℕ → Option Channel → ℕ
in_channel x none = 0
in_channel x (some c) = queued x c.queue

-- The answers to request `x` of client `i` that are pending or wait in its channel.
abbrev pub owed : ℕ → ℕ → Core → ℕ
owed i x s = pending_count i x s.pending_responses + in_channel x (lookup i s.senders)

pub queued-append :
    (x : ℕ) (ms : List (Msg ProtocolServer)) (m : Msg ProtocolServer)
    → queued x (ms ++ m ∷ []) ≡ queued x ms + answers x m.content
queued-append x [] m = omega arith
queued-append x (n ∷ ms) m = omega (arith, queued-append x ms m)

pending_count-delete :
    (i x k : ℕ) (m : Map PendingResponse) → pending_count i x (delete k m) ≤ pending_count i x m
unfolding delete
pending_count-delete i x k [] = omega arith
pending_count-delete i x k ((j, p) ∷ m) = ground (arith, pending_count-delete i x k m)

-- Removing an entry takes away what it counts for.
pub pending_count-delete_found :
    (i x k : ℕ) (p : PendingResponse) (m : Map PendingResponse)
    → lookup k m ≡ some p
    → pending_count i x (delete k m) + asked i x p ≤ pending_count i x m
unfolding delete lookup
pending_count-delete_found i x k p [] e = ground (arith, e)
pending_count-delete_found i x k p ((j, q) ∷ m) e = elim (Bool-cases (j == k)) [
  | inl same ↦ ground (arith, e, same, pending_count-delete i x k m)
  | inr other ↦ ground (arith, e, other, pending_count-delete_found i x k p m)
]

pending_count-retain :
    (i x : ℕ) (f : PendingResponse → Bool) (m : Map PendingResponse)
    → pending_count i x (retain f m) ≤ pending_count i x m
unfolding retain
pending_count-retain i x f [] = omega arith
pending_count-retain i x f ((j, p) ∷ m) = ground (arith, pending_count-retain i x f m)

pub pending_count-put :
    (i x k : ℕ) (p : PendingResponse) (m : Map PendingResponse)
    → pending_count i x (put k p m) ≤ pending_count i x m + asked i x p
unfolding put
pending_count-put i x k p m = ground (arith, pending_count-delete i x k m)

module _ (i x : ℕ) where
  pub deregister_client-owed :
      (id : ℕ) (s : Core) → owed i x (deregister_client id s).1 ≤ owed i x s
  unfolding deregister_client
  deregister_client-owed id s = ground (
    arith,
    lookup-delete id i s.senders,
    pending_count-retain i x (spares id) s.pending_responses,
  )

  pub register_client-owed : (s : Core) → owed i x (register_client s).1 ≤ owed i x s
  unfolding register_client
  register_client-owed s =
      ground
        (arith, lookup-put s.next_client_id i (record { is_open = true; queue = [] }) s.senders)

  -- What a delivery to `client` adds.
  abbrev pub sent_to : ℕ → ProtocolServer → ℕ
  sent_to client payload = if client == i then answers x payload else 0

  send_to-owed :
      (send_error : Text) (client : ℕ) (m : Msg ProtocolServer) (r : Option Channel) (s : Core)
      → lookup client s.senders ≡ r
      → owed i x (send_to send_error client m r s).1 ≤ owed i x s + sent_to client m.content
  unfolding send_to ◌>>=◌
  send_to-owed send_error client m none s e = omega arith
  send_to-owed send_error client m (some c) s e = elim (Bool-cases c.is_open) [
    | inl yes_open ↦ rw yes_open (
        ground (
          arith,
          e,
          ==_iff client i,
          lookup-put client i (enqueue c m) s.senders,
          queued-append x c.queue m,
        ))
    | inr closed ↦ rw closed (omega (arith, deregister_client-owed client s))
  ]

  pub deliver-owed :
      (send_error : Text) (client : ℕ) (payload : ProtocolServer) (s : Core)
      → owed i x (deliver send_error client payload s).1 ≤ owed i x s + sent_to client payload
  unfolding deliver new_msg ◌>>=◌
  deliver-owed send_error client payload s =
      send_to-owed send_error client _ (lookup client s.senders)
        (record s { next_msg_id = (s.next_msg_id + 1) % u32_mod }) refl
