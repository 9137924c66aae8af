-- ===== src/Server/Stub.antt =====
-- src/server/client_stub.rs: the task that stands between the server and one client's transport.
use t2_bus.Base.{ℕ, if◌then◌else◌, Bool, true, false, List, [], ◌∷◌, ◌++◌, Option, none, some}
use t2_bus.Err.{BusError, ok, err, panic, channel_closed, client_timeout}
use t2_bus.Exec.{Exec, pure, raise, ◌>>=◌, ◌>>◌}
use t2_bus.Protocol.{Msg, ProtocolClient, ProtocolServer}
use t2_bus.Server.{Task, message, deregister, Status, running, ended, status_of}

-- `tasks` is what went to the core, if `is_core_there`, and `sent` what went to the transport, which
-- answers with the error `broken` once it is broken.
pub record ClientStub : Type 0 where
  pub id : ℕ
  pub is_core_there : Bool
  pub tasks : List Task
  pub sent : List (Msg ProtocolServer)
  pub broken : Option BusError

-- What the loop waits for: a message or an error from the transport or its end, a message from the
-- core or the end of its channel, and the tick of the keep-alive timer.
pub data StubSignal : Type 0 where
  received : Msg ProtocolClient → StubSignal
  transport_error : BusError → StubSignal
  transport_end : StubSignal
  from_core : Msg ProtocolServer → StubSignal
  core_end : StubSignal
  tick : StubSignal

unfoldable pub send_task : Task → Exec ClientStub (Unit {0})
send_task t s =
    if s.is_core_there
    then (ok tt, record s { tasks = s.tasks ++ t ∷ [] })
    else (err channel_closed, s)

unfoldable pub transmit : Msg ProtocolServer → Exec ClientStub (Unit {0})
transmit m s = elim s.broken [
  | none ↦ (ok tt, record s { sent = s.sent ++ m ∷ [] })
  | some e ↦ (err e, s)
]

-- One round of the loop, and whether it returns.
unfoldable pub serve_round : StubSignal → Exec ClientStub Bool
unfolding send_task transmit ◌>>=◌
serve_round (received m) = λ s. (send_task (message s.id m) >> pure false) s
serve_round (transport_error e) = raise e
serve_round transport_end = raise channel_closed
serve_round (from_core m) = do transmit m; pure false
serve_round core_end = pure true
serve_round tick = λ s. raise (client_timeout s.id) s

-- `_serve`
unfoldable pub serve_loop : List StubSignal → ClientStub → Status × ClientStub
unfolding serve_round
serve_loop [] s = (running, s)
serve_loop (x ∷ signals) s =
    let (r, s') = serve_round x s in
    let rest = serve_loop signals s' in
    elim (status_of r) [ running ↦ rest | ended e ↦ (ended e, s') ]

abbrev pub finish : Status × ClientStub → Status × ClientStub
finish (running, s) = (running, s)
finish (ended r, s) =
    let (q, s') = send_task (deregister s.id) s in
    (ended (elim q [ ok _ ↦ r | err e ↦ err e | panic ↦ panic ]), s')

unfoldable pub serve : List StubSignal → ClientStub → Status × ClientStub
unfolding serve_loop send_task
serve signals s = finish (serve_loop signals s)
