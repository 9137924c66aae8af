-- ===== src/Server/Listen.antt =====
-- src/server/listen.rs: the task that accepts connections and registers them with the core.
use t2_bus.Base.{if◌then◌else◌, Bool, true, false, List, [], ◌∷◌, ◌++◌}
use t2_bus.Err.{Result, ok, err, channel_closed}
use t2_bus.Exec.{Exec, pure, ◌>>=◌, ◌>>◌}
use t2_bus.Server.{Task, register, Status, running, ended, status_of}

-- `tasks` is what went to the core, if `is_core_there`.
pub record ListenTask : Type 0 where
  pub is_core_there : Bool
  pub tasks : List Task

-- What the loop waits for: the stop signal, and a connection or the error of accepting one.
pub data ListenSignal : Type 0 where
  stop_signal : ListenSignal
  accepted : Result (Unit {0}) → ListenSignal

unfoldable pub register_channel : Task → Exec ListenTask (Unit {0})
register_channel t s =
    if s.is_core_there
    then (ok tt, record s { tasks = s.tasks ++ t ∷ [] })
    else (err channel_closed, s)

-- The connection goes with the task to the core, and is not told apart here.
unfoldable pub listen_round : ListenSignal → Exec ListenTask Bool
unfolding register_channel ◌>>=◌
listen_round stop_signal = pure true
listen_round (accepted client_transport) = do
  (λ s. (client_transport, s))
  register_channel register
  pure false

unfoldable pub listen_loop : List ListenSignal → ListenTask → Status × ListenTask
unfolding listen_round
listen_loop [] s = (running, s)
listen_loop (x ∷ signals) s =
    let (r, s') = listen_round x s in
    let rest = listen_loop signals s' in
    elim (status_of r) [ running ↦ rest | ended e ↦ (ended e, s') ]
