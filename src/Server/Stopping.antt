-- ===== src/Server/Stopping.antt =====
-- A stop message from a client (`Client::stop_bus` of src/client/mod.rs), and the tasks of the server
-- that listen and that run the core.
use t2_bus.Base.{
  ℕ, true, false, Bool-cases, Option-cases, inl, inr, List, [], ◌∷◌, none, lookup, ◌≡◌, refl, arith,
}
use t2_bus.Text.{Text}
use t2_bus.Err.{ok, err, panic, channel_closed}
use t2_bus.Exec.{◌>>=◌}
use t2_bus.Protocol.{ProtocolClient, ProtocolServer, Msg}
use t2_bus.Stopper.{
  Process, runs, returned, died, waits, answers, BasicStopper, join, joins, join_all, multi_join,
}
use t2_bus.Server.{
  Core, Task, message, Status, running, ended, ack_of, run, process_task, process_msg, handle,
}
use t2_bus.Server.Delivery.{deliver_unknown, deliver_open, deliver_closed}
use t2_bus.Server.Listen.{
  ListenTask, ListenSignal, accepted, listen_loop, listen_round, register_channel,
}

-- How a loop's task stands; `text` is how a panic is reported.
abbrev pub process_of : Text → Status → Process
process_of text running = runs
process_of text (ended (ok u)) = returned (ok u)
process_of text (ended (err e)) = returned (err e)
process_of text (ended panic) = died text

-- A stopper of a process that was not told to stop.
abbrev pub stopper_of : Process → BasicStopper
stopper_of p = record { listens = true; is_stopped = false; process = p; on_stop = p }

abbrev pub stop_msg : ℕ → Msg ProtocolClient
stop_msg id = record { id = id; content = ProtocolClient.stop }

process_task-stop :
    (send_error : Text) (client id : ℕ) (s : Core)
    → (process_task send_error (message client (stop_msg id)) s).0 ≡ ok true
unfolding process_task process_msg handle ◌>>=◌
process_task-stop send_error client id s =
    let a = ProtocolServer.ack (ack_of id (ok none)) in
    elim (Option-cases (lookup client s.senders)) [
      | inl e ↦ ground (arith, deliver_unknown send_error client a s e)
      | inr (c, e) ↦ elim (Bool-cases c.is_open) [
        | inl o ↦ ground (arith, deliver_open send_error client a s c e o)
        | inr o ↦ ground (arith, deliver_closed send_error client a s c e o)
      ]
    ]

-- A stop message, from whichever client and whatever else is to be done, ends the core with success.
-- Waiting for the server's stoppers, of the core and of a listener that has no connection to take,
-- then still gives no answer. Once the listener takes a connection, with the core gone, it gives an
-- error.
pub stop_msg_waits :
    (send_error text : Text) (client id : ℕ) (tasks : List Task) (s : Core) (l : ListenTask)
    (signals : List ListenSignal)
    → l.is_core_there ≡ false
    → let core = process_of text (run send_error (message client (stop_msg id) ∷ tasks) s).0 in
      let idle = process_of text (listen_loop [] l).0 in
      let busy = process_of text (listen_loop (accepted (ok tt) ∷ signals) l).0 in
      (core ≡ returned (ok tt))
      × (multi_join (stopper_of idle ∷ stopper_of core ∷ []) ≡ waits)
      × (multi_join (stopper_of busy ∷ stopper_of core ∷ []) ≡ answers (err channel_closed))
unfolding run listen_loop listen_round register_channel multi_join joins join join_all ◌>>=◌
stop_msg_waits send_error text client id tasks s l signals gone =
    let stops = process_task-stop send_error client id s in
    (ground (arith, stops), refl, ground (arith, stops, gone))
