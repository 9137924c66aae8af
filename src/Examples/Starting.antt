-- ===== src/Examples/Starting.antt =====
-- A server with several listeners, and its stoppers.
use t2_bus.Base.{
  if◌then◌else◌, Bool, true, false, codes, List, [], ◌∷◌, ◌++◌, Option, ◌↔◌, ◌≡◌, refl,
}
use t2_bus.Err.{ok, err, channel_closed}
use t2_bus.Stopper.{runs, returned, stop, BasicStopper, waits, answers, multi_stop, multi_join}
use t2_bus.Server.{message, run}
use t2_bus.Server.Listen.{ListenTask, accepted, listen_loop}
use t2_bus.Server.Stopping.{process_of, stopper_of, stop_msg, stop_msg_waits}
use t2_bus.Examples.Bus.{closed_error, small}
use t2_bus.Stopper.All.{Signalled, StopsWell, multi_stop_iff}
use t2_bus.Server.Builder.{Task, serves_core, Connector, new, build}
use t2_bus.Server.Asking.{
  Call, on_memory, on_tcp, calls, memories, sockets, sockets_asked, memory_asked,
}
use t2_bus.Server.Building.{connector_of, AllBind, tasks_of, build-calls}

abbrev stopper : Bool → BasicStopper
stopper listens = record {
  listens = listens;
  is_stopped = false;
  process = runs;
  on_stop = returned (ok tt);
}

-- One process has ended by itself.
abbrev stoppers : List BasicStopper
stoppers = stopper true ∷ stopper false ∷ stopper true ∷ []

stop_fails : (multi_stop stoppers).0 ≡ answers (err channel_closed)
unfolding multi_stop stop
stop_fails = refl

multi_stop_iff_example :
    Signalled stoppers (multi_stop stoppers).1
    × (((multi_stop stoppers).0 ≡ answers (ok tt)) ↔ StopsWell stoppers)
multi_stop_iff_example = multi_stop_iff stoppers

abbrev cs : List Call
cs = on_memory ∷ on_tcp (codes "1:2") ∷ on_memory ∷ []

build-calls_example :
    let ls = (calls cs new).listeners in
    (sockets ls ≡ sockets_asked cs)
    × (memories ls ≡ (if memory_asked cs then 1 else 0))
    × ((build (λ l. ok tt) (calls cs new)
          ≡ ok (tasks_of (λ l. ok tt) ls ++ serves_core ∷ [], connector_of (memory_asked cs)))
        ↔ AllBind (λ l. ok tt) ls)
    × (((r : List Task × Option Connector) × (build (λ l. ok tt) (calls cs new) ≡ ok r))
        ↔ AllBind (λ l. ok tt) ls)
build-calls_example = build-calls (λ l. ok tt) cs

-- The core has ended, and the listener still listens.
abbrev listener : ListenTask
listener = record { is_core_there = false; tasks = [] }

stop_msg_waits_example :
    let core =
      process_of (codes "panic") (run closed_error (message 1 (stop_msg 4) ∷ []) small).0 in
    let idle = process_of (codes "panic") (listen_loop [] listener).0 in
    let busy = process_of (codes "panic") (listen_loop (accepted (ok tt) ∷ []) listener).0 in
    (core ≡ returned (ok tt))
    × (multi_join (stopper_of idle ∷ stopper_of core ∷ []) ≡ waits)
    × (multi_join (stopper_of busy ∷ stopper_of core ∷ []) ≡ answers (err channel_closed))
stop_msg_waits_example = stop_msg_waits closed_error (codes "panic") 1 4 [] small listener [] refl
