-- ===== src/Server/Tasks.antt =====
-- The invariant along the tasks and the loop of the server (src/server/core.rs).
use t2_bus.Base.{ℕ, ◌+◌, ◌<◌, false, List, [], ◌∷◌, lookup, ◌≡◌, ◌≢◌, ◌⊎◌, refl, arith, inl, inr}
use native.Mathlib.Nat.{add-zero}
use t2_bus.Err.{Result}
use t2_bus.Text.{Text, text_discrete}
use t2_bus.Topic.{segments}
use t2_bus.Directory
use t2_bus.Directory.{Directory}
use t2_bus.Directory.View.{subscribers_at, subscribers_at-new}
use t2_bus.Directory.Subscriptions.{subscribers_at-subscribe_segments}
use t2_bus.Directory.WellFormed.{new-IsWellFormed, subscribe_segments-IsWellFormed}
use t2_bus.Exec.{◌>>=◌}
use t2_bus.Exec.Keeps.{bind-Keeps, pure-Keeps}
use t2_bus.Server.{
  Core, Task, register, deregister, message, request_timeout, kill_topic, process_task, u32_mod,
  run, init, Status, running, ended, status_of,
}
use t2_bus.Server.Invariant.{IsValid, deregister_client-IsValid, register_client-IsValid}
use t2_bus.Server.Handlers.{process_msg-IsValid, respond-IsValid}

Status-cases : (x : Status) → (x ≡ running) ⊎ ((r : Result (Unit {0})) × (x ≡ ended r))
Status-cases running = inl refl
Status-cases (ended r) = inr (r, refl)

-- A message comes from a client, not from the server itself.
abbrev pub FromClient : Task → Type 0
FromClient (message client m) = client ≢ 0
FromClient (deregister id) = id ≢ 0
FromClient _ = Unit

-- How far a task may move the counter of clients.
abbrev pub clients_added : Task → ℕ
clients_added register = 1
clients_added _ = 0

-- Every task keeps the invariant, whatever it answers, until the counter of clients would wrap.
pub process_task-IsValid :
    (send_error : Text) (t : Task) (n : ℕ) (s : Core)
    → FromClient t
    → n + clients_added t < u32_mod
    → IsValid n s
    → IsValid (n + clients_added t) (process_task send_error t s).1
unfolding process_task
process_task-IsValid send_error register n s f b v = unfold ◌>>=◌ in register_client-IsValid s b v
process_task-IsValid send_error (deregister id) n s f b v =
    rw add-zero
      ((bind-Keeps _ _ (deregister_client-IsValid id f) (λ _. pure-Keeps false)).keeps s v)
process_task-IsValid send_error (message client m) n s f b v =
    rw add-zero ((process_msg-IsValid send_error client m f).keeps s v)
process_task-IsValid send_error (request_timeout id) n s f b v =
    rw add-zero
      ((bind-Keeps _ _ (respond-IsValid send_error 0 _) (λ _. pure-Keeps false)).keeps s v)

abbrev pub AllFromClients : List Task → Type 0
AllFromClients [] = Unit
AllFromClients (t ∷ tasks) = FromClient t × AllFromClients tasks

abbrev pub all_added : List Task → ℕ
all_added [] = 0
all_added (t ∷ tasks) = clients_added t + all_added tasks

-- After any tasks, whether the server is still running or has ended, its state is valid.
pub run-IsValid :
    (send_error : Text) (tasks : List Task) (n : ℕ) (s : Core)
    → AllFromClients tasks
    → n + all_added tasks < u32_mod
    → IsValid n s
    → (k : ℕ) × IsValid k (run send_error tasks s).1
unfolding run
run-IsValid send_error [] n s f b v = (n, v)
run-IsValid send_error (t ∷ tasks) n s f b v =
    let v' = process_task-IsValid send_error t n s f.0 (omega arith) v in
    let rest =
      run-IsValid send_error tasks (n + clients_added t) (process_task send_error t s).1 f.1
        (omega arith) v' in
    elim (Status-cases (status_of (process_task send_error t s).0)) [
      | inl e ↦ (rest.0, rw (e, run) rest.1)
      | inr (r, e) ↦ (n + clients_added t, rw (e, run) v')
    ]

-- The state in which the server starts is valid.
pub init-IsValid : IsValid 1 init
unfolding init subscribers_at text_discrete
init-IsValid = record {
  well_formed =
      subscribe_segments-IsWellFormed 0 (segments kill_topic) Directory.new new-IsWellFormed;
  zero_at_kill = record {
    only = λ p h. ground (
      arith,
      subscribers_at-subscribe_segments 0 (segments kill_topic) p Directory.new,
      subscribers_at-new p,
    );
    subscribed = refl;
  };
  senders_distinct = tt;
  pending_distinct = tt;
  no_zero = unfold lookup in refl;
  next = refl;
  positive = omega arith;
}
