-- ===== src/Server/Builder.antt =====
-- src/server/builder.rs: the builder of a server with several listeners.
use t2_bus.Base.{if◌then◌else◌, Bool, true, false, List, [], ◌∷◌, ◌++◌, Option, none, some}
use t2_bus.Text.{Text}
use t2_bus.Err.{Result, ok, ◌>>=◌}

-- A socket address or a path is its text.
pub data ListenerEnum : Type 0 where
  memory : ListenerEnum
  tcp unix : Text → ListenerEnum

pub record ServerBuilder : Type 0 where
  pub listeners : List ListenerEnum

-- What a stopper stops.
pub data Task : Type 0 where
  listens : ListenerEnum → Task
  serves_core : Task

pub data Connector : Type 0 where
  memory_connector : Connector

unfoldable pub new : ServerBuilder
new = record { listeners = [] }

unfoldable pub serve_unix_socket : Text → ServerBuilder → ServerBuilder
serve_unix_socket addr b = record { listeners = b.listeners ++ unix addr ∷ [] }

unfoldable pub serve_tcp : Text → ServerBuilder → ServerBuilder
serve_tcp addr b = record { listeners = b.listeners ++ tcp addr ∷ [] }

abbrev pub has_memory : List ListenerEnum → Bool
has_memory [] = false
has_memory (memory ∷ ls) = true
has_memory (tcp addr ∷ ls) = has_memory ls
has_memory (unix addr ∷ ls) = has_memory ls

unfoldable pub serve_memory : ServerBuilder → ServerBuilder
serve_memory b =
    if has_memory b.listeners then b else record { listeners = b.listeners ++ memory ∷ [] }

-- `bind` opens a socket, which may fail.
module _ (bind : ListenerEnum → Result (Unit {0})) where
  unfoldable pub listen : ListenerEnum → Result (Task × Option Connector)
  listen memory = ok (listens memory, some memory_connector)
  listen (unix addr) = bind (unix addr) >>= λ _. ok (listens (unix addr), none)
  listen (tcp addr) = bind (tcp addr) >>= λ _. ok (listens (tcp addr), none)

  -- `join_all` and `collect`: all of them listen, and the first error counts.
  unfoldable pub listen_all : List ListenerEnum → Result (List (Task × Option Connector))
  unfolding listen
  listen_all [] = ok []
  listen_all (l ∷ ls) = let rest = listen_all ls in listen l >>= λ r. rest >>= λ rs. ok (r ∷ rs)

  abbrev pub or_else : Option Connector → Option Connector → Option Connector
  or_else none c = c
  or_else (some c) _ = some c

  -- The fold over the results.
  unfoldable pub gather :
      List (Task × Option Connector) → List Task × Option Connector → List Task × Option Connector
  gather [] acc = acc
  gather ((stopper, connector) ∷ rs) (stoppers, found) =
      gather rs (stoppers ++ stopper ∷ [], or_else found connector)

  abbrev pub with_core : List Task × Option Connector → List Task × Option Connector
  with_core (stoppers, connector) = (stoppers ++ serves_core ∷ [], connector)

  unfoldable pub build : ServerBuilder → Result (List Task × Option Connector)
  unfolding listen_all gather
  build b = listen_all b.listeners >>= λ results. ok (with_core (gather results ([], none)))
