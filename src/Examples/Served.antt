-- ===== src/Examples/Served.antt =====
-- The tool serves a TCP address and a Unix socket.
use t2_bus.Base.{codes, List, [], ◌∷◌, ◌++◌, ◌≡◌, ◌↔◌, refl}
use t2_bus.Text.{Text, text_discrete}
use t2_bus.Topic.Parse.{split_once}
use t2_bus.Err.{Result, ok}
use t2_bus.Cli.{done, resolve_addr}
use t2_bus.Cli.Serving.{run_serve, AllResolve, run_serve_iff}
use t2_bus.Server
use t2_bus.Server.Builder.{
  serve_tcp, serve_unix_socket, ListenerEnum, tcp, unix, Task, listens, serves_core,
}
use t2_bus.Server.Building.{AllBind, tasks_of}
use t2_bus.Examples.Tool.{plain_patterns, env}

abbrev addrs : List Text
addrs = codes "tcp:4242" ∷ codes "unix:/t" ∷ []

abbrev stoppers : List Task
stoppers = listens (tcp (codes "4242")) ∷ listens (unix (codes "/t")) ∷ serves_core ∷ []

abbrev bind_all : ListenerEnum → Result (Unit {0})
bind_all l = ok tt

run_serve_iff_example :
    (run_serve plain_patterns (λ e. []) done bind_all env addrs ≡ done stoppers) ↔ (
      (ls : List ListenerEnum) × AllResolve plain_patterns (λ e. []) done env addrs ls
      × AllBind bind_all ls
      × (stoppers ≡ tasks_of bind_all ls ++ serves_core ∷ []))
run_serve_iff_example = run_serve_iff plain_patterns (λ e. []) done bind_all env addrs stoppers

serves : run_serve plain_patterns (λ e. []) done bind_all env addrs ≡ done stoppers
unfolding run_serve resolve_addr split_once text_discrete plain_patterns serve_tcp serve_unix_socket
    Server.Builder.new
serves = refl
