-- ===== src/Cli/Serving.antt =====
-- The Serve command and `build_client` of src/bin/t2.rs.
use mathlib.Core.List.{append-nil, append_assoc}
use t2_bus.Base.{List, [], ◌∷◌, ◌++◌, Option, some, ◌≡◌, ◌↔◌, refl, ap, sym, arith}
use t2_bus.Text.{Text}
use t2_bus.Err
use t2_bus.Err.{BusError, Result}
use t2_bus.Cli.{from_bus, Outcome, done, ◌>>=◌, ResolvedBusAddr, Env, Patterns, resolve_addr}
use t2_bus.Cli.Outcomes.{bind_done, done_bind, bind_assoc, from_bus-done}
use t2_bus.Server.Builder
use t2_bus.Server.Builder.{
  ListenerEnum, ServerBuilder, Task, serves_core, Connector, serve_tcp, serve_unix_socket, build,
}
use t2_bus.Server.Building.{AllBind, tasks_of, build-ok, build-AllBind}

-- `parse_socket` is the parsing of a socket address, `describe` how an error of the bus prints.
module _ (patterns : Patterns) (describe : BusError → Text)
    (parse_socket : Text → Outcome Text) where
  abbrev pub serve_resolved : ResolvedBusAddr → ServerBuilder → Outcome ServerBuilder
  serve_resolved (ResolvedBusAddr.tcp addr) builder =
      parse_socket addr >>= λ socket. done (serve_tcp socket builder)
  serve_resolved (ResolvedBusAddr.unix addr) builder = done (serve_unix_socket addr builder)

  -- The loop over the addresses.
  unfoldable pub serve_addrs : Env → List Text → ServerBuilder → Outcome ServerBuilder
  unfolding resolve_addr
  serve_addrs env [] builder = done builder
  serve_addrs env (addr ∷ addrs) builder =
      resolve_addr patterns env (some addr) >>= λ resolved_addr.
      serve_resolved resolved_addr builder >>= λ builder'. serve_addrs env addrs builder'

  -- The arm `Serve` of `run`, up to the stopper that it joins.
  unfoldable pub run_serve :
      (ListenerEnum → Result (Unit {0})) → Env → List Text → Outcome (List Task)
  unfolding serve_addrs build
  run_serve bind env addrs = serve_addrs env addrs Builder.new >>= λ builder.
      from_bus describe (build bind builder) >>= λ (stopper, connector). done stopper

  -- The listener that an address stands for.
  abbrev pub listener_of : ResolvedBusAddr → Outcome ListenerEnum
  listener_of (ResolvedBusAddr.tcp addr) = parse_socket addr >>= λ socket. done (Builder.tcp socket)
  listener_of (ResolvedBusAddr.unix addr) = done (Builder.unix addr)

  abbrev pub AllResolve : Env → List Text → List ListenerEnum → Type 0
  AllResolve env [] [] = Unit
  AllResolve env (addr ∷ addrs) (l ∷ ls) =
      ((resolve_addr patterns env (some addr) >>= listener_of) ≡ done l) × AllResolve env addrs ls
  AllResolve env [] (l ∷ ls) = ⊥
  AllResolve env (addr ∷ addrs) [] = ⊥

  -- A resolved address adds its listener to the end.
  serve_resolved-listener_of :
      (a : ResolvedBusAddr) (builder : ServerBuilder)
      → serve_resolved a builder
        ≡ (listener_of a >>= λ l. done (record { listeners = builder.listeners ++ l ∷ [] }))
  unfolding serve_tcp serve_unix_socket
  serve_resolved-listener_of (ResolvedBusAddr.tcp addr) builder = sym (
      bind_assoc (parse_socket addr) (λ socket. done (Builder.tcp socket))
        (λ l. done (record { listeners = builder.listeners ++ l ∷ [] })))
  serve_resolved-listener_of (ResolvedBusAddr.unix addr) builder = refl

  serve_addrs-AllResolve :
      (env : Env) (addrs : List Text) (builder builder' : ServerBuilder)
      → serve_addrs env addrs builder ≡ done builder'
      → (ls : List ListenerEnum) × AllResolve env addrs ls
        × (builder'.listeners ≡ builder.listeners ++ ls)
  unfolding serve_addrs
  serve_addrs-AllResolve env [] builder builder' e =
      ([], tt, ground (arith, e, append-nil builder.listeners))
  serve_addrs-AllResolve env (addr ∷ addrs) builder builder' e =
      let (a, f, g) = bind_done (resolve_addr patterns env (some addr)) _ builder' e in
      let (b, h, k) = bind_done (serve_resolved a builder) _ builder' g in
      let (l, m, n) =
        bind_done (listener_of a) (λ l. done (record { listeners = builder.listeners ++ l ∷ [] })) b
          (ground (arith, h, serve_resolved-listener_of a builder)) in
      let (ls, all, p) = serve_addrs-AllResolve env addrs b builder' k in
      (
        l ∷ ls,
        (done_bind _ listener_of a l f m, all),
        ground (arith, n, p, append_assoc builder.listeners (l ∷ []) ls),
      )

  AllResolve-serve_addrs :
      (env : Env) (addrs : List Text) (builder : ServerBuilder) (ls : List ListenerEnum)
      → AllResolve env addrs ls
      → serve_addrs env addrs builder ≡ done (record { listeners = builder.listeners ++ ls })
  unfolding serve_addrs
  AllResolve-serve_addrs env [] builder [] h =
      ap (λ ls. done (record { listeners = ls })) (sym (append-nil builder.listeners))
  AllResolve-serve_addrs env [] builder (l ∷ ls) h = absurd h
  AllResolve-serve_addrs env (addr ∷ addrs) builder [] h = absurd h
  AllResolve-serve_addrs env (addr ∷ addrs) builder (l ∷ ls) (e, h) =
      let (a, f, g) = bind_done (resolve_addr patterns env (some addr)) listener_of l e in
      let added : serve_resolved a builder
          ≡ done (record { listeners = builder.listeners ++ l ∷ [] }) =
        rw (serve_resolved-listener_of a builder, g) refl in
      rw (f, added)
        (ground (
          arith,
          AllResolve-serve_addrs env addrs (record { listeners = builder.listeners ++ l ∷ [] }) ls
              h,
          append_assoc builder.listeners (l ∷ []) ls,
        ))

  built-tasks :
      (bind : ListenerEnum → Result (Unit {0})) (b : ServerBuilder)
      (r : List Task × Option Connector) (ls : List ListenerEnum) (tasks : List Task)
      → build bind b ≡ Err.ok r
      → b.listeners ≡ ls
      → r.0 ≡ tasks
      → AllBind bind ls × (tasks ≡ tasks_of bind ls ++ serves_core ∷ [])
  built-tasks bind b r ls tasks e p k =
      let binds = build-AllBind bind b r e in
      (rw p at binds, ground (arith, e, p, k, build-ok bind b binds))

  -- Serving succeeds exactly if every address resolves, parses where it is a socket address, and can
  -- be listened on. The stopper that the tool waits for then covers one listener for each address, in
  -- their order, and the core behind them.
  pub run_serve_iff :
      (bind : ListenerEnum → Result (Unit {0})) (env : Env) (addrs : List Text) (tasks : List Task)
      → (run_serve bind env addrs ≡ done tasks) ↔ (
          (ls : List ListenerEnum) × AllResolve env addrs ls
          × AllBind bind ls
          × (tasks ≡ tasks_of bind ls ++ serves_core ∷ []))
  unfolding run_serve Builder.new
  run_serve_iff bind env addrs tasks = (
    λ e.
        let (b, f, g) = bind_done (serve_addrs env addrs Builder.new) _ tasks e in
        let (r, h, k) = bind_done (from_bus describe (build bind b)) _ tasks g in
        let (ls, all, p) = serve_addrs-AllResolve env addrs Builder.new b f in
        let (binds, same) =
          built-tasks bind b r ls tasks (from_bus-done describe (build bind b) r h) p
            (ground (arith, k)) in
        (ls, all, binds, same),
    λ (ls, all, binds, e).
        rw
          (
            AllResolve-serve_addrs env addrs Builder.new ls all,
            build-ok bind (record { listeners = ls }) binds,
          )
          (sym (ap (λ ts. done ts) e)),
  )
