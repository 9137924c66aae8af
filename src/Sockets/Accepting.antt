-- ===== src/Sockets/Accepting.antt =====
-- A listener (src/server/listen.rs) over TLS (src/transport/tls.rs), with each connection that reaches it.
use mathlib.Core.List.{append-nil, append_assoc}
use t2_bus.Base.{true, false, List, [], ◌∷◌, ◌++◌, ◌≡◌, refl, arith}
use t2_bus.Text.{Text}
use t2_bus.Err.{io_error, Result, ok, err, panic}
use t2_bus.Exec.{◌>>=◌}
use t2_bus.Server.{Task, register, ended}
use t2_bus.Server.Listen.{
  ListenTask, ListenSignal, accepted, listen_round, listen_loop, register_channel,
}
use t2_bus.Server.Stopping.{process_of, stopper_of}
use t2_bus.Stopper.{waits, multi_join, joins, join, join_all, runs}
use t2_bus.Sockets.{IoResult, done, failed}
use t2_bus.Sockets.Tls.{tls_accept}

-- Whether accepting gives a connection; what it carries is not told apart by the listener.
abbrev pub status : {Stream : Type 0} → Result Stream → Result (Unit {0})
status (ok stream) = ok tt
status (err e) = err e
status panic = panic

module _ {Socket Addr Stream : Type 0} (handshake : Socket → IoResult Stream) where
  -- The signals of connections that reach the socket one after the other.
  abbrev pub arrivals : List (Socket × Addr) → List ListenSignal
  arrivals [] = []
  arrivals (c ∷ cs) = accepted (status (tls_accept (done c) handshake)) ∷ arrivals cs

  abbrev pub AllShake : List (Socket × Addr) → Type 0
  AllShake [] = Unit
  AllShake ((socket, addr) ∷ cs) =
      ((stream : Stream) × (handshake socket ≡ done stream)) × AllShake cs

  abbrev pub registers : List (Socket × Addr) → List Task
  registers [] = []
  registers (c ∷ cs) = register ∷ registers cs

  -- The first one with which the handshake fails.
  listen_loop-arrivals :
      (before after : List (Socket × Addr)) (c : Socket × Addr) (e : Text) (l : ListenTask)
      → l.is_core_there ≡ true
      → AllShake before
      → handshake c.0 ≡ failed e
      → listen_loop (arrivals (before ++ c ∷ after)) l
        ≡ (ended (err (io_error e)), record l { tasks = l.tasks ++ registers before })
  unfolding listen_loop listen_round tls_accept ◌>>=◌
  listen_loop-arrivals [] after c e l there h f = ground (arith, f, append-nil l.tasks)
  listen_loop-arrivals (d ∷ before) after c e l there ((stream, g), h) f =
      let next = record l { tasks = l.tasks ++ register ∷ [] } in
      let rest = listen_loop-arrivals before after c e next there h f in
      let shaken : listen_round (accepted (status (tls_accept (done d) handshake))) l
          ≡ (ok false, next) =
        unfold listen_round in unfold register_channel in ground (arith, g, there) in
      ground (arith, shaken, rest, append_assoc l.tasks (register ∷ []) (registers before))

  -- Connections reach a listener over TLS, with the core there and its loop still to run; with all of
  -- the first ones the handshake succeeds, and with the next one it fails. Then the loop ends with
  -- that error: the first ones are registered, and none after them. Waiting for the stoppers of the
  -- listener and of a core that runs still gives no answer.
  pub failed_handshake_ends :
      (text : Text) (before after : List (Socket × Addr)) (c : Socket × Addr) (e : Text)
      (l : ListenTask)
      → l.is_core_there ≡ true
      → AllShake before
      → handshake c.0 ≡ failed e
      → let (st, l') = listen_loop (arrivals (before ++ c ∷ after)) l in
        (st ≡ ended (err (io_error e)))
        × (l'.tasks ≡ l.tasks ++ registers before)
        × (multi_join (stopper_of (process_of text st) ∷ stopper_of runs ∷ []) ≡ waits)
  unfolding multi_join joins join join_all
  failed_handshake_ends text before after c e l there h f =
      rw (listen_loop-arrivals before after c e l there h f) (refl, refl, refl)
