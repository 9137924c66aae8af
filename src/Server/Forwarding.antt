-- ===== src/Server/Forwarding.antt =====
-- What a stub (src/server/client_stub.rs) hands to the core.
use mathlib.Core.List.{append-nil, append_assoc}
use t2_bus.Base.{
  ℕ, true, false, Option, none, some, Option-cases, List, [], ◌∷◌, ◌++◌, ◌≡◌, refl, ap, sym, ◌∙◌,
  ◌⊎◌, inl, inr, arith,
}
use t2_bus.Err.{BusError, Result, ok, err, channel_closed, client_timeout}
use t2_bus.Exec.{◌>>=◌}
use t2_bus.Protocol.{Msg, ProtocolServer}
use t2_bus.Server.{Task, message, deregister, running, ended, status_of}
use t2_bus.Server.Stub.{
  ClientStub, StubSignal, received, transport_error, transport_end, from_core, core_end, tick,
  send_task, transmit, serve_round, serve_loop, finish, serve,
}

-- The messages among the signals, as tasks of the core.
abbrev pub messages_of : ℕ → List StubSignal → List Task
messages_of id [] = []
messages_of id (received m ∷ signals) = message id m ∷ messages_of id signals
messages_of id (_ ∷ signals) = messages_of id signals

-- The messages of the core among the signals.
abbrev pub replies_of : List StubSignal → List (Msg ProtocolServer)
replies_of [] = []
replies_of (from_core m ∷ signals) = m ∷ replies_of signals
replies_of (_ ∷ signals) = replies_of signals

-- How a signal ends the stub of client `id`, if it does, where `broken` is the error of its transport.
abbrev pub ending : ℕ → Option BusError → StubSignal → Option (Result (Unit {0}))
ending id broken (received m) = none
ending id broken (transport_error e) = some (err e)
ending id broken transport_end = some (err channel_closed)
ending id none (from_core m) = none
ending id (some e) (from_core m) = some (err e)
ending id broken core_end = some (ok tt)
ending id broken tick = some (err (client_timeout id))

-- No signal ends the stub.
abbrev pub AllGoOn : ℕ → Option BusError → List StubSignal → Type 0
AllGoOn id broken [] = Unit
AllGoOn id broken (x ∷ signals) = (ending id broken x ≡ none) × AllGoOn id broken signals

-- A stub that has handled the signals without an end.
abbrev pub handled : ClientStub → List StubSignal → ClientStub
handled s signals = record s {
  tasks = s.tasks ++ messages_of s.id signals;
  sent = s.sent ++ replies_of signals;
}

round_goes_on :
    (x : StubSignal) (s : ClientStub)
    → s.is_core_there ≡ true
    → ending s.id s.broken x ≡ none
    → serve_round x s ≡ (ok false, handled s (x ∷ []))
unfolding serve_round send_task transmit ◌>>=◌
round_goes_on (received m) s h e = ground (arith, h, append-nil s.sent)
round_goes_on (transport_error b) s h e = absurd (ground (arith, e))
round_goes_on transport_end s h e = absurd (ground (arith, e))
round_goes_on (from_core m) s h e = elim (Option-cases s.broken) [
  | inl b ↦ ground (arith, b, append-nil s.tasks)
  | inr (t, b) ↦ absurd (ground (arith, b, e))
]
round_goes_on core_end s h e = absurd (ground (arith, e))
round_goes_on tick s h e = absurd (ground (arith, e))

round_ends :
    (x : StubSignal) (s : ClientStub) (r : Result (Unit {0}))
    → ending s.id s.broken x ≡ some r
    → (status_of (serve_round x s).0 ≡ ended r) × ((serve_round x s).1 ≡ s)
unfolding serve_round transmit ◌>>=◌
round_ends (received m) s r e = absurd (ground (arith, e))
round_ends (transport_error b) s r e = (ground (arith, e), refl)
round_ends transport_end s r e = (ground (arith, e), refl)
round_ends (from_core m) s r e = elim (Option-cases s.broken) [
  | inl b ↦ absurd (ground (arith, b, e))
  | inr (t, b) ↦ (ground (arith, b, e), ground (arith, b))
]
round_ends core_end s r e = (ground (arith, e), refl)
round_ends tick s r e = (ground (arith, e), refl)

-- One signal after the other is as good as all of them.
handled-cons :
    (x : StubSignal) (signals : List StubSignal) (s : ClientStub)
    → handled (handled s (x ∷ [])) signals ≡ handled s (x ∷ signals)
handled-cons (received m) signals s = ground (
  arith,
  append-nil s.sent,
  append_assoc s.tasks (message s.id m ∷ []) (messages_of s.id signals),
)
handled-cons (from_core m) signals s =
    ground (arith, append-nil s.tasks, append_assoc s.sent (m ∷ []) (replies_of signals))
handled-cons (transport_error b) signals s = ground (arith, append-nil s.tasks, append-nil s.sent)
handled-cons transport_end signals s = ground (arith, append-nil s.tasks, append-nil s.sent)
handled-cons core_end signals s = ground (arith, append-nil s.tasks, append-nil s.sent)
handled-cons tick signals s = ground (arith, append-nil s.tasks, append-nil s.sent)

serve_loop-on :
    (x : StubSignal) (signals : List StubSignal) (s : ClientStub)
    → s.is_core_there ≡ true
    → ending s.id s.broken x ≡ none
    → serve_loop (x ∷ signals) s ≡ serve_loop signals (handled s (x ∷ []))
unfolding serve_loop
serve_loop-on x signals s h e = ground (arith, round_goes_on x s h e)

serve_loop-end :
    (x : StubSignal) (signals : List StubSignal) (s : ClientStub) (r : Result (Unit {0}))
    → ending s.id s.broken x ≡ some r
    → serve_loop (x ∷ signals) s ≡ (ended r, s)
unfolding serve_loop
serve_loop-end x signals s r e = let (f, g) = round_ends x s r e in ground (arith, f, g)

-- Signals without an end, all of them or up to one that ends the stub.
serve_loop_all :
    (signals rest : List StubSignal) (s : ClientStub)
    → s.is_core_there ≡ true
    → AllGoOn s.id s.broken signals
    → serve_loop (signals ++ rest) s ≡ serve_loop rest (handled s signals)
serve_loop_all [] rest s h a =
    ap (λ s'. serve_loop rest s') (ground (arith, append-nil s.tasks, append-nil s.sent))
serve_loop_all (x ∷ signals) rest s h (e, a) =
    serve_loop-on x (signals ++ rest) s h e
    ∙ serve_loop_all signals rest (handled s (x ∷ [])) h a
    ∙ ap (λ s'. serve_loop rest s') (handled-cons x signals s)

-- The signals before the first one that ends a stub, that one, the others, and how it ends.
abbrev pub FirstEnd : ℕ → Option BusError → List StubSignal → Type 0
FirstEnd id broken signals =
    (before : List StubSignal) × (x : StubSignal) × (rest : List StubSignal) × (r : Result
      (Unit {0}))
    × (signals ≡ before ++ x ∷ rest)
    × AllGoOn id broken before
    × (ending id broken x ≡ some r)

first_end :
    (id : ℕ) (broken : Option BusError) (signals : List StubSignal)
    → AllGoOn id broken signals ⊎ FirstEnd id broken signals
first_end id broken [] = inl tt
first_end id broken (x ∷ signals) = elim (Option-cases (ending id broken x)) [
  | inr (r, e) ↦ inr ([], x, signals, r, refl, tt, e)
  | inl e ↦ elim (first_end id broken signals) [
    | inl a ↦ inl (e, a)
    | inr (before, y, rest, r, f, a, g) ↦
        inr (x ∷ before, y, rest, r, ap (λ ys. x ∷ ys) f, (e, a), g)
  ]
]

-- With the core there, the stub says goodbye when it has ended.
abbrev pub gone : ClientStub → ClientStub
gone s = record s { tasks = s.tasks ++ deregister s.id ∷ [] }

finish_ended :
    (r : Result (Unit {0})) (s : ClientStub)
    → s.is_core_there ≡ true
    → finish (ended r, s) ≡ (ended r, gone s)
unfolding send_task
finish_ended r s h = ground (arith, h)

-- While the core is there: where no signal ends the stub, it still runs, and has handed the core every
-- message that arrived from its client, under the client's id, and the transport every message of the
-- core, both in their order and each once. Otherwise it has done so with the signals before the first
-- one that ends it, an error or the end of the transport, a message for a broken transport, the end of
-- the core's channel or the tick of the timer; it has ended with what belongs to that one, and one
-- Deregister stands behind the messages.
pub serve_forwards :
    (signals : List StubSignal) (s : ClientStub)
    → s.is_core_there ≡ true
    → (AllGoOn s.id s.broken signals × (serve signals s ≡ (running, handled s signals)))
      ⊎ ((before : List StubSignal) × (x : StubSignal) × (rest : List StubSignal) × (r : Result
            (Unit {0}))
          × (signals ≡ before ++ x ∷ rest)
          × AllGoOn s.id s.broken before
          × (ending s.id s.broken x ≡ some r)
          × (serve signals s ≡ (ended r, gone (handled s before))))
unfolding serve serve_loop
serve_forwards signals s h = elim (first_end s.id s.broken signals) [
  | inl a ↦ inl (
    a,
    ap finish
        (ap (λ xs. serve_loop xs s) (sym (append-nil signals)) ∙ serve_loop_all signals [] s h a),
  )
  | inr (before, x, rest, r, e, a, f) ↦
      let looped : serve_loop signals s ≡ (ended r, handled s before) =
        ap (λ xs. serve_loop xs s) e
        ∙ serve_loop_all before (x ∷ rest) s h a
        ∙ serve_loop-end x rest (handled s before) r f in
      inr (before, x, rest, r, e, a, f, ap finish looped ∙ finish_ended r (handled s before) h)
]
