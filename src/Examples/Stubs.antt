-- ===== src/Examples/Stubs.antt =====
-- A stub that forwards one message, and is then silent for too long.
use t2_bus.Base.{true, List, [], ◌∷◌, ◌++◌, none, some, ◌⊎◌, ◌≡◌, refl}
use t2_bus.Err.{Result}
use t2_bus.Protocol.{Msg, ProtocolClient}
use t2_bus.Server.{running, ended, message, deregister}
use t2_bus.Server.Stub.{StubSignal, ClientStub, received, tick, serve}
use t2_bus.Server.Forwarding.{AllGoOn, ending, handled, gone, serve_forwards}

abbrev idle : ClientStub
idle = record { id = 3; is_core_there = true; tasks = []; sent = []; broken = none }

abbrev beat : Msg ProtocolClient
beat = record { id = 1; content = ProtocolClient.keep_alive }

deregisters : (serve (received beat ∷ tick ∷ []) idle).1.tasks ≡ message 3 beat ∷ deregister 3 ∷ []
unfolding serve
deregisters = refl

serve_forwards_example :
    let signals = received beat ∷ tick ∷ received beat ∷ [] in
    (AllGoOn 3 none signals × (serve signals idle ≡ (running, handled idle signals)))
    ⊎ ((before : List StubSignal) × (x : StubSignal) × (rest : List StubSignal) × (r : Result
          (Unit {0}))
        × (signals ≡ before ++ x ∷ rest)
        × AllGoOn 3 none before
        × (ending 3 none x ≡ some r)
        × (serve signals idle ≡ (ended r, gone (handled idle before))))
serve_forwards_example = serve_forwards (received beat ∷ tick ∷ received beat ∷ []) idle refl
