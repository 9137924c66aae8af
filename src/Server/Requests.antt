-- ===== src/Server/Requests.antt =====
-- Requests, responses and their timeouts.
use t2_bus.Base.{
  ℕ, ◌+◌, ◌%◌, ◌==◌, not, ◌&&◌, true, false, Option-cases, inl, inr, ◌∷◌, List, none, some, lookup,
  put, delete, lookup-put, lookup-delete, ◌≡◌, ◌≢◌, refl, arith,
}
use t2_bus.Text.{Text}
use t2_bus.Err.{ok, err, service_not_found, invalid_request_id}
use t2_bus.Directory
use t2_bus.Exec.{◌>>=◌}
use t2_bus.Protocol.{ProtocolServer, ReqMsg, RspMsg, timeout}
use t2_bus.Server.{
  Core, Channel, Task, request_timeout, PendingResponse, enqueue, request, send_request, u32_mod,
  respond, send_response, process_task, run, ended, empty_payload,
}
use t2_bus.Server.Delivery.{delivered, deliver_open}

module _ (send_error : Text) where
  -- The state after a request reached its server: the request is in the server's queue under a new
  -- id, the response is awaited under that id, and its timer runs.
  abbrev pub requested : ℕ → ℕ → ℕ → Channel → ReqMsg → Core → Core
  requested client id server c params s =
      record (delivered server c (ProtocolServer.req params) s) {
        pending_responses =
            put s.next_msg_id
              (record { request_id = id; responder_id = server; requester_id = client })
              s.pending_responses;
        timers = s.next_msg_id ∷ s.timers;
      }

  pub request_routed :
      (client id server : ℕ) (c : Channel) (params : ReqMsg) (s : Core)
      → Directory.get_owner params.topic s.directory ≡ some server
      → lookup server s.senders ≡ some c
      → c.is_open ≡ true
      → request send_error client id params s ≡ (ok tt, requested client id server c params s)
  unfolding request send_request ◌>>=◌
  request_routed client id server c params s own e o =
      rw (own, send_request)
        (rw (deliver_open send_error server (ProtocolServer.req params) s c e o))

  pub request_unserved :
      (client id : ℕ) (params : ReqMsg) (s : Core)
      → Directory.get_owner params.topic s.directory ≡ none
      → request send_error client id params s ≡ (err (service_not_found params.topic), s)
  unfolding request send_request ◌>>=◌
  request_unserved client id params s own = rw (own, send_request)

  -- The state after a response reached its requester, under the requester's own id.
  abbrev pub responded : PendingResponse → Channel → RspMsg → Core → Core
  responded p c params s =
      delivered p.requester_id c (ProtocolServer.rsp (record params { req_id = p.request_id }))
        (record s { pending_responses = delete params.req_id s.pending_responses })

  respond_allowed :
      (client : ℕ) (p : PendingResponse) (c : Channel) (params : RspMsg) (s : Core)
      → lookup params.req_id s.pending_responses ≡ some p
      → (not (client == 0) && not (p.responder_id == client)) ≡ false
      → lookup p.requester_id s.senders ≡ some c
      → c.is_open ≡ true
      → respond send_error client params s ≡ (ok tt, responded p c params s)
  unfolding respond send_response ◌>>=◌
  respond_allowed client p c params s e allowed l o =
      rw (e, send_response)
        (rw allowed (
          rw (
            deliver_open send_error p.requester_id
              (ProtocolServer.rsp (record params { req_id = p.request_id }))
              (record s { pending_responses = delete params.req_id s.pending_responses }) c l o)))

  pub respond_routed :
      (client : ℕ) (p : PendingResponse) (c : Channel) (params : RspMsg) (s : Core)
      → lookup params.req_id s.pending_responses ≡ some p
      → p.responder_id ≡ client
      → lookup p.requester_id s.senders ≡ some c
      → c.is_open ≡ true
      → respond send_error client params s ≡ (ok tt, responded p c params s)
  respond_routed client p c params s e own l o =
      respond_allowed client p c params s e (ground (arith, own)) l o

  -- A response to an unknown request, or from a client that the request was not sent to, is refused
  -- and changes nothing.
  pub respond_refused :
      (client : ℕ) (params : RspMsg) (s : Core)
      → ((p : PendingResponse)
          → lookup params.req_id s.pending_responses ≡ some p
          → (client ≢ 0) × (p.responder_id ≢ client))
      → respond send_error client params s ≡ (err invalid_request_id, s)
  unfolding respond send_response ◌>>=◌
  respond_refused client params s wrong =
      elim (Option-cases (lookup params.req_id s.pending_responses)) [
        | inl e ↦ rw (e, send_response)
        | inr (p, e) ↦
            let (nz, other) = wrong p e in
            let refused : (not (client == 0) && not (p.responder_id == client)) ≡ true =
              ground (arith, nz, other) in
            rw (e, send_response) (rw refused)
      ]

  -- A request and the answer to it: between a client and the server of a topic, whose channels are
  -- open, the requester ends up with the answer under the id that it gave to the request, the
  -- request is no longer pending, and a second answer is refused.
  pub request_response :
      (client id server : ℕ) (c d : Channel) (params : ReqMsg) (answer : RspMsg) (s : Core)
      → client ≢ server
      → Directory.get_owner params.topic s.directory ≡ some server
      → lookup server s.senders ≡ some c
      → c.is_open ≡ true
      → lookup client s.senders ≡ some d
      → d.is_open ≡ true
      → server ≢ 0
      → answer.req_id ≡ s.next_msg_id
      → let s₁ = (request send_error client id params s).1 in
        let s₂ = (respond send_error server answer s₁).1 in
        (lookup server s₁.senders
          ≡ some (enqueue c (record { id = s.next_msg_id; content = ProtocolServer.req params })))
        × (lookup client s₂.senders
            ≡ some (
                enqueue d (record {
                  id = (s.next_msg_id + 1) % u32_mod;
                  content = ProtocolServer.rsp (record answer { req_id = id });
                })))
        × ((respond send_error server answer s₁).0 ≡ ok tt)
        × (respond send_error server answer s₂ ≡ (err invalid_request_id, s₂))
  request_response client id server c d params answer s ne own e o e' o' nz same =
      let s₁ = requested client id server c params s in
      let p : PendingResponse = record {
        request_id = id;
        responder_id = server;
        requester_id = client;
      } in
      let sent : request send_error client id params s ≡ (ok tt, s₁) =
        request_routed client id server c params s own e o in
      let awaited : lookup answer.req_id s₁.pending_responses ≡ some p =
        ground (arith, lookup-put s.next_msg_id answer.req_id p s.pending_responses) in
      let back : lookup client s₁.senders ≡ some d = ground (
        arith,
        lookup-put server client
            (enqueue c (record { id = s.next_msg_id; content = ProtocolServer.req params }))
            s.senders,
      ) in
      let answered : respond send_error server answer s₁ ≡ (ok tt, responded p d answer s₁) =
        respond_routed server p d answer s₁ awaited refl back o' in
      rw (sent, answered)
        (
          ground (
            arith,
            lookup-put server server
                (enqueue c (record { id = s.next_msg_id; content = ProtocolServer.req params }))
                s.senders,
          ),
          ground (
            arith,
            lookup-put client client
                (enqueue d (record {
                  id = s₁.next_msg_id;
                  content = ProtocolServer.rsp (record answer { req_id = id });
                }))
                s₁.senders,
          ),
          refl,
          respond_refused server answer (responded p d answer s₁) (λ q gone.
              ground (arith, lookup-delete answer.req_id answer.req_id s₁.pending_responses)),
        )

  process_missing_timeout :
      (id : ℕ) (s : Core)
      → lookup id s.pending_responses ≡ none
      → process_task send_error (request_timeout id) s ≡ (err invalid_request_id, s)
  unfolding process_task ◌>>=◌
  process_missing_timeout id s e = rw (
      respond_refused 0 (record { req_id = id; status = timeout; payload = empty_payload }) s
        (λ q found. absurd (cc (e, found))))

  -- A timeout that finds nothing pending ends the loop of the server.
  run_missing_timeout :
      (id : ℕ) (s : Core) (tasks : List Task)
      → lookup id s.pending_responses ≡ none
      → run send_error (request_timeout id ∷ tasks) s ≡ (ended (err invalid_request_id), s)
  unfolding run
  run_missing_timeout id s tasks e = ground (arith, process_missing_timeout id s e)

  -- Once a request has been answered its timer still fires. The timeout finds nothing pending, and
  -- the error ends the loop of the server: every task behind it is lost.
  pub answered_timeout_ends_server :
      (client : ℕ) (p : PendingResponse) (c : Channel) (params : RspMsg) (s : Core)
      (tasks : List Task)
      → lookup params.req_id s.pending_responses ≡ some p
      → p.responder_id ≡ client
      → lookup p.requester_id s.senders ≡ some c
      → c.is_open ≡ true
      → let s' = (respond send_error client params s).1 in
        ((respond send_error client params s).0 ≡ ok tt)
        × (run send_error (request_timeout params.req_id ∷ tasks) s'
            ≡ (ended (err invalid_request_id), s'))
  answered_timeout_ends_server client p c params s tasks e own l o =
      rw (respond_routed client p c params s e own l o) (
        refl,
        run_missing_timeout params.req_id (responded p c params s) tasks
            (ground (arith, lookup-delete params.req_id params.req_id s.pending_responses)),
      )

  -- A timeout of a request that is still pending answers the requester in place of the server, if
  -- the requester's channel is open, and the server goes on.
  pub pending_timeout :
      (id : ℕ) (p : PendingResponse) (c : Channel) (s : Core)
      → lookup id s.pending_responses ≡ some p
      → lookup p.requester_id s.senders ≡ some c
      → c.is_open ≡ true
      → process_task send_error (request_timeout id) s ≡ (
        ok false,
        responded p c (record { req_id = id; status = timeout; payload = empty_payload }) s,
      )
  unfolding process_task ◌>>=◌
  pending_timeout id p c s e l o = rw (
      respond_allowed 0 p c (record { req_id = id; status = timeout; payload = empty_payload }) s e
        refl l o)
