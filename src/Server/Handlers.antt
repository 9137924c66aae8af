-- ===== src/Server/Handlers.antt =====
-- The invariant along the server's handlers and deliveries (src/server/core.rs).
use t2_bus.Base.{ℕ, List, [], ◌∷◌, Option, none, some, lookup, ◌≡◌, ◌≢◌, refl, Bool-cases, inl, inr}
use t2_bus.Err.{Result, ok, err, panic}
use t2_bus.Text.{Text}
use t2_bus.Exec.{◌>>=◌}
use t2_bus.Exec.Keeps.{
  Keeps, keeps_rules, modify-Keeps, bind-Keeps, if-Keeps, raise-Keeps, pure-Keeps, crash-Keeps,
}
use t2_bus.Protocol.{PubMsg, ReqMsg, RspMsg, Msg, ProtocolClient, ProtocolServer}
use t2_bus.Server.{
  Core, PendingResponse, Channel, new_msg, send_to, deliver, send_request, request, send_response,
  respond, deliver_all, publish, handle, process_msg, acknowledge, ignore_error, is_stop,
}
use t2_bus.Server.Invariant.{
  IsValid, sender-ne-zero, deregister_client-IsValid, pending-IsValid, answered-IsValid,
  new_msg-IsValid, sent-IsValid, subscribe-IsValid, unsubscribe-IsValid, claim-IsValid,
  unclaim-IsValid,
}

module _ {n : ℕ} where
  ignore_error-IsValid :
      {A : Type 0} (o : Result A × Core) → IsValid n o.1 → IsValid n (ignore_error o).1
  ignore_error-IsValid (ok a, s) v = v
  ignore_error-IsValid (err e, s) v = v
  ignore_error-IsValid (panic, s) v = v

  module _ (send_error : Text) where
    send_to-IsValid :
        (client : ℕ) (m : Msg ProtocolServer) (r : Option Channel) (s : Core)
        → lookup client s.senders ≡ r
        → IsValid n s
        → IsValid n (send_to send_error client m r s).1
    unfolding send_to ◌>>=◌
    send_to-IsValid client m none s e v = v
    send_to-IsValid client m (some c) s e v = elim (Bool-cases c.is_open) [
      | inl yes_open ↦ rw (yes_open) (sent-IsValid client c _ s e v)
      | inr closed ↦
          rw closed ((deregister_client-IsValid client (sender-ne-zero client c s e v)).keeps s v)
    ]

    pub deliver-IsValid :
        (client : ℕ) (payload : ProtocolServer)
        → Keeps (IsValid n) (deliver send_error client payload)
    unfolding deliver new_msg ◌>>=◌
    deliver-IsValid client payload = record {
      keeps =
          λ s v. send_to-IsValid client _ (lookup client s.senders) _ refl (new_msg-IsValid _ s v);
    }

    send_request-IsValid :
        (client id : ℕ) (params : ReqMsg) (r : Option ℕ)
        → Keeps (IsValid n) (send_request send_error client id params r)
    unfolding send_request
    send_request-IsValid client id params none = search keeps_rules
    send_request-IsValid client id params (some server) =
        bind-Keeps _ _ (deliver-IsValid server _)
          λ msg_id. modify-Keeps _ (λ s. pending-IsValid msg_id _ _ s)

    request-IsValid :
        (client id : ℕ) (params : ReqMsg) → Keeps (IsValid n) (request send_error client id params)
    unfolding request
    request-IsValid client id params = search (keeps_rules, send_request-IsValid)

    send_response-IsValid :
        (client : ℕ) (params : RspMsg) (r : Option PendingResponse)
        → Keeps (IsValid n) (send_response send_error client params r)
    unfolding send_response
    send_response-IsValid client params none = search keeps_rules
    send_response-IsValid client params (some p) = if-Keeps _ _ _ (raise-Keeps _) (
        bind-Keeps _ _ (modify-Keeps _ (answered-IsValid params.req_id)) λ _.
          bind-Keeps _ _
            (deliver-IsValid p.requester_id
              (ProtocolServer.rsp (record params { req_id = p.request_id })))
            λ _. pure-Keeps tt)

    pub respond-IsValid :
        (client : ℕ) (params : RspMsg) → Keeps (IsValid n) (respond send_error client params)
    unfolding respond
    respond-IsValid client params = search (keeps_rules, send_response-IsValid)

    deliver_all-IsValid :
        (params : PubMsg) (ids : List ℕ) → Keeps (IsValid n) (deliver_all send_error params ids)
    unfolding deliver_all
    deliver_all-IsValid params [] = pure-Keeps tt
    deliver_all-IsValid params (id ∷ ids) =
        if-Keeps _ _ _ crash-Keeps
          (bind-Keeps _ _ (deliver-IsValid id _) λ _. deliver_all-IsValid params ids)

    publish-IsValid : (params : PubMsg) → Keeps (IsValid n) (publish send_error params)
    unfolding publish
    publish-IsValid params = search (keeps_rules, deliver_all-IsValid)

    handle-IsValid :
        (client id : ℕ) (m : ProtocolClient)
        → client ≢ 0
        → Keeps (IsValid n) (handle send_error client id m)
    unfolding handle
    handle-IsValid client id (ProtocolClient.publish params) nz =
        search (keeps_rules, publish-IsValid)
    handle-IsValid client id (ProtocolClient.sub t) nz =
        bind-Keeps _ _ (record { keeps = subscribe-IsValid client t nz }) λ _. pure-Keeps none
    handle-IsValid client id (ProtocolClient.unsub t) nz =
        bind-Keeps _ _ (record { keeps = unsubscribe-IsValid client t nz }) λ _. pure-Keeps none
    handle-IsValid client id (ProtocolClient.srv t) nz =
        bind-Keeps _ _ (record { keeps = claim-IsValid client t nz }) λ _. pure-Keeps none
    handle-IsValid client id (ProtocolClient.unsrv t) nz =
        bind-Keeps _ _ (record { keeps = unclaim-IsValid client t nz }) λ _. pure-Keeps none
    handle-IsValid client id (ProtocolClient.req params) nz = search (keeps_rules, request-IsValid)
    handle-IsValid client id (ProtocolClient.rsp params) nz = search (keeps_rules, respond-IsValid)
    handle-IsValid client id ProtocolClient.stop nz = pure-Keeps none
    handle-IsValid client id ProtocolClient.keep_alive nz = pure-Keeps none

    acknowledge-IsValid :
        (client id : ℕ) (r : Result (Option ℕ)) (s : Core)
        → IsValid n s
        → IsValid n (acknowledge send_error client id (r, s)).1
    acknowledge-IsValid client id panic s v = v
    acknowledge-IsValid client id (ok k) s v =
        ignore_error-IsValid _ ((deliver-IsValid client _).keeps s v)
    acknowledge-IsValid client id (err e) s v =
        ignore_error-IsValid _ ((deliver-IsValid client _).keeps s v)

    pub process_msg-IsValid :
        (client : ℕ) (m : Msg ProtocolClient)
        → client ≢ 0
        → Keeps (IsValid n) (process_msg send_error client m)
    unfolding process_msg
    process_msg-IsValid client m nz =
        bind-Keeps _ _
          (record {
            keeps = λ s v.
                let (r, s') = handle send_error client m.id m.content s in
                acknowledge-IsValid client m.id r s'
                  ((handle-IsValid client m.id m.content nz).keeps s v);
          })
          λ _. pure-Keeps (is_stop m.content)
