-- ===== src/System/Answers.antt =====
-- The answers that a client can still get, along the tasks of the server (src/server/core.rs).
use t2_bus.Base.{
  ℕ, ◌+◌, ◌≤◌, ◌==◌, if◌then◌else◌, false, not, ◌&&◌, Bool-cases, inl, inr, List, [], ◌∷◌, Option,
  none, some, lookup, put, delete, ◌≡◌, refl, arith,
}
use t2_bus.Text.{Text}
use t2_bus.Err.{Result, ok, err, panic}
use t2_bus.Exec.{Exec, pure, modify, continue, ◌>>=◌}
use t2_bus.Exec.Keeps.{Keeps, keeps_rules, bind-Keeps, if-Keeps, pure-Keeps, crash-Keeps, then_pure}
use t2_bus.Protocol.{timeout, PubMsg, ReqMsg, RspMsg, Msg, ProtocolClient, ProtocolServer}
use t2_bus.Directory
use t2_bus.Directory.{Directory, Outcome}
use t2_bus.Server.{
  empty_payload, Core, PendingResponse, Task, register, deregister, message, request_timeout,
  in_directory, deliver, send_request, request, ack_of, send_response, respond, deliver_all,
  publish, handle, is_stop, process_msg, acknowledge, ignore_error, process_task,
}
use t2_bus.System.Owed.{
  answers, owed, asked, deliver-owed, deregister_client-owed, register_client-owed,
  pending_count-delete_found, pending_count-put,
}

-- Whether a message of a client is request `x`.
abbrev pub asks : ℕ → ℕ → ProtocolClient → ℕ
asks x id (ProtocolClient.req params) = if id == x then 1 else 0
asks x id (ProtocolClient.sub t) = 0
asks x id (ProtocolClient.publish params) = 0
asks x id (ProtocolClient.srv t) = 0
asks x id (ProtocolClient.rsp params) = 0
asks x id (ProtocolClient.unsub t) = 0
asks x id (ProtocolClient.unsrv t) = 0
asks x id ProtocolClient.stop = 0
asks x id ProtocolClient.keep_alive = 0

module _ (i x : ℕ) where
  abbrev AtMost : ℕ → Core → Type 0
  AtMost n s = owed i x s ≤ n

  module _ (send_error : Text) {n : ℕ} where
    deliver-AtMost :
        (client : ℕ) (payload : ProtocolServer)
        → answers x payload ≡ 0
        → Keeps (AtMost n) (deliver send_error client payload)
    deliver-AtMost client payload e = record {
      keeps = λ s h. ground (arith, h, e, deliver-owed i x send_error client payload s);
    }

    in_directory-AtMost : (f : Directory → Outcome) → Keeps (AtMost n) (in_directory f)
    in_directory-AtMost f = record { keeps = λ s h. h }

    send_response-AtMost :
        (client : ℕ) (params : RspMsg) (r : Option PendingResponse) (s : Core)
        → lookup params.req_id s.pending_responses ≡ r
        → AtMost n s
        → AtMost n (send_response send_error client params r s).1
    unfolding send_response ◌>>=◌
    send_response-AtMost client params none s e h = h
    send_response-AtMost client params (some p) s e h =
        let s' = record s { pending_responses = delete params.req_id s.pending_responses } in
        let answer = ProtocolServer.rsp (record params { req_id = p.request_id }) in
        elim (Bool-cases (not (client == 0) && not (p.responder_id == client))) [
          | inl refused ↦ rw refused h
          | inr allowed ↦ rw allowed (
              ground (
                arith,
                h,
                pending_count-delete_found i x params.req_id p s.pending_responses e,
                deliver-owed i x send_error p.requester_id answer s',
              ))
        ]

    respond-AtMost :
        (client : ℕ) (params : RspMsg) → Keeps (AtMost n) (respond send_error client params)
    unfolding respond ◌>>=◌
    respond-AtMost client params = record {
      keeps = λ s h.
          send_response-AtMost client params (lookup params.req_id s.pending_responses) s refl h;
    }

    deliver_all-AtMost :
        (params : PubMsg) (ids : List ℕ) → Keeps (AtMost n) (deliver_all send_error params ids)
    unfolding deliver_all
    deliver_all-AtMost params [] = pure-Keeps tt
    deliver_all-AtMost params (id ∷ ids) =
        if-Keeps _ _ _ crash-Keeps
          (bind-Keeps _ _ (deliver-AtMost id _ refl) λ _. deliver_all-AtMost params ids)

    publish-AtMost : (params : PubMsg) → Keeps (AtMost n) (publish send_error params)
    unfolding publish
    publish-AtMost params = search (keeps_rules, deliver_all-AtMost)

  module _ (send_error : Text) where
    -- A request adds itself if it is the client's.
    abbrev asking : ℕ → ℕ → ProtocolClient → ℕ
    asking client id m = if client == i then asks x id m else 0

    -- The entry that a routed request leaves.
    recorded-owed :
        (p : PendingResponse) (r : Result ℕ) (s : Core)
        → owed i x
            (continue r
              (λ msg_id. modify λ s. record s {
                pending_responses = put msg_id p s.pending_responses;
                timers = msg_id ∷ s.timers;
              })
              s).1
          ≤ owed i x s + asked i x p
    recorded-owed p (ok k) s = omega (arith, pending_count-put i x k p s.pending_responses)
    recorded-owed p (err e) s = omega arith
    recorded-owed p panic s = omega arith

    send_request-owed :
        (client id : ℕ) (params : ReqMsg) (r : Option ℕ) (s : Core)
        → owed i x (send_request send_error client id params r s).1
          ≤ owed i x s + asking client id (ProtocolClient.req params)
    unfolding send_request ◌>>=◌
    send_request-owed client id params none s = omega arith
    send_request-owed client id params (some server) s =
        let p : PendingResponse = record {
          request_id = id;
          requester_id = client;
          responder_id = server;
        } in
        let (r, s') = deliver send_error server (ProtocolServer.req params) s in
        ground (
          arith,
          recorded-owed p r s',
          deliver-owed i x send_error server (ProtocolServer.req params) s,
        )

    -- A handler that adds nothing, and what it answers.
    none_added :
        {A B : Type 0} (m : Exec Core A) (f : A → B) (client id : ℕ) (k : ProtocolClient) (s : Core)
        → Keeps (AtMost (owed i x s)) m
        → owed i x ((m >>= λ a. pure (f a)) s).1 ≤ owed i x s + asking client id k
    none_added m f client id k s h =
        let kept =
          (bind-Keeps m (λ a. pure (f a)) h (λ a. pure-Keeps (f a))).keeps s (omega arith) in
        omega (arith, kept)

    handle-owed :
        (client id : ℕ) (m : ProtocolClient) (s : Core)
        → owed i x (handle send_error client id m s).1 ≤ owed i x s + asking client id m
    unfolding handle
    handle-owed client id (ProtocolClient.req params) s =
        then_pure (AtMost (owed i x s + asking client id (ProtocolClient.req params)))
          (request send_error client id params) none s
          (unfold request ◌>>=◌ in
            send_request-owed client id params (Directory.get_owner params.topic s.directory) s)
    handle-owed client id (ProtocolClient.publish params) s =
        none_added _ some client id (ProtocolClient.publish params) s
          (publish-AtMost send_error params)
    handle-owed client id (ProtocolClient.sub t) s =
        none_added _ (λ _. none) client id (ProtocolClient.sub t) s
          (in_directory-AtMost send_error (Directory.subscribe client t))
    handle-owed client id (ProtocolClient.unsub t) s =
        none_added _ (λ _. none) client id (ProtocolClient.unsub t) s
          (in_directory-AtMost send_error (Directory.unsubscribe client t))
    handle-owed client id (ProtocolClient.srv t) s =
        none_added _ (λ _. none) client id (ProtocolClient.srv t) s
          (in_directory-AtMost send_error (Directory.claim client t))
    handle-owed client id (ProtocolClient.unsrv t) s =
        none_added _ (λ _. none) client id (ProtocolClient.unsrv t) s
          (in_directory-AtMost send_error (Directory.unclaim client t))
    handle-owed client id (ProtocolClient.rsp params) s =
        none_added _ (λ _. none) client id (ProtocolClient.rsp params) s
          (respond-AtMost send_error client params)
    handle-owed client id ProtocolClient.stop s = omega arith
    handle-owed client id ProtocolClient.keep_alive s = omega arith

    ignore_error-owed :
        {A : Type 0} (o : Result A × Core) → owed i x (ignore_error o).1 ≤ owed i x o.1
    ignore_error-owed (ok a, s) = omega arith
    ignore_error-owed (err e, s) = omega arith
    ignore_error-owed (panic, s) = omega arith

    acknowledge-owed :
        (client id : ℕ) (r : Result (Option ℕ)) (s : Core)
        → owed i x (acknowledge send_error client id (r, s)).1 ≤ owed i x s
    acknowledge-owed client id panic s = omega arith
    acknowledge-owed client id (ok k) s =
        let a = ProtocolServer.ack (ack_of id (ok k)) in
        ground (
          arith,
          ignore_error-owed (deliver send_error client a s),
          deliver-owed i x send_error client a s,
        )
    acknowledge-owed client id (err e) s =
        let a = ProtocolServer.ack (ack_of id (err e)) in
        ground (
          arith,
          ignore_error-owed (deliver send_error client a s),
          deliver-owed i x send_error client a s,
        )

    pub process_message-owed :
        (client : ℕ) (m : Msg ProtocolClient) (s : Core)
        → owed i x (process_task send_error (message client m) s).1
          ≤ owed i x s + asking client m.id m.content
    unfolding process_task process_msg ◌>>=◌
    process_message-owed client m s =
        let (r, s') = handle send_error client m.id m.content s in
        then_pure (AtMost (owed i x s + asking client m.id m.content))
          (λ s. acknowledge send_error client m.id (handle send_error client m.id m.content s))
          (is_stop m.content) s
          (ground (arith, acknowledge-owed client m.id r s', handle-owed client m.id m.content s))

    -- A task adds an answer for a request of the client at most.
    abbrev pub adds : Task → ℕ
    adds (message client m) = asking client m.id m.content
    adds register = 0
    adds (deregister id) = 0
    adds (request_timeout id) = 0

    pub process_task-owed :
        (t : Task) (s : Core) → owed i x (process_task send_error t s).1 ≤ owed i x s + adds t
    process_task-owed (message client m) s = process_message-owed client m s
    process_task-owed register s =
        unfold process_task in unfold ◌>>=◌ in ground (arith, register_client-owed i x s)
    process_task-owed (deregister id) s =
        unfold process_task in unfold ◌>>=◌ in ground (arith, deregister_client-owed i x id s)
    process_task-owed (request_timeout id) s =
        let kept =
          (bind-Keeps
              (respond send_error 0
                (record { req_id = id; status = timeout; payload = empty_payload }))
              (λ _. pure false) (respond-AtMost send_error {n = owed i x s} 0 _)
              (λ _. pure-Keeps false)).keeps
            s (omega arith) in
        unfold process_task in omega (arith, kept)
