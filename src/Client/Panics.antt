-- ===== src/Client/Panics.antt =====
-- The `unwrap`s of `after_receive` (src/client/core.rs).
use t2_bus.Base.{
  ℕ, ==_iff, true, false, Bool-cases, Option-cases, inl, inr, List, [], ◌∷◌, Option, none, some,
  Map, lookup, delete, lookup-delete, contains, Distinct, ◌≡◌, ◌≢◌, ◌↔◌, refl, arith,
}
use t2_bus.Topic.{Topic, segments}
use t2_bus.Err.{panic, Result-cases}
use t2_bus.Directory
use t2_bus.Directory.View.{owner_at, get_owner_segments-view}
use t2_bus.Directory.Matching.{get_subscribers_iff, get_subscribers-Distinct}
use t2_bus.Exec.{◌>>=◌}
use t2_bus.Protocol.{PubMsg, ReqMsg, RspMsg, AckMsg, ProtocolServer}
use t2_bus.Client.{
  ClientCore, Callback, before_send, prepare, transmit, send, hand, receive_ack, receive_rsp,
  send_unsubs, forget, call_back, call_back_all, receive_pub, receive_req, after_receive,
}
use t2_bus.Client.Invariant.{Has, IsValid}

abbrev pub AllHave : Map Callback → List ℕ → Type 0
AllHave m [] = Unit
AllHave m (id ∷ ids) = Has m id × AllHave m ids

AllHave-delete :
    (id : ℕ) (m : Map Callback) (ids : List ℕ)
    → contains id ids ≡ false
    → AllHave m ids
    → AllHave (delete id m) ids
AllHave-delete id m [] new h = tt
AllHave-delete id m (j ∷ ids) new ((c, e), h) =
    ((c, ground (arith, lookup-delete id j m)), AllHave-delete id m ids (ground arith) h)

-- Unsubscribing at the server leaves the callbacks alone, and does not panic.
send_unsubs_calm :
    (ids : List ℕ) (topics : List Topic) (s : ClientCore)
    → AllHave s.callbacks_pub ids
    → AllHave (send_unsubs topics s).1.callbacks_pub ids × ((send_unsubs topics s).0 ≢ panic)
unfolding send_unsubs send before_send prepare transmit ◌>>=◌
send_unsubs_calm ids [] s h = (h, ground arith)
send_unsubs_calm ids (t ∷ topics) s h = elim (Option-cases s.broken) [
  | inr (b, e) ↦ rw (e) (h, ground arith)
  | inl e ↦ rw (e) (send_unsubs_calm ids topics _ h)
]

call_back_calm :
    (p : PubMsg) (id : ℕ) (ids : List ℕ) (s : ClientCore)
    → contains id ids ≡ false
    → Has s.callbacks_pub id
    → AllHave s.callbacks_pub ids
    → AllHave (call_back p id s).1.callbacks_pub ids × ((call_back p id s).0 ≢ panic)
unfolding call_back hand forget ◌>>=◌
call_back_calm p id ids s new (c, e) h = elim (Bool-cases (s.is_held c)) [
  | inl held ↦ rw (e, held) (h, ground arith)
  | inr gone ↦
      rw (e, gone)
        (send_unsubs_calm ids (Directory.drop_client id s.subscriptions).1
          (record s {
            callbacks_pub = delete id s.callbacks_pub;
            subscriptions = (Directory.drop_client id s.subscriptions).0;
          })
          (AllHave-delete id s.callbacks_pub ids new h))
]

call_back_all_calm :
    (p : PubMsg) (ids : List ℕ) (s : ClientCore)
    → Distinct ids
    → AllHave s.callbacks_pub ids
    → (call_back_all p ids s).0 ≢ panic
unfolding call_back_all ◌>>=◌
call_back_all_calm p [] s d h = ground arith
call_back_all_calm p (id ∷ ids) s d (h0, h) =
    let (h', n) = call_back_calm p id ids s d.0 h0 h in
    elim (Result-cases (call_back p id s).0 n) [
      | inl (a, e) ↦ rw (e) (call_back_all_calm p ids (call_back p id s).1 d.1 h')
      | inr (b, e) ↦ rw (e) (ground arith)
    ]

pub each-Has :
    (m : Map Callback) (ids : List ℕ) → ((x : ℕ) → contains x ids ≡ true → Has m x) → AllHave m ids
each-Has m [] f = tt
each-Has m (x ∷ ids) f =
    (f x (ground (arith, ==_iff x x)), each-Has m ids (λ y e. f y (ground arith)))

receive_pub_calm : (p : PubMsg) (s : ClientCore) → IsValid s → (receive_pub p s).0 ≢ panic
unfolding receive_pub ◌>>=◌
receive_pub_calm p s v =
    let ids = Directory.get_subscribers p.topic s.subscriptions in
    call_back_all_calm p ids s (get_subscribers-Distinct p.topic s.subscriptions) (
      each-Has s.callbacks_pub ids (λ x e.
        let (q, sub, ov) = (get_subscribers_iff s.subscriptions p.topic x v.well_formed).0 e in
        v.has_pub q x sub))

receive_req_calm :
    (id : ℕ) (p : ReqMsg) (s : ClientCore) (o : Option ℕ)
    → IsValid s
    → Directory.get_owner p.topic s.subscriptions ≡ o
    → (receive_req id p o s).0 ≢ panic
unfolding receive_req hand Directory.get_owner ◌>>=◌
receive_req_calm id p s none v e = ground arith
receive_req_calm id p s (some k) v e =
    let own : owner_at (segments p.topic) s.subscriptions ≡ some k =
      ground (arith, e, get_owner_segments-view (segments p.topic) s.subscriptions) in
    let (c, f) = v.has_req (segments p.topic) k own in
    elim (Bool-cases (s.is_held c)) [
      | inl held ↦ rw (f, held) (ground arith)
      | inr gone ↦ rw (f, gone) (ground arith)
    ]

-- A response that no callback waits for.
abbrev pub IsStray : ProtocolServer → ClientCore → Type 0
IsStray (ProtocolServer.rsp p) s = lookup p.req_id s.callbacks_rsp ≡ none
IsStray (ProtocolServer.ack p) s = ⊥
IsStray (ProtocolServer.publish p) s = ⊥
IsStray (ProtocolServer.req p) s = ⊥

receive_ack_calm :
    (p : AckMsg) (o : Option Callback) (s : ClientCore) → (receive_ack p o s).0 ≢ panic
unfolding receive_ack hand ◌>>=◌
receive_ack_calm p none s = ground arith
receive_ack_calm p (some c) s = elim (Bool-cases (s.is_held c)) [
  | inl held ↦ rw (held) (ground arith)
  | inr gone ↦ rw (gone) (ground arith)
]

receive_rsp_iff :
    (p : RspMsg) (s : ClientCore)
    → ((receive_rsp p s).0 ≡ panic) ↔ (lookup p.req_id s.callbacks_rsp ≡ none)
unfolding receive_rsp hand ◌>>=◌
receive_rsp_iff p s = elim (Option-cases (lookup p.req_id s.callbacks_rsp)) [
  | inl e ↦ rw (e) (λ _. refl, λ _. refl)
  | inr (c, e) ↦ elim (Bool-cases (s.is_held c)) [
    | inl held ↦ rw (e, held) (λ x. ground arith, λ x. ground arith)
    | inr gone ↦ rw (e, gone) (λ x. ground arith, λ x. ground arith)
  ]
]

-- In a valid state a client panics on a message exactly if it is a response to a request of which
-- no callback waits: every publication and every request finds the callbacks it is for, also while
-- subscribers that have gone are dropped on the way.
pub after_receive_panics_iff :
    (id : ℕ) (m : ProtocolServer) (s : ClientCore)
    → IsValid s
    → ((after_receive id m s).0 ≡ panic) ↔ IsStray m s
unfolding after_receive ◌>>=◌
after_receive_panics_iff id (ProtocolServer.ack p) s v =
    (λ e. absurd (receive_ack_calm p (lookup p.msg_id s.callbacks_ack) s e), λ x. absurd x)
after_receive_panics_iff id (ProtocolServer.rsp p) s v = receive_rsp_iff p s
after_receive_panics_iff id (ProtocolServer.publish p) s v =
    (λ e. absurd (receive_pub_calm p s v e), λ x. absurd x)
after_receive_panics_iff id (ProtocolServer.req p) s v = (
  λ e. absurd (receive_req_calm id p s (Directory.get_owner p.topic s.subscriptions) v refl e),
  λ x. absurd x,
)
