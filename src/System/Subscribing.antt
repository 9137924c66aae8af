-- ===== src/System/Subscribing.antt =====
-- A subscription all the way: the client's task, the server, a publication, and the client's callback.
use t2_bus.Base.{
  ℕ, ◌==◌, ==_iff, true, false, Bool-cases, inl, inr, ◌⊎◌, List, [], ◌∷◌, ◌++◌, none, some, lookup,
  lookup-put, contains, Member, ◌≡◌, ◌≢◌, refl, sym, subst, arith,
}
use t2_bus.Text.{Text}
use t2_bus.Topic.{Topic, segments}
use t2_bus.Err.{ok}
use t2_bus.Exec.{◌>>=◌}
use t2_bus.Directory
use t2_bus.Directory.Concrete.{Common}
use t2_bus.Directory.Routing.{get_subscribers-subscribe}
use t2_bus.Directory.WellFormed.{IsWellFormed}
use t2_bus.Protocol.{PubMsg, ProtocolServer, Msg}
use t2_bus.Server
use t2_bus.Server.{Core, Channel, enqueue, ack_of}
use t2_bus.Server.Publishing.{AllOpen, Received, Served, publish_reaches}
use t2_bus.Client.{
  ClientCore, Callback, Event, published, sub, Signal, received, task, Status, running, round,
  main_loop, after_receive, receive_pub,
}
use t2_bus.Client.Invariant.{IsValid}
use t2_bus.Client.Receive.{main_loop-IsValid}
use t2_bus.Client.Delivery.{event_of, events_of, with_events, receive_pub_delivers}
use t2_bus.Client.Serving.{next_id}
use t2_bus.System.{sub_msg, subscribing, round-sub, subscribed, process_task-sub}

abbrev pub IsOpen : Core → ℕ → Type 0
IsOpen s x = (c : Channel) × (lookup x s.senders ≡ some c) × (c.is_open ≡ true)

AllOpen-each :
    (s : Core) (ids : List ℕ) → ((x : ℕ) → contains x ids ≡ true → IsOpen s x) → AllOpen s ids
AllOpen-each s [] h = tt
AllOpen-each s (id ∷ ids) h =
    (h id (ground (arith, ==_iff id id)), AllOpen-each s ids (λ x e. h x (ground (arith, e))))

IsOpen-subscribed :
    (i : ℕ) (c : ClientCore) (t : Topic) (ch : Channel) (s : Core) (x : ℕ)
    → ch.is_open ≡ true
    → (x ≡ i) ⊎ IsOpen s x
    → IsOpen (subscribed i c t ch s) x
IsOpen-subscribed i c t ch s x o h =
    let m : Msg ProtocolServer = record {
      id = s.next_msg_id;
      content = ProtocolServer.ack (ack_of (next_id c) (ok none));
    } in
    let at_x = lookup-put i x (enqueue ch m) s.senders in
    elim (Bool-cases (i == x)) [
      | inl same ↦ (enqueue ch m, ground (arith, at_x, same), o)
      | inr other ↦ elim h [
        | inl e ↦ ground (arith, e, other, ==_iff i x)
        | inr (c', e, o') ↦ (c', ground (arith, at_x, other, e), o')
      ]
    ]

-- What is in front stays a member, and so does what is behind.
Member-left : {A : Type 0} (a : A) (xs ys : List A) → Member a xs → Member a (xs ++ ys)
Member-left a [] ys m = elim m [ ]
Member-left a (x ∷ xs) ys (inl e) = inl e
Member-left a (x ∷ xs) ys (inr m) = inr (Member-left a xs ys m)

Member-right : {A : Type 0} (a : A) (xs ys : List A) → Member a ys → Member a (xs ++ ys)
Member-right a [] ys m = m
Member-right a (x ∷ xs) ys m = inr (Member-right a xs ys m)

Member-events_of :
    (p : PubMsg) (id : ℕ) (callback : Callback) (ids : List ℕ) (c : ClientCore)
    → lookup id c.callbacks_pub ≡ some callback
    → contains id ids ≡ true
    → Member (published callback p) (events_of p c.callbacks_pub ids)
Member-events_of p id callback [] c e m = ground (arith, m)
Member-events_of p id callback (x ∷ ids) c e m = elim (Bool-cases (id == x)) [
  | inl same ↦ Member-left (published callback p) (event_of p (lookup x c.callbacks_pub)) _ (
      subst (λ y. Member (published callback p) (event_of p (lookup y c.callbacks_pub)))
        ((==_iff id x).0 same)
        (subst (λ o. Member (published callback p) (event_of p o)) (sym e) (inl refl)))
  | inr other ↦
      Member-right (published callback p) (event_of p (lookup x c.callbacks_pub)) _
        (Member-events_of p id callback ids c e (ground (arith, m, other)))
]

module _ (k : ℕ) (c : ClientCore) (t : Topic) (ack callback : Callback) (p : PubMsg) where
  -- The client subscribes, and the publication arrives.
  abbrev pub signals : List Signal
  signals =
      task (sub t ack callback)
      ∷ received (record { id = k; content = ProtocolServer.publish p })
      ∷ []

  main_loop-sub :
      c.broken ≡ none
      → main_loop (task (sub t ack callback) ∷ []) c ≡ (running, subscribing c t ack callback)
  unfolding main_loop
  main_loop-sub b = ground (arith, round-sub c t ack callback b)

  subscribing-IsValid : IsValid c → c.broken ≡ none → IsValid (subscribing c t ack callback)
  subscribing-IsValid v b =
      subst (λ (o : Status × ClientCore). IsValid o.1) (main_loop-sub b)
        (main_loop-IsValid (task (sub t ack callback) ∷ []) c v)

  main_loop-signals :
      (es : List Event)
      → c.broken ≡ none
      → receive_pub p (subscribing c t ack callback)
        ≡ (ok tt, with_events (subscribing c t ack callback) es)
      → main_loop signals c ≡ (running, with_events (subscribing c t ack callback) es)
  unfolding main_loop round after_receive ◌>>=◌
  main_loop-signals es b e = ground (arith, round-sub c t ack callback b, e)

  receives :
      IsValid c
      → c.broken ≡ none
      → ((b : Callback) → c.is_held b ≡ true)
      → Common (segments t) (segments p.topic)
      → ((main_loop signals c).0 ≡ running)
        × Member (published callback p) (main_loop signals c).1.events
  receives v b held common =
      let c' = subscribing c t ack callback in
      let ids = Directory.get_subscribers p.topic c'.subscriptions in
      let whole =
        main_loop-signals (events_of p c'.callbacks_pub ids) b
          (receive_pub_delivers p c' (subscribing-IsValid v b) held) in
      let found =
        (get_subscribers-subscribe (next_id c) t c.subscriptions p.topic (next_id c)
            v.well_formed).1
          (inr (refl, common)) in
      let member = Member-right (published callback p) c.events (events_of p c'.callbacks_pub ids) (
        Member-events_of p (next_id c) callback ids c'
          (ground (
            arith,
            lookup-put (next_id c) (next_id c) callback c.callbacks_pub,
            ==_iff (next_id c) (next_id c),
          ))
          found) in
      rw whole (refl, member)

module _ (send_error : Text) (i k : ℕ) (c : ClientCore) (t : Topic) (ack callback : Callback)
    (p : PubMsg) (s : Core) where
  -- A client whose transport works and whose receivers are all there subscribes, and the server,
  -- where its channel is open, handles what it sends. Then a publication that has a concrete topic in
  -- common with the subscription, and whose other subscribers are clients with open channels, is put
  -- in the client's channel, and when the client takes it from there its loop goes on and the callback
  -- of the subscription is handed the publication.
  pub subscription_delivers :
      IsValid c
      → c.broken ≡ none
      → ((b : Callback) → c.is_held b ≡ true)
      → IsWellFormed s.directory
      → (i ≢ 0)
      → IsOpen s i
      → contains 0 (Directory.get_subscribers p.topic s.directory) ≡ false
      → ((x : ℕ) → contains x (Directory.get_subscribers p.topic s.directory) ≡ true → IsOpen s x)
      → Common (segments t) (segments p.topic)
      → let m = sub_msg c t in
        let s' = (Server.process_task send_error (Server.message i m) s).1 in
        ((round (task (sub t ack callback)) c).1.sent ≡ c.sent ++ m ∷ [])
        × Received p (lookup i s'.senders) (lookup i (Server.publish send_error p s').1.senders)
        × ((main_loop (signals k c t ack callback p) c).0 ≡ running)
        × Member (published callback p) (main_loop (signals k c t ack callback p) c).1.events
  subscription_delivers v b held w nz (ch, e, o) no_kill opens common =
      let s' = subscribed i c t ch s in
      let ids = Directory.get_subscribers p.topic s'.directory in
      let reached = λ (x : ℕ). get_subscribers-subscribe i t s.directory p.topic x w in
      let is_open : (x : ℕ) → contains x ids ≡ true → IsOpen s' x = λ x f. elim ((reached x).0 f) [
        | inl g ↦ IsOpen-subscribed i c t ch s x o (inr (opens x g))
        | inr (same, _) ↦ IsOpen-subscribed i c t ch s x o (inl same)
      ] in
      let none_is_0 : contains 0 ids ≡ false = elim (Bool-cases (contains 0 ids)) [
        | inl z ↦ elim ((reached 0).0 z) [
          | inl g ↦ ground (arith, g, no_kill)
          | inr (same, _) ↦ ground (arith, same, nz)
        ]
        | inr z ↦ z
      ] in
      let (_, _, served) =
        publish_reaches send_error p s' i none_is_0 (AllOpen-each s' ids is_open) in
      let (goes_on, member) = receives k c t ack callback p v b held common in
      rw (process_task-sub send_error i c t ch s e o, round-sub c t ack callback b)
        (
          refl,
          subst
              (λ r.
                Served p r (lookup i s'.senders)
                  (lookup i (Server.publish send_error p s').1.senders))
              ((reached i).1 (inr (refl, common))) served,
          goes_on,
          member,
        )
