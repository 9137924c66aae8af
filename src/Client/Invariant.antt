-- ===== src/Client/Invariant.antt =====
-- The invariant that ties the callbacks of a client to its directory, and what a client sends
-- (src/client/core.rs).

use t2_bus.Base.{
  Bool, ℕ, ◌==◌, true, false, Bool-cases, Option-cases, inl, inr, List, [], ◌∷◌, Option, none, some,
  Map, lookup, ◌+◌, ◌%◌, put, delete, lookup-put, lookup-delete, contains, contains-insert,
  contains-remove, ◌≡◌, arith,
}
use t2_bus.Text.{Segments}
use t2_bus.Topic.{Topic, segments}
use t2_bus.Directory
use t2_bus.Directory.{Directory}
use t2_bus.Directory.View.{owner_at, subscribers_at, owner_at-new, subscribers_at-new}
use t2_bus.Directory.Claims.{
  owner_at-claim_segments, subscribers_at-claim_segments, owner_at-unclaim_segments,
  subscribers_at-unclaim_segments,
}
use t2_bus.Directory.Subscriptions.{subscribers_at-subscribe_segments, owner_at-subscribe_segments}
use t2_bus.Directory.Drop.{owner_at-drop_client, subscribers_at-drop_client}
use t2_bus.Directory.WellFormed.{
  IsWellFormed, new-IsWellFormed, claim_segments-IsWellFormed, unclaim_segments-IsWellFormed,
  subscribe_segments-IsWellFormed, drop_client-IsWellFormed,
}
use t2_bus.Exec.{◌>>=◌, pure, gets}
use t2_bus.Exec.Keeps.{
  Keeps, keeps_rules, bind-Keeps, pure-Keeps, crash-Keeps, gets-Keeps, modify_then-Keeps, then_pure,
}
use t2_bus.Protocol.{Msg, ProtocolClient}
use t2_bus.Client.{
  ClientCore, Callback, init, u32_mod, Task, Event, publish, sub, req, rsp, srv, unsub, unsrv, stop,
  stop_bus, keep_alive, register_ack, in_subscriptions, unwrap, prepare, before_send, transmit,
  send, hand, send_unsubs, forget,
}

abbrev pub Has : Map Callback → ℕ → Type 0
Has m id = (c : Callback) × (lookup id m ≡ some c)

-- Subscriptions and claims in `d` have their callbacks.
pub record HasCallbacks (pubs reqs : Map Callback) (d : Directory) : Type 0 where
  pub well_formed : IsWellFormed d
  pub has_pub : (p : Segments) (id : ℕ) → contains id (subscribers_at p d) ≡ true → Has pubs id
  pub has_req : (p : Segments) (id : ℕ) → owner_at p d ≡ some id → Has reqs id

abbrev pub IsValid : ClientCore → Type 0
IsValid s = HasCallbacks s.callbacks_pub s.callbacks_req s.subscriptions

pub init-IsValid : (is_held : Callback → Bool) → IsValid (init is_held)
unfolding init
init-IsValid is_held = record {
  well_formed = new-IsWellFormed;
  has_pub = λ p id e. ground (arith, e, subscribers_at-new p);
  has_req = λ p id e. ground (arith, e, owner_at-new p);
}

Has-put : (id j : ℕ) (c : Callback) (m : Map Callback) → Has m j → Has (put id c m) j
Has-put id j c m (b, e) = elim (Bool-cases (id == j)) [
  | inl same ↦ (c, ground (arith, lookup-put id j c m))
  | inr other ↦ (b, ground (arith, lookup-put id j c m))
]

Has-put_self : (id : ℕ) (c : Callback) (m : Map Callback) → Has (put id c m) id
Has-put_self id c m = (c, ground (arith, lookup-put id id c m))

module _ (pubs reqs : Map Callback) (d : Directory) (h : HasCallbacks pubs reqs d) (id : ℕ)
    (t : Topic) where
  subscribed-HasCallbacks :
      (c : Callback) → HasCallbacks (put id c pubs) reqs (Directory.subscribe id t d).1
  unfolding Directory.subscribe
  subscribed-HasCallbacks c = record {
    well_formed = subscribe_segments-IsWellFormed id (segments t) d h.well_formed;
    has_pub = λ p j e. elim (Bool-cases (id == j)) [
      | inl same ↦ (c, ground (arith, lookup-put id j c pubs))
      | inr other ↦ Has-put id j c pubs (
          h.has_pub p j (
            ground (
              arith,
              e,
              subscribers_at-subscribe_segments id (segments t) p d,
              contains-insert j id (subscribers_at p d),
            )))
    ];
    has_req = λ p j e. h.has_req p j (rw owner_at-subscribe_segments at e);
  }

  claimed-HasCallbacks :
      (c : Callback) → HasCallbacks pubs (put id c reqs) (Directory.claim id t d).1
  unfolding Directory.claim
  claimed-HasCallbacks c = record {
    well_formed = claim_segments-IsWellFormed id (segments t) d h.well_formed;
    has_pub = λ p j e. h.has_pub p j (rw subscribers_at-claim_segments at e);
    has_req = λ p j e. elim (Bool-cases (id == j)) [
      | inl same ↦ (c, ground (arith, lookup-put id j c reqs))
      | inr other ↦
          Has-put id j c reqs
            (h.has_req p j (ground (arith, e, owner_at-claim_segments id (segments t) p d)))
    ];
  }

  unclaimed-HasCallbacks : HasCallbacks pubs reqs (Directory.unclaim id t d).1
  unfolding Directory.unclaim
  unclaimed-HasCallbacks = record {
    well_formed = unclaim_segments-IsWellFormed id (segments t) d h.well_formed;
    has_pub = λ p j e. h.has_pub p j (rw subscribers_at-unclaim_segments at e);
    has_req =
        λ p j e. h.has_req p j (ground (arith, e, owner_at-unclaim_segments id (segments t) p d));
  }

-- The callback goes together with the subscription.
dropped-HasCallbacks :
    (pubs reqs : Map Callback) (d : Directory) (id : ℕ)
    → HasCallbacks pubs reqs d
    → HasCallbacks (delete id pubs) reqs (Directory.drop_client id d).0
unfolding Directory.unclaim_here
dropped-HasCallbacks pubs reqs d id h = record {
  well_formed = drop_client-IsWellFormed id d h.well_formed;
  has_pub = λ p j e.
      let ne : (id == j) ≡ false =
        ground (
          arith,
          e,
          subscribers_at-drop_client id p d,
          contains-remove j id (subscribers_at p d),
        ) in
      let (c, f) = h.has_pub p j (
        ground (
          arith,
          e,
          subscribers_at-drop_client id p d,
          contains-remove j id (subscribers_at p d),
        )) in
      (c, rw (lookup-delete id j pubs, ne) f);
  has_req = λ p j e. h.has_req p j (ground (arith, e, owner_at-drop_client id p d));
}

pub register_ack-IsValid : (id : ℕ) (c : Callback) → Keeps IsValid (register_ack id c)
register_ack-IsValid id c = record { keeps = λ s v. v }

pub unwrap-IsValid : {A : Type 0} (o : Option A) → Keeps IsValid (unwrap o)
unwrap-IsValid none = crash-Keeps
unwrap-IsValid (some a) = pure-Keeps a

prepare-IsValid : (id : ℕ) (t : Task) → Keeps IsValid (prepare id t)
unfolding prepare
prepare-IsValid id (publish params ack) = search (keeps_rules, register_ack-IsValid)
prepare-IsValid id (sub topic ack c) =
    bind-Keeps (register_ack id ack) _ (register_ack-IsValid id ack) λ _.
      modify_then-Keeps (λ s. record s { callbacks_pub = put id c s.callbacks_pub })
        (in_subscriptions (Directory.subscribe id topic) >>= λ _. pure (ProtocolClient.sub topic))
        λ s v.
          then_pure IsValid (in_subscriptions (Directory.subscribe id topic))
            (ProtocolClient.sub topic) (record s { callbacks_pub = put id c s.callbacks_pub })
            (subscribed-HasCallbacks s.callbacks_pub s.callbacks_req s.subscriptions v id topic c)
prepare-IsValid id (req params ack c) =
    bind-Keeps (register_ack id ack) _ (register_ack-IsValid id ack) λ _.
      modify_then-Keeps (λ s. record s { callbacks_rsp = put id c s.callbacks_rsp })
        (pure (ProtocolClient.req params)) λ s v. v
prepare-IsValid id (rsp params ack) = search (keeps_rules, register_ack-IsValid)
prepare-IsValid id (srv topic ack c) =
    bind-Keeps (register_ack id ack) _ (register_ack-IsValid id ack) λ _.
      modify_then-Keeps (λ s. record s { callbacks_req = put id c s.callbacks_req })
        (in_subscriptions (Directory.claim id topic) >>= λ _. pure (ProtocolClient.srv topic))
        λ s v.
          then_pure IsValid (in_subscriptions (Directory.claim id topic)) (ProtocolClient.srv topic)
            (record s { callbacks_req = put id c s.callbacks_req })
            (claimed-HasCallbacks s.callbacks_pub s.callbacks_req s.subscriptions v id topic c)
prepare-IsValid id (unsub topic) = pure-Keeps (ProtocolClient.unsub topic)
prepare-IsValid id (unsrv topic) =
    bind-Keeps (gets (λ s. Directory.get_owner topic s.subscriptions)) _
      (gets-Keeps (λ s. Directory.get_owner topic s.subscriptions))
      λ owner. bind-Keeps (unwrap owner) _ (unwrap-IsValid owner) λ callback_id.
        bind-Keeps (in_subscriptions (Directory.unclaim callback_id topic)) _
          (record {
            keeps = λ s v.
                unclaimed-HasCallbacks s.callbacks_pub s.callbacks_req s.subscriptions v callback_id
                  topic;
          })
          λ _. pure-Keeps (ProtocolClient.unsrv topic)
prepare-IsValid id stop = crash-Keeps
prepare-IsValid id (stop_bus ack) = search (keeps_rules, register_ack-IsValid)
prepare-IsValid id keep_alive = pure-Keeps ProtocolClient.keep_alive

transmit-IsValid : (m : Msg ProtocolClient) → Keeps IsValid (transmit m)
unfolding transmit
transmit-IsValid m = record {
  keeps = λ s v. elim (Option-cases s.broken) [ inl e ↦ rw (e) v | inr (b, e) ↦ rw (e) v ];
}

before_send-IsValid : (t : Task) → Keeps IsValid (before_send t)
unfolding before_send
before_send-IsValid t =
    modify_then-Keeps (λ s. record s { next_msg_id = (s.next_msg_id + 1) % u32_mod })
      (gets (λ s. s.next_msg_id) >>= λ id.
        prepare id t >>= λ content. pure (record { id = id; content = content }))
      λ s v.
        (bind-Keeps (gets (λ s. s.next_msg_id)) _ (gets-Keeps (λ s. s.next_msg_id)) λ id.
            bind-Keeps (prepare id t) _ (prepare-IsValid id t)
              λ content. pure-Keeps (record { id = id; content = content })).keeps
          (record s { next_msg_id = (s.next_msg_id + 1) % u32_mod }) v

pub send-IsValid : (t : Task) → Keeps IsValid (send t)
unfolding send
send-IsValid t = bind-Keeps (before_send t) transmit (before_send-IsValid t) transmit-IsValid

send_unsubs-IsValid : (topics : List Topic) → Keeps IsValid (send_unsubs topics)
unfolding send_unsubs
send_unsubs-IsValid [] = pure-Keeps tt
send_unsubs-IsValid (t ∷ topics) =
    bind-Keeps (send (unsub t)) _ (send-IsValid (unsub t)) λ _. send_unsubs-IsValid topics

pub forget-IsValid : (id : ℕ) → Keeps IsValid (forget id)
unfolding forget ◌>>=◌
forget-IsValid id = record {
  keeps = λ s v.
      (send_unsubs-IsValid (Directory.drop_client id s.subscriptions).1).keeps
        (record s {
          callbacks_pub = delete id s.callbacks_pub;
          subscriptions = (Directory.drop_client id s.subscriptions).0;
        })
        (dropped-HasCallbacks s.callbacks_pub s.callbacks_req s.subscriptions id v);
}

pub hand-IsValid : (c : Callback) (e : Event) → Keeps IsValid (hand c e)
unfolding hand
hand-IsValid c e = record {
  keeps = λ s v. elim (Bool-cases (s.is_held c)) [ inl h ↦ rw (h) v | inr h ↦ rw (h) v ];
}
