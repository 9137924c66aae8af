-- ===== src/Client/Delivery.antt =====
-- What the subscriptions of a client are handed when a publication arrives (src/client/core.rs).
use t2_bus.Base.{
  ℕ, true, List, [], ◌∷◌, ◌++◌, Option, none, some, Map, lookup, ◌≡◌, ap, ◌∙◌, sym, arith,
}
use mathlib.Core.List.{append-nil, append_assoc}
use t2_bus.Err.{Result, ok}
use t2_bus.Directory
use t2_bus.Directory.Matching.{get_subscribers_iff}
use t2_bus.Exec.{◌>>=◌, continue}
use t2_bus.Protocol.{PubMsg}
use t2_bus.Client.{
  ClientCore, Callback, Event, published, hand, call_back, call_back_all, receive_pub,
}
use t2_bus.Client.Invariant.{IsValid}
use t2_bus.Client.Panics.{AllHave, each-Has}

-- One event for each callback that is there.
abbrev pub event_of : PubMsg → Option Callback → List Event
event_of p none = []
event_of p (some c) = published c p ∷ []

abbrev pub events_of : PubMsg → Map Callback → List ℕ → List Event
events_of p m [] = []
events_of p m (id ∷ ids) = event_of p (lookup id m) ++ events_of p m ids

abbrev pub with_events : ClientCore → List Event → ClientCore
with_events s events = record s { events = s.events ++ events }

module _ (p : PubMsg) where
  call_back_held :
      (id : ℕ) (c : Callback) (s : ClientCore)
      → lookup id s.callbacks_pub ≡ some c
      → s.is_held c ≡ true
      → call_back p id s ≡ (ok tt, with_events s (published c p ∷ []))
  unfolding call_back hand ◌>>=◌
  call_back_held id c s e h = ground (arith, e, h)

  call_back_all_held :
      (ids : List ℕ) (s : ClientCore)
      → AllHave s.callbacks_pub ids
      → ((c : Callback) → s.is_held c ≡ true)
      → call_back_all p ids s ≡ (ok tt, with_events s (events_of p s.callbacks_pub ids))
  unfolding call_back_all ◌>>=◌
  call_back_all_held [] s a h =
      ap (λ es. (ok tt, record s { events = es })) (sym (append-nil s.events))
  call_back_all_held (id ∷ ids) s ((c, e), a) h =
      ap (λ (o : Result (Unit {0}) × ClientCore). continue o.0 (λ _. call_back_all p ids) o.1)
        (call_back_held id c s e (h c))
      ∙ call_back_all_held ids (with_events s (published c p ∷ [])) a h
      ∙ ap (λ es. (ok tt, record s { events = es }))
          (append_assoc s.events (published c p ∷ []) (events_of p s.callbacks_pub ids)
            ∙ ap (λ o. s.events ++ (event_of p o ++ events_of p s.callbacks_pub ids)) (sym e))

  -- In a valid state whose receivers are all there, a publication is handed to the callback of each
  -- subscription that the directory finds for its topic, once and in the order in which they are
  -- found, and nothing else changes.
  pub receive_pub_delivers :
      (s : ClientCore)
      → IsValid s
      → ((c : Callback) → s.is_held c ≡ true)
      → receive_pub p s ≡ (
        ok tt,
        with_events s
            (events_of p s.callbacks_pub (Directory.get_subscribers p.topic s.subscriptions)),
      )
  unfolding receive_pub ◌>>=◌
  receive_pub_delivers s v h =
      call_back_all_held (Directory.get_subscribers p.topic s.subscriptions) s
        (each-Has s.callbacks_pub (Directory.get_subscribers p.topic s.subscriptions) (λ x e.
          let (q, sub, ov) = (get_subscribers_iff s.subscriptions p.topic x v.well_formed).0 e in
          v.has_pub q x sub))
        h
