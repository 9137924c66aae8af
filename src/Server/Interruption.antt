-- ===== src/Server/Interruption.antt =====
-- What keeps a publication from its subscribers: the kill topic and closed channels
-- (src/server/core.rs, `publish`).
use t2_bus.Base.{
  ℕ, ◌==◌, true, false, Bool-cases, inl, inr, [], ◌∷◌, ◌++◌, List, some, lookup, lookup-put,
  lookup-delete, contains, Distinct, Distinct-append_left, ◌≡◌, ◌↔◌, refl, subst, arith,
}
use t2_bus.Text.{Text}
use t2_bus.Topic.{segments}
use t2_bus.Err.{err, panic, delivery_failed}
use t2_bus.Directory
use t2_bus.Directory.Overlap.{Overlap}
use t2_bus.Directory.Matching.{get_subscribers_iff, get_subscribers-Distinct}
use t2_bus.Exec.{◌>>=◌}
use t2_bus.Protocol.{ProtocolServer, PubMsg}
use t2_bus.Server.{Core, Channel, deliver_all, publish, kill_topic, deregister_client}
use t2_bus.Server.Delivery.{used_id, delivered, deliver_open, deliver_closed}
use t2_bus.Server.Invariant.{IsValid}
use t2_bus.Server.Publishing.{
  AllOpen, AllOpenBut, Served, with_copy, AllOpenBut→AllOpen, not_later, unless_zero, Served-by,
  deliver_each, deliver_each_open, lookup-deliver_each_ne, deliver_each-Received, AllOpen-delivered,
  AllOpenBut-delivered, publish_reaches,
}

module _ (send_error : Text) (params : PubMsg) where
  -- The loop panics when it comes to client 0, if the clients before it are open.
  deliver_all_crash :
      (ids : List ℕ) (s : Core)
      → contains 0 ids ≡ true
      → Distinct ids
      → AllOpenBut s ids
      → (deliver_all send_error params ids s).0 ≡ panic
  unfolding deliver_all ◌>>=◌
  deliver_all_crash [] s m d h = cc
  deliver_all_crash (id ∷ ids) s m d (h0, h) = elim (Bool-cases (id == 0)) [
    | inl zero_here ↦ rw zero_here
    | inr nonzero ↦
        let (c, e, o) = unless_zero h0 nonzero in
        rw nonzero (
          rw (deliver_open send_error id (ProtocolServer.publish params) s c e o) (
            deliver_all_crash ids (delivered id c (ProtocolServer.publish params) s) (ground arith)
              d.1 (AllOpenBut-delivered send_error params id c s ids d.0 h)))
  ]

  publish_crash :
      (s : Core)
      → contains 0 (Directory.get_subscribers params.topic s.directory) ≡ true
      → AllOpenBut s (Directory.get_subscribers params.topic s.directory)
      → (publish send_error params s).0 ≡ panic
  unfolding publish ◌>>=◌
  publish_crash s m h = ground (
    arith,
    deliver_all_crash (Directory.get_subscribers params.topic s.directory) s m
        (get_subscribers-Distinct params.topic s.directory) h,
  )

  -- In a valid state, with the subscribers' channels open, a publication panics, which ends the
  -- server, exactly if its topic overlaps the kill topic.
  pub publish_panics_iff :
      (n : ℕ) (s : Core)
      → IsValid n s
      → AllOpenBut s (Directory.get_subscribers params.topic s.directory)
      → ((publish send_error params s).0 ≡ panic)
        ↔ Overlap (segments kill_topic) (segments params.topic)
  publish_panics_iff n s v h =
      let ids = Directory.get_subscribers params.topic s.directory in
      let found = get_subscribers_iff s.directory params.topic 0 v.well_formed in
      (
        λ e. elim (Bool-cases (contains 0 ids)) [
          | inl m ↦
              let (p, sub, ov) = found.0 m in
              subst (λ q. Overlap q (segments params.topic)) (v.zero_at_kill.only p sub) ov
          | inr none_zero ↦ absurd (
              cc (
                e,
                (publish_reaches send_error params s 0 none_zero
                    (AllOpenBut→AllOpen s ids none_zero h)).0,
              ))
        ],
        λ ov. publish_crash s (found.1 (segments kill_topic, v.zero_at_kill.subscribed, ov)) h,
      )

  -- A subscriber whose channel has closed stops the publication: those before it in the order of
  -- the set have received it, those behind it never do, and the publisher gets an error.
  deliver_all_closed :
      (ids rest : List ℕ) (x : ℕ) (c : Channel) (s : Core)
      → contains 0 (ids ++ x ∷ rest) ≡ false
      → Distinct (ids ++ x ∷ rest)
      → AllOpen s ids
      → lookup x s.senders ≡ some c
      → c.is_open ≡ false
      → deliver_all send_error params (ids ++ x ∷ rest) s ≡ (
        err (delivery_failed x send_error),
        (deregister_client x (used_id (deliver_each send_error params ids s))).1,
      )
  unfolding deliver_all ◌>>=◌
  deliver_all_closed [] rest x c s nz d h e o =
      let nonzero : (x == 0) ≡ false = ground arith in
      rw nonzero (
        rw (deliver_closed send_error x (ProtocolServer.publish params) s c e o)
          (unfold deliver_each in refl))
  deliver_all_closed (id ∷ ids) rest x c s nz d ((b, eb, ob), h) e o =
      let nonzero : (id == 0) ≡ false = ground arith in
      let new = not_later id x ids rest d.0 in
      rw (deliver_each_open send_error params id ids b s eb ob) (
        rw nonzero (
          rw (deliver_open send_error id (ProtocolServer.publish params) s b eb ob) (
            deliver_all_closed ids rest x c (delivered id b (ProtocolServer.publish params) s)
              (ground arith) d.1 (AllOpen-delivered send_error params id b s ids new.0 h)
              (ground (arith, new.1, lookup-put id x (with_copy params s b) s.senders)) o)))

  -- Where one subscriber's channel has closed and those of the subscribers before it, in the order
  -- in which the set is read, are open, and client 0 is no subscriber, the publisher gets an error
  -- and the publication stops: of the other clients, those before it have received one copy, and
  -- everyone else, the subscribers behind it included, has received nothing.
  pub publish_stopped :
      (ids rest : List ℕ) (x j : ℕ) (c : Channel) (s : Core)
      → Directory.get_subscribers params.topic s.directory ≡ ids ++ x ∷ rest
      → contains 0 (ids ++ x ∷ rest) ≡ false
      → AllOpen s ids
      → lookup x s.senders ≡ some c
      → c.is_open ≡ false
      → (x == j) ≡ false
      → ((publish send_error params s).0 ≡ err (delivery_failed x send_error))
        × Served params
            (contains j ids)
            (lookup j s.senders)
            (lookup j (publish send_error params s).1.senders)
  unfolding publish ◌>>=◌ deregister_client
  publish_stopped ids rest x j c s subs nz h e o apart =
      let d =
        Distinct-append_left ids (x ∷ rest)
          (subst Distinct subs (get_subscribers-Distinct params.topic s.directory)) in
      rw subs (
        rw
          (deliver_all_closed ids rest x c s nz
            (subst Distinct subs (get_subscribers-Distinct params.topic s.directory)) h e o)
          (
            refl,
            rw (lookup-delete x j (deliver_each send_error params ids s).senders, apart)
                (Served-by (contains j ids) (deliver_each-Received send_error params ids s j d h)
                  (lookup-deliver_each_ne send_error params ids s j d h)),
          ))
