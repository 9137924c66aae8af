-- ===== src/Directory/Routing.antt =====
-- Who receives a publication after a change of the subscriptions, and who serves a request after a
-- change of the claims, in terms of the topics themselves.
use mathlib.Core.Logic.{ite}
use t2_bus.Base.{
  ℕ, ==_iff, if◌then◌else◌, true, false, inl, inr, List, none, insert, remove, contains,
  contains-insert, contains-remove, ◌≡◌, ◌≢◌, ◌⊎◌, ◌↔◌, subst, sym, arith,
}
use t2_bus.Text.{Segments, segments_discrete}
use t2_bus.Topic.{Topic, segments}
use t2_bus.Directory.{Directory, subscribe, unsubscribe, get_subscribers, claim, unclaim, get_owner}
use t2_bus.Directory.View.{owner_at, subscribers_at, has_wildcard, get_owner_segments-view}
use t2_bus.Directory.Concrete.{Common, Overlap-iff}
use t2_bus.Directory.Matching.{get_subscribers_iff}
use t2_bus.Directory.Claims.{
  claimed_owner, released, owner_at-claim_segments, owner_at-unclaim_segments,
}
use t2_bus.Directory.Subscriptions.{
  subscribers_at-subscribe_segments, subscribers_at-unsubscribe_segments,
}
use t2_bus.Directory.WellFormed.{
  IsWellFormed, subscribe_segments-IsWellFormed, unsubscribe_segments-IsWellFormed,
}

-- A client is subscribed to some topic that has a concrete topic in common with the published one.
abbrev pub IsReached : ℕ → Topic → Directory → Type 0
IsReached x u d = (p : Segments) × (contains x (subscribers_at p d) ≡ true) × Common p (segments u)

-- In a well-formed directory a publication's subscribers are exactly the clients that have
-- subscribed to a topic for which some concrete topic, without wildcards, matches both that topic
-- and the published one.
pub get_subscribers-IsReached :
    (d : Directory) (u : Topic) (x : ℕ)
    → IsWellFormed d
    → (contains x (get_subscribers u d) ≡ true) ↔ IsReached x u d
get_subscribers-IsReached d u x w =
    let found = get_subscribers_iff d u x w in
    (
      λ h. let (p, sub, ov) = found.0 h in (p, sub, (Overlap-iff p (segments u)).0 ov),
      λ (p, sub, c). found.1 (p, sub, (Overlap-iff p (segments u)).1 c),
    )

module _ (client : ℕ) (t : Topic) (d : Directory) (u : Topic) (x : ℕ) where
  -- After a subscription the publications on any topic reach whom they reached before, and the new
  -- subscriber exactly if some concrete topic matches both its topic and the published one.
  pub get_subscribers-subscribe :
      IsWellFormed d
      → (contains x (get_subscribers u (subscribe client t d).1) ≡ true) ↔ (
          (contains x (get_subscribers u d) ≡ true)
          ⊎ ((x ≡ client) × Common (segments t) (segments u)))
  unfolding subscribe
  get_subscribers-subscribe w =
      let before = get_subscribers-IsReached d u x w in
      let now =
        get_subscribers-IsReached (subscribe client t d).1 u x
          (subscribe_segments-IsWellFormed client (segments t) d w) in
      (
        λ h.
            let (p, sub, c) = now.0 h in
            elim (segments_discrete (segments t) p) [
              | no other ↦ inl (
                  before.1 (
                    p,
                    ground (
                      arith,
                      sub,
                      other,
                      subscribers_at-subscribe_segments client (segments t) p d,
                    ),
                    c,
                  ))
              | yes same ↦
                  elim (insert_cases (subscribers_at p d) (
                    ground (
                      arith,
                      sub,
                      same,
                      subscribers_at-subscribe_segments client (segments t) p d,
                    ))) [
                      | inl old ↦ inl (before.1 (p, old, c))
                      | inr e ↦ inr (e, subst (λ q. Common q (segments u)) (sym same) c)
                    ]
            ],
        λ h. elim h [
          | inl old ↦
              let (p, sub, c) = before.0 old in
              now.1 (
                p,
                ground (
                  arith,
                  sub,
                  subscribers_at-subscribe_segments client (segments t) p d,
                  contains-insert x client (subscribers_at p d),
                ),
                c,
              )
          | inr (e, c) ↦ now.1 (
            segments t,
            ground (
              arith,
              e,
              subscribers_at-subscribe_segments client (segments t) (segments t) d,
              contains-insert x client (subscribers_at (segments t) d),
            ),
            c,
          )
        ],
      )
    where
      insert_cases :
          (ids : List ℕ)
          → contains x (insert client ids) ≡ true
          → (contains x ids ≡ true) ⊎ (x ≡ client)
      insert_cases ids e = ground (arith, contains-insert x client ids, ==_iff x client)

  -- After a client unsubscribes from a topic, the publications still reach whom some subscription
  -- makes them reach, other than that client's to that very topic: its further subscriptions, to
  -- topics that overlap, stay.
  pub get_subscribers-unsubscribe :
      IsWellFormed d
      → (contains x (get_subscribers u (unsubscribe client t d).1) ≡ true) ↔ (
          (p : Segments) × (contains x (subscribers_at p d) ≡ true)
          × ((x ≢ client) ⊎ (p ≢ segments t))
          × Common p (segments u))
  unfolding unsubscribe
  get_subscribers-unsubscribe w =
      let now =
        get_subscribers-IsReached (unsubscribe client t d).1 u x
          (unsubscribe_segments-IsWellFormed client (segments t) d w) in
      (
        λ h.
            let (p, sub, c) = now.0 h in
            elim (segments_discrete (segments t) p) [
              | no other ↦ (
                p,
                ground (
                  arith,
                  sub,
                  other,
                  subscribers_at-unsubscribe_segments client (segments t) p d,
                ),
                inr (λ e. other (sym e)),
                c,
              )
              | yes same ↦
                  let (old, ne) = remove_cases (subscribers_at p d) (
                    ground (
                      arith,
                      sub,
                      same,
                      subscribers_at-unsubscribe_segments client (segments t) p d,
                    )) in
                  (p, old, inl ne, c)
            ],
        λ (p, sub, ne, c). now.1 (
          p,
          ground (
            arith,
            sub,
            ne,
            subscribers_at-unsubscribe_segments client (segments t) p d,
            contains-remove x client (subscribers_at p d),
          ),
          c,
        ),
      )
    where
      remove_cases :
          (ids : List ℕ)
          → contains x (remove client ids) ≡ true
          → (contains x ids ≡ true) × (x ≢ client)
      remove_cases ids e = ground (arith, contains-remove x client ids, ==_iff x client)

module _ (client : ℕ) (t u : Topic) (d : Directory) where
  -- After a claim, successful or not, a request for the claimed topic goes to its owner before, or
  -- to the claimer where there was none, and the other topics keep their owner. A topic with a
  -- wildcard has no owner.
  pub get_owner-claim :
      get_owner u (claim client t d).1
      ≡ ite
          (segments_discrete (segments t) (segments u))
          (if has_wildcard (segments u)
            then none
            else claimed_owner client false (owner_at (segments t) d))
          (get_owner u d)
  unfolding claim get_owner
  get_owner-claim = ground (
    arith,
    get_owner_segments-view (segments u) (claim client t d).1,
    get_owner_segments-view (segments u) d,
    owner_at-claim_segments client (segments t) (segments u) d,
  )

  -- After a client unclaims a topic, the topic has no owner if the client owned it and keeps its
  -- owner otherwise, and so do the other topics.
  pub get_owner-unclaim :
      get_owner u (unclaim client t d).1
      ≡ ite
          (segments_discrete (segments t) (segments u))
          (if has_wildcard (segments u)
            then none
            else released client false (owner_at (segments t) d))
          (get_owner u d)
  unfolding unclaim get_owner
  get_owner-unclaim = ground (
    arith,
    get_owner_segments-view (segments u) (unclaim client t d).1,
    get_owner_segments-view (segments u) d,
    owner_at-unclaim_segments client (segments t) (segments u) d,
  )
