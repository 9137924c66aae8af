-- ===== src/Directory/Claims.antt =====
-- `claim` and `unclaim`, as changes to the view.
use mathlib.Core.Logic.{ite}
use t2_bus.Base.{
  ℕ, ◌==◌, if◌then◌else◌, Bool, true, false, [], ◌∷◌, Option, none, some, ◌≡◌, ◌≢◌, refl, arith,
}
use t2_bus.Text.{Segments, segments_discrete}
use t2_bus.Err.{Result, ok, err, panic, topic_already_claimed, claim_wildcard_not_supported}
use t2_bus.Directory.{
  Directory, node, get_child, ensure_child, claim_here, claim_segments, unclaim_here,
  unclaim_segments,
}
use t2_bus.Directory.View.{
  owner_at, subscribers_at, has_wildcard, or_new, get_child-set_child, get_child-ensure_child_self,
  get_child-ensure_child_ne, owner_at-new, subscribers_at-new,
}

-- What `claim` returns, from the topic and its present owner alone.
abbrev pub claim_verdict : ℕ → Bool → Option ℕ → Result (Unit {0})
claim_verdict client true owner = err claim_wildcard_not_supported
claim_verdict client false none = ok tt
claim_verdict client false (some owner) =
    if owner == client then ok tt else err topic_already_claimed

-- The owner of the claimed topic afterwards.
abbrev pub claimed_owner : ℕ → Bool → Option ℕ → Option ℕ
claimed_owner client true owner = owner
claimed_owner client false none = some client
claimed_owner client false (some owner) = some owner

-- What a claim answers: an error for a topic with a wildcard, success for a topic that is free or
-- the client's own, and an error for a topic that another client owns.
pub claim_segments_verdict :
    (client : ℕ) (t : Segments) (d : Directory)
    → (claim_segments client t d).0 ≡ claim_verdict client (has_wildcard t) (owner_at t d)
unfolding claim_segments claim_here owner_at has_wildcard
claim_segments_verdict client [] (node none cs ss) = refl
claim_segments_verdict client [] (node (some w) cs ss) = refl
claim_segments_verdict client (s ∷ rest) (node o cs ss) = ground (
  arith,
  get_child-ensure_child_self s cs,
  claim_segments_verdict client rest (or_new (get_child s cs)),
  owner_at-new rest,
)

pub owner_at-claim_segments :
    (client : ℕ) (t u : Segments) (d : Directory)
    → owner_at u (claim_segments client t d).1
      ≡ ite
          (segments_discrete t u)
          (claimed_owner client (has_wildcard t) (owner_at t d))
          (owner_at u d)
unfolding claim_segments claim_here owner_at has_wildcard
owner_at-claim_segments client [] [] (node none cs ss) = ground arith
owner_at-claim_segments client [] [] (node (some w) cs ss) = ground arith
owner_at-claim_segments client [] (r ∷ u) (node none cs ss) = ground arith
owner_at-claim_segments client [] (r ∷ u) (node (some w) cs ss) = ground arith
owner_at-claim_segments client (s ∷ t) [] (node o cs ss) =
    ground (arith, get_child-ensure_child_self s cs)
owner_at-claim_segments client (s ∷ t) (r ∷ u) (node o cs ss) = ground (
  arith,
  get_child-ensure_child_self s cs,
  get_child-ensure_child_ne r s cs,
  get_child-set_child r s (claim_segments client t (or_new (get_child s cs))).1 (ensure_child s cs),
  owner_at-claim_segments client t u (or_new (get_child s cs)),
  owner_at-new t,
  owner_at-new u,
)

pub subscribers_at-claim_segments :
    (client : ℕ) (t u : Segments) (d : Directory)
    → subscribers_at u (claim_segments client t d).1 ≡ subscribers_at u d
unfolding claim_segments claim_here subscribers_at
subscribers_at-claim_segments client [] [] (node none cs ss) = ground arith
subscribers_at-claim_segments client [] [] (node (some w) cs ss) = ground arith
subscribers_at-claim_segments client [] (r ∷ u) (node none cs ss) = ground arith
subscribers_at-claim_segments client [] (r ∷ u) (node (some w) cs ss) = ground arith
subscribers_at-claim_segments client (s ∷ t) [] (node o cs ss) =
    ground (arith, get_child-ensure_child_self s cs)
subscribers_at-claim_segments client (s ∷ t) (r ∷ u) (node o cs ss) = ground (
  arith,
  get_child-ensure_child_self s cs,
  get_child-ensure_child_ne r s cs,
  get_child-set_child r s (claim_segments client t (or_new (get_child s cs))).1 (ensure_child s cs),
  subscribers_at-claim_segments client t u (or_new (get_child s cs)),
  subscribers_at-new u,
)

-- The owner after `unclaim`: a wildcard in the topic stops it on the way.
abbrev pub released : ℕ → Bool → Option ℕ → Option ℕ
released client true owner = owner
released client false none = none
released client false (some owner) = if owner == client then none else some owner

pub owner_at-unclaim_segments :
    (client : ℕ) (t u : Segments) (d : Directory)
    → owner_at u (unclaim_segments client t d).1
      ≡ ite (segments_discrete t u) (released client (has_wildcard t) (owner_at t d)) (owner_at u d)
unfolding unclaim_segments unclaim_here owner_at has_wildcard
owner_at-unclaim_segments client [] [] (node none cs ss) = ground arith
owner_at-unclaim_segments client [] [] (node (some w) cs ss) = ground arith
owner_at-unclaim_segments client [] (r ∷ u) (node o cs ss) = ground arith
owner_at-unclaim_segments client (s ∷ t) [] (node o cs ss) = ground arith
owner_at-unclaim_segments client (s ∷ t) (r ∷ u) (node o cs ss) = ground (
  arith,
  get_child-set_child r s (unclaim_segments client t (or_new (get_child s cs))).1 cs,
  owner_at-unclaim_segments client t u (or_new (get_child s cs)),
  owner_at-new t,
  owner_at-new u,
)

pub subscribers_at-unclaim_segments :
    (client : ℕ) (t u : Segments) (d : Directory)
    → subscribers_at u (unclaim_segments client t d).1 ≡ subscribers_at u d
unfolding unclaim_segments subscribers_at
subscribers_at-unclaim_segments client [] [] (node o cs ss) = refl
subscribers_at-unclaim_segments client [] (r ∷ u) (node o cs ss) = refl
subscribers_at-unclaim_segments client (s ∷ t) [] (node o cs ss) = ground arith
subscribers_at-unclaim_segments client (s ∷ t) (r ∷ u) (node o cs ss) = ground (
  arith,
  get_child-set_child r s (unclaim_segments client t (or_new (get_child s cs))).1 cs,
  subscribers_at-unclaim_segments client t u (or_new (get_child s cs)),
  subscribers_at-new u,
)

-- `unclaim` does not panic.
pub unclaim_segments-ne-panic :
    (client : ℕ) (t : Segments) (d : Directory) → (unclaim_segments client t d).0 ≢ panic
unfolding unclaim_segments
unclaim_segments-ne-panic client [] (node o cs ss) = ground arith
unclaim_segments-ne-panic client (s ∷ t) (node o cs ss) =
    ground (arith, unclaim_segments-ne-panic client t (or_new (get_child s cs)))
