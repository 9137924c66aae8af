-- ===== src/Directory/Subscriptions.antt =====
-- `subscribe` and `unsubscribe`, as changes to the view.
use mathlib.Core.Logic.{ite}
use t2_bus.Base.{ℕ, [], ◌∷◌, insert, remove, ◌≡◌, refl, arith}
use t2_bus.Text.{Segments, segments_discrete}
use t2_bus.Err.{ok}
use t2_bus.Directory.{
  Directory, node, get_child, ensure_child, subscribe_segments, unsubscribe_segments,
}
use t2_bus.Directory.View.{
  owner_at, subscribers_at, or_new, get_child-set_child, get_child-ensure_child_self,
  get_child-ensure_child_ne, owner_at-new, subscribers_at-new,
}

module _ (client : ℕ) where
  -- `subscribe` never panics.
  pub subscribe_segments-ok :
      (t : Segments) (d : Directory) → (subscribe_segments client t d).0 ≡ ok tt
  unfolding subscribe_segments
  subscribe_segments-ok [] (node o cs ss) = refl
  subscribe_segments-ok (s ∷ t) (node o cs ss) =
      ground
        (arith, get_child-ensure_child_self s cs, subscribe_segments-ok t (or_new (get_child s cs)))

  pub subscribers_at-subscribe_segments :
      (t u : Segments) (d : Directory)
      → subscribers_at u (subscribe_segments client t d).1
        ≡ ite (segments_discrete t u) (insert client (subscribers_at u d)) (subscribers_at u d)
  unfolding subscribe_segments subscribers_at
  subscribers_at-subscribe_segments [] [] (node o cs ss) = ground arith
  subscribers_at-subscribe_segments [] (r ∷ u) (node o cs ss) = ground arith
  subscribers_at-subscribe_segments (s ∷ t) [] (node o cs ss) =
      ground (arith, get_child-ensure_child_self s cs)
  subscribers_at-subscribe_segments (s ∷ t) (r ∷ u) (node o cs ss) = ground (
    arith,
    get_child-ensure_child_self s cs,
    get_child-ensure_child_ne r s cs,
    get_child-set_child r s (subscribe_segments client t (or_new (get_child s cs))).1
        (ensure_child s cs),
    subscribers_at-subscribe_segments t u (or_new (get_child s cs)),
    subscribers_at-new u,
  )

  pub owner_at-subscribe_segments :
      (t u : Segments) (d : Directory) → owner_at u (subscribe_segments client t d).1 ≡ owner_at u d
  unfolding subscribe_segments owner_at
  owner_at-subscribe_segments [] [] (node o cs ss) = refl
  owner_at-subscribe_segments [] (r ∷ u) (node o cs ss) = refl
  owner_at-subscribe_segments (s ∷ t) [] (node o cs ss) =
      ground (arith, get_child-ensure_child_self s cs)
  owner_at-subscribe_segments (s ∷ t) (r ∷ u) (node o cs ss) = ground (
    arith,
    get_child-ensure_child_self s cs,
    get_child-ensure_child_ne r s cs,
    get_child-set_child r s (subscribe_segments client t (or_new (get_child s cs))).1
        (ensure_child s cs),
    owner_at-subscribe_segments t u (or_new (get_child s cs)),
    owner_at-new u,
  )

  pub unsubscribe_segments-ok :
      (t : Segments) (d : Directory) → (unsubscribe_segments client t d).0 ≡ ok tt
  unfolding unsubscribe_segments
  unsubscribe_segments-ok [] (node o cs ss) = refl
  unsubscribe_segments-ok (s ∷ t) (node o cs ss) =
      ground (arith, unsubscribe_segments-ok t (or_new (get_child s cs)))

  pub subscribers_at-unsubscribe_segments :
      (t u : Segments) (d : Directory)
      → subscribers_at u (unsubscribe_segments client t d).1
        ≡ ite (segments_discrete t u) (remove client (subscribers_at u d)) (subscribers_at u d)
  unfolding unsubscribe_segments subscribers_at remove
  subscribers_at-unsubscribe_segments [] [] (node o cs ss) = ground arith
  subscribers_at-unsubscribe_segments [] (r ∷ u) (node o cs ss) = ground arith
  subscribers_at-unsubscribe_segments (s ∷ t) [] (node o cs ss) = ground arith
  subscribers_at-unsubscribe_segments (s ∷ t) (r ∷ u) (node o cs ss) = ground (
    arith,
    get_child-set_child r s (unsubscribe_segments client t (or_new (get_child s cs))).1 cs,
    subscribers_at-unsubscribe_segments t u (or_new (get_child s cs)),
    subscribers_at-new u,
  )

  pub owner_at-unsubscribe_segments :
      (t u : Segments) (d : Directory)
      → owner_at u (unsubscribe_segments client t d).1 ≡ owner_at u d
  unfolding unsubscribe_segments owner_at
  owner_at-unsubscribe_segments [] [] (node o cs ss) = refl
  owner_at-unsubscribe_segments [] (r ∷ u) (node o cs ss) = refl
  owner_at-unsubscribe_segments (s ∷ t) [] (node o cs ss) = ground arith
  owner_at-unsubscribe_segments (s ∷ t) (r ∷ u) (node o cs ss) = ground (
    arith,
    get_child-set_child r s (unsubscribe_segments client t (or_new (get_child s cs))).1 cs,
    owner_at-unsubscribe_segments t u (or_new (get_child s cs)),
    owner_at-new u,
  )
