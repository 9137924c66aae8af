-- ===== src/Directory/Drop.antt =====
-- `drop_client`, as a change to the view.
use t2_bus.Base.{ℕ, [], ◌∷◌, ◌++◌, List, Option, none, some, remove, ◌≡◌, refl, arith}
use t2_bus.Text.{Text, Segments}
use t2_bus.Topic.{Topic}
use t2_bus.Directory.{
  Directory, Children, node, nil, child, get_child, unclaim_here, drop_client_from,
  drop_client_children, drop_client,
}
use t2_bus.Directory.View.{owner_at, subscribers_at}

-- The view below one name among the children.
abbrev owner_below : Text → Segments → Children → Option ℕ
owner_below s rest cs = elim (get_child s cs) [ none ↦ none | some d ↦ owner_at rest d ]

abbrev subscribers_below : Text → Segments → Children → List ℕ
subscribers_below s rest cs = elim (get_child s cs) [ none ↦ [] | some d ↦ subscribers_at rest d ]

module _ (client : ℕ) where
  mutual
    unfolding drop_client_from owner_at

    owner_from :
        (d : Directory) (topic u : Segments) (results : List Topic)
        → owner_at u (drop_client_from client topic results d).0
          ≡ unclaim_here client (owner_at u d)
    owner_from (node o cs ss) topic [] results = refl
    owner_from (node o cs ss) topic (s ∷ u) results = owner_children cs topic s u _

    owner_children :
        (cs : Children) (topic : Segments) (s : Text) (u : Segments) (results : List Topic)
        → owner_below s u (drop_client_children client topic results cs).0
          ≡ unclaim_here client (owner_below s u cs)
    owner_children nil topic s u results = refl
    owner_children (child k d cs) topic s u results = ground (
      arith,
      owner_from d (topic ++ k ∷ []) u results,
      owner_children cs topic s u (drop_client_from client (topic ++ k ∷ []) results d).1,
    )

  mutual
    unfolding drop_client_from subscribers_at

    subscribers_from :
        (d : Directory) (topic u : Segments) (results : List Topic)
        → subscribers_at u (drop_client_from client topic results d).0
          ≡ remove client (subscribers_at u d)
    subscribers_from (node o cs ss) topic [] results = refl
    subscribers_from (node o cs ss) topic (s ∷ u) results = subscribers_children cs topic s u _

    subscribers_children :
        (cs : Children) (topic : Segments) (s : Text) (u : Segments) (results : List Topic)
        → subscribers_below s u (drop_client_children client topic results cs).0
          ≡ remove client (subscribers_below s u cs)
    subscribers_children nil topic s u results = refl
    subscribers_children (child k d cs) topic s u results = ground (
      arith,
      subscribers_from d (topic ++ k ∷ []) u results,
      subscribers_children cs topic s u (drop_client_from client (topic ++ k ∷ []) results d).1,
    )

  -- A name stays, or stays missing.
  pub get_child-drop_client_children-none :
      (cs : Children) (topic : Segments) (s : Text) (results : List Topic)
      → get_child s cs ≡ none
      → get_child s (drop_client_children client topic results cs).0 ≡ none
  unfolding drop_client_from get_child
  get_child-drop_client_children-none nil topic s results e = refl
  get_child-drop_client_children-none (child k d cs) topic s results e = ground (
    arith,
    get_child-drop_client_children-none cs topic s
        (drop_client_from client (topic ++ k ∷ []) results d).1,
  )

  -- The client loses what it owns, and no one else does.
  pub owner_at-drop_client :
      (u : Segments) (d : Directory)
      → owner_at u (drop_client client d).0 ≡ unclaim_here client (owner_at u d)
  unfolding drop_client
  owner_at-drop_client u d = owner_from d [] u []

  -- The client leaves every set of subscribers, and the rest of each set stays.
  pub subscribers_at-drop_client :
      (u : Segments) (d : Directory)
      → subscribers_at u (drop_client client d).0 ≡ remove client (subscribers_at u d)
  unfolding drop_client
  subscribers_at-drop_client u d = subscribers_from d [] u []
