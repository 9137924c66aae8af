-- ===== src/Directory/WellFormed.antt =====
-- What `HashMap` and `HashSet` give: names are distinct at every node, and subscribers too.
use t2_bus.Base.{
  ℕ, [], ◌∷◌, ◌++◌, List, none, some, Distinct, subst, Option-cases, inl, inr, insert-Distinct,
  remove-Distinct, ◌≡◌, refl, arith,
}
use t2_bus.Text.{Text, Segments, text_discrete}
use t2_bus.Topic.{Topic}
use t2_bus.Directory.{
  Directory, Children, node, nil, child, new, get_child, set_child, ensure_child, claim_here,
  claim_segments, unclaim_segments, subscribe_segments, unsubscribe_segments, drop_client_from,
  drop_client_children, drop_client,
}
use t2_bus.Directory.View.{or_new, get_child-set_child, get_child-ensure_child_self}
use t2_bus.Directory.Drop.{get_child-drop_client_children-none}

unfoldable mutual
  unfolding get_child

  pub IsWellFormed : Directory → Type 0
  IsWellFormed (node o cs ss) = Distinct ss × AreWellFormed cs

  pub AreWellFormed : Children → Type 0
  AreWellFormed nil = Unit
  AreWellFormed (child k d cs) = (get_child k cs ≡ none) × IsWellFormed d × AreWellFormed cs

pub new-IsWellFormed : IsWellFormed new
unfolding IsWellFormed new
new-IsWellFormed = (tt, tt)

pub get_child-IsWellFormed :
    (k : Text) (cs : Children) {d : Directory}
    → get_child k cs ≡ some d
    → AreWellFormed cs
    → IsWellFormed d
unfolding IsWellFormed get_child
get_child-IsWellFormed k nil e w = cc
get_child-IsWellFormed k (child j d cs) e w = elim (text_discrete j k) [
  | yes h ↦ subst IsWellFormed (ground arith) w.1
  | no n ↦ get_child-IsWellFormed k cs (ground arith) w.2
]

set_child-AreWellFormed :
    (k : Text) (d : Directory) (cs : Children)
    → IsWellFormed d
    → AreWellFormed cs
    → AreWellFormed (set_child k d cs)
unfolding IsWellFormed set_child get_child
set_child-AreWellFormed k d nil v w = (refl, v, tt)
set_child-AreWellFormed k d (child j e cs) v w =
    ground (arith, set_child-AreWellFormed k d cs v w.2, get_child-set_child j k d cs)

ensure_child-AreWellFormed :
    (k : Text) (cs : Children) → AreWellFormed cs → AreWellFormed (ensure_child k cs)
unfolding ensure_child
ensure_child-AreWellFormed k cs w =
    ground (arith, set_child-AreWellFormed k new cs new-IsWellFormed w)

or_new-IsWellFormed :
    (k : Text) (cs : Children) → AreWellFormed cs → IsWellFormed (or_new (get_child k cs))
or_new-IsWellFormed k cs w = elim (Option-cases (get_child k cs)) [
  | inl e ↦ rw e new-IsWellFormed
  | inr (d, e) ↦ rw e (get_child-IsWellFormed k cs e w)
]

pub claim_segments-IsWellFormed :
    (client : ℕ) (t : Segments) (d : Directory)
    → IsWellFormed d
    → IsWellFormed (claim_segments client t d).1
unfolding claim_segments claim_here IsWellFormed
claim_segments-IsWellFormed client [] (node none cs ss) w = w
claim_segments-IsWellFormed client [] (node (some owner) cs ss) w = w
claim_segments-IsWellFormed client (s ∷ t) (node o cs ss) w = ground (
  arith,
  get_child-ensure_child_self s cs,
  ensure_child-AreWellFormed s cs w.1,
  set_child-AreWellFormed s (claim_segments client t (or_new (get_child s cs))).1
      (ensure_child s cs),
  claim_segments-IsWellFormed client t (or_new (get_child s cs)) (or_new-IsWellFormed s cs w.1),
)

pub subscribe_segments-IsWellFormed :
    (client : ℕ) (t : Segments) (d : Directory)
    → IsWellFormed d
    → IsWellFormed (subscribe_segments client t d).1
unfolding subscribe_segments IsWellFormed
subscribe_segments-IsWellFormed client [] (node o cs ss) w = (insert-Distinct client ss w.0, w.1)
subscribe_segments-IsWellFormed client (s ∷ t) (node o cs ss) w = ground (
  arith,
  get_child-ensure_child_self s cs,
  ensure_child-AreWellFormed s cs w.1,
  set_child-AreWellFormed s (subscribe_segments client t (or_new (get_child s cs))).1
      (ensure_child s cs),
  subscribe_segments-IsWellFormed client t (or_new (get_child s cs)) (or_new-IsWellFormed s cs w.1),
)

pub unclaim_segments-IsWellFormed :
    (client : ℕ) (t : Segments) (d : Directory)
    → IsWellFormed d
    → IsWellFormed (unclaim_segments client t d).1
unfolding unclaim_segments IsWellFormed
unclaim_segments-IsWellFormed client [] (node o cs ss) w = w
unclaim_segments-IsWellFormed client (s ∷ t) (node o cs ss) w = ground (
  arith,
  set_child-AreWellFormed s (unclaim_segments client t (or_new (get_child s cs))).1 cs,
  unclaim_segments-IsWellFormed client t (or_new (get_child s cs)) (or_new-IsWellFormed s cs w.1),
)

pub unsubscribe_segments-IsWellFormed :
    (client : ℕ) (t : Segments) (d : Directory)
    → IsWellFormed d
    → IsWellFormed (unsubscribe_segments client t d).1
unfolding unsubscribe_segments IsWellFormed
unsubscribe_segments-IsWellFormed client [] (node o cs ss) w = (remove-Distinct client ss w.0, w.1)
unsubscribe_segments-IsWellFormed client (s ∷ t) (node o cs ss) w = ground (
  arith,
  set_child-AreWellFormed s (unsubscribe_segments client t (or_new (get_child s cs))).1 cs,
  unsubscribe_segments-IsWellFormed client t (or_new (get_child s cs))
      (or_new-IsWellFormed s cs w.1),
)

mutual
  unfolding IsWellFormed drop_client_from

  drop_from-IsWellFormed :
      (d : Directory) (client : ℕ) (topic : Segments) (results : List Topic)
      → IsWellFormed d
      → IsWellFormed (drop_client_from client topic results d).0
  drop_from-IsWellFormed (node o cs ss) client topic results w =
      (remove-Distinct client ss w.0, drop_children-AreWellFormed cs client topic _ w.1)

  drop_children-AreWellFormed :
      (cs : Children) (client : ℕ) (topic : Segments) (results : List Topic)
      → AreWellFormed cs
      → AreWellFormed (drop_client_children client topic results cs).0
  drop_children-AreWellFormed nil client topic results w = tt
  drop_children-AreWellFormed (child k d cs) client topic results w = (
    get_child-drop_client_children-none client cs topic k _ w.0,
    drop_from-IsWellFormed d client (topic ++ k ∷ []) results w.1,
    drop_children-AreWellFormed cs client topic _ w.2,
  )

pub drop_client-IsWellFormed :
    (client : ℕ) (d : Directory) → IsWellFormed d → IsWellFormed (drop_client client d).0
unfolding drop_client
drop_client-IsWellFormed client d w = drop_from-IsWellFormed d client [] [] w
