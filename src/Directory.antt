-- ===== src/Directory.antt =====
-- src/directory.rs: the tree of topics that a server or a client keeps.
pub mod View
pub mod Claims
pub mod Subscriptions
pub mod Drop
pub mod Routing
pub mod WellFormed
pub mod Overlap
pub mod Concrete
pub mod Matching
pub mod Reports
pub mod Registry
pub mod Refinement
pub mod Search
use t2_bus.Base.{
  ℕ, zero, suc, ◌+◌, ◌*◌, ◌==◌, if◌then◌else◌, Bool, true, false, ◌||◌, List, [], ◌∷◌, ◌++◌, length,
  Option, none, some, contains, insert, remove, extend,
}
use Prim.Native.Nat.{max}
use mathlib.Core.Logic.{ite}
use mathlib.Core.Bool.{decide}
use t2_bus.Text.{Text, Segments, text_discrete, wildcard, double_wildcard}
use t2_bus.Topic.{Topic, segments, from_valid_segments}
use t2_bus.Err.{
  BusError, Result, ok, err, panic, topic_already_claimed, claim_wildcard_not_supported,
}

-- Owner, children and subscribers. The children are a map from names, in some order.
mutual
  pub data Directory : Type 0 where
    node : Option ℕ → Children → List ℕ → Directory

  pub data Children : Type 0 where
    nil : Children
    child : Text → Directory → Children → Children

unfoldable pub new : Directory
new = node none nil []

-- `HashMap::get` and `HashMap::insert`
unfoldable pub get_child : Text → Children → Option Directory
get_child k nil = none
get_child k (child j d cs) = ite (text_discrete j k) (some d) (get_child k cs)

unfoldable pub set_child : Text → Directory → Children → Children
set_child k e nil = child k e nil
set_child k e (child j d cs) = ite (text_discrete j k) (child j e cs) (child j d (set_child k e cs))

abbrev absent : Option Directory → Bool
absent none = true
absent (some d) = false

unfoldable pub ensure_child : Text → Children → Children
unfolding get_child set_child new
ensure_child name cs = if absent (get_child name cs) then set_child name new cs else cs

unfoldable pub is_wildcard : Text → Bool
is_wildcard s =
    ite (text_discrete s wildcard) true (ite (text_discrete s double_wildcard) true false)

-- The outcome of an operation beside the directory that it leaves.
abbrev pub Outcome : Type 0
Outcome = Result (Unit {0}) × Directory

-- The operation went on at a child, which is put back in place.
abbrev pub under : Text → Option ℕ → Children → List ℕ → Outcome → Outcome
under s o cs ss (r, d) = (r, node o (set_child s d cs) ss)

unfoldable pub claim_here : ℕ → Option ℕ → Children → List ℕ → Outcome
claim_here client none cs ss = (ok tt, node (some client) cs ss)
claim_here client (some owner) cs ss =
    (if owner == client then ok tt else err topic_already_claimed, node (some owner) cs ss)

unfoldable pub claim_segments : ℕ → Segments → Directory → Outcome
unfolding claim_here is_wildcard ensure_child
claim_segments client [] (node o cs ss) = claim_here client o cs ss
claim_segments client (s ∷ rest) (node o cs ss) =
    if is_wildcard s
    then (err claim_wildcard_not_supported, node o cs ss)
    else elim (get_child s (ensure_child s cs)) [
      | none ↦ (panic, node o (ensure_child s cs) ss)
      | some d ↦ under s o (ensure_child s cs) ss (claim_segments client rest d)
    ]

unfoldable pub unclaim_here : ℕ → Option ℕ → Option ℕ
unclaim_here client none = none
unclaim_here client (some owner) = if owner == client then none else some owner

unfoldable pub unclaim_segments : ℕ → Segments → Directory → Outcome
unfolding unclaim_here is_wildcard get_child set_child
unclaim_segments client [] (node o cs ss) = (ok tt, node (unclaim_here client o) cs ss)
unclaim_segments client (s ∷ rest) (node o cs ss) =
    if is_wildcard s
    then (err claim_wildcard_not_supported, node o cs ss)
    else elim (get_child s cs) [
      | none ↦ (ok tt, node o cs ss)
      | some d ↦ under s o cs ss (unclaim_segments client rest d)
    ]

unfoldable pub get_owner_segments : Segments → Directory → Option ℕ
unfolding is_wildcard get_child
get_owner_segments [] (node o cs ss) = o
get_owner_segments (s ∷ rest) (node o cs ss) =
    if is_wildcard s
    then none
    else elim (get_child s cs) [ none ↦ none | some d ↦ get_owner_segments rest d ]

unfoldable pub subscribe_segments : ℕ → Segments → Directory → Outcome
unfolding insert ensure_child
subscribe_segments client [] (node o cs ss) = (ok tt, node o cs (insert client ss))
subscribe_segments client (s ∷ rest) (node o cs ss) = elim (get_child s (ensure_child s cs)) [
  | none ↦ (panic, node o (ensure_child s cs) ss)
  | some d ↦ under s o (ensure_child s cs) ss (subscribe_segments client rest d)
]

unfoldable pub unsubscribe_segments : ℕ → Segments → Directory → Outcome
unfolding remove get_child set_child
unsubscribe_segments client [] (node o cs ss) = (ok tt, node o cs (remove client ss))
unsubscribe_segments client (s ∷ rest) (node o cs ss) = elim (get_child s cs) [
  | none ↦ (ok tt, node o cs ss)
  | some d ↦ under s o cs ss (unsubscribe_segments client rest d)
]

-- A pass over the children with an accumulator.
unfoldable pub fold_children {ℓ} : {A : Type ℓ} → (Text → Directory → A → A) → Children → A → A
fold_children f nil acc = acc
fold_children f (child k d cs) acc = fold_children f cs (f k d acc)

abbrev pub Visit : Type 0
Visit = Directory → Segments → Bool → List ℕ → List ℕ

-- A pass over one child, if it is there.
abbrev pub visit_some : Option Directory → (Directory → List ℕ → List ℕ) → List ℕ → List ℕ
visit_some none f acc = acc
visit_some (some d) f acc = f d acc

-- A published `**`, a published `*` and a published word, at a node with these children.
unfoldable pub match_double : Visit → Directory → Children → Text → Segments → List ℕ → List ℕ
unfolding fold_children
match_double visit d cs s rest acc =
    fold_children (λ k e a. visit e (s ∷ rest) false a) cs (visit d rest false acc)

unfoldable pub match_single : Visit → Children → Text → Segments → List ℕ → List ℕ
unfolding fold_children
match_single visit cs s rest acc =
    fold_children
      (λ k e a.
        let stay = visit e (s ∷ rest) true a in
        let advance = visit e rest false a in ite (text_discrete k double_wildcard) stay advance)
      cs acc

unfoldable pub match_word : Visit → Children → Text → Segments → List ℕ → List ℕ
unfolding get_child
match_word visit cs s rest acc =
    let same = visit_some (get_child s cs) (λ e a. visit e rest false a) acc in
    let any = visit_some (get_child wildcard cs) (λ e a. visit e rest false a) same in
    visit_some (get_child double_wildcard cs) (λ e a. visit e (s ∷ rest) true a) any

-- One call of `_get_subscribers`, whose recursive calls go to `visit`.
unfoldable pub collect_step : Visit → Visit
unfolding extend match_double match_single match_word
collect_step visit d [] true acc = visit d [] false acc
collect_step visit d (s ∷ rest) true acc = visit d rest true (visit d (s ∷ rest) false acc)
collect_step visit (node o cs ss) [] false acc =
    visit_some (get_child double_wildcard cs) (λ e a. visit e [] true a) (extend acc ss)
collect_step visit (node o cs ss) (s ∷ rest) false acc =
    ite (text_discrete s double_wildcard) (match_double visit (node o cs ss) cs s rest acc) (
      ite (text_discrete s wildcard) (match_single visit cs s rest acc)
        (match_word visit cs s rest acc))

-- The recursion, on fuel: `get_subscribers_segments` gives enough.
unfoldable pub collect_subscribers : ℕ → Visit
unfolding collect_step
collect_subscribers zero d topic in_double_wildcard acc = acc
collect_subscribers (suc f) d topic in_double_wildcard acc =
    collect_step (collect_subscribers f) d topic in_double_wildcard acc

-- The height of the tree, for the fuel of the search.
unfoldable mutual
  pub height : Directory → ℕ
  height (node o cs ss) = height_children cs

  pub height_children : Children → ℕ
  height_children nil = 0
  height_children (child k d cs) = max (suc (height d)) (height_children cs)

unfoldable pub get_subscribers_segments : Segments → Directory → List ℕ
unfolding collect_subscribers height text_discrete
get_subscribers_segments topic d =
    collect_subscribers (2 * height d + 2 * length topic + 1) d topic false []

-- Adds the topic of a node whose last subscriber left. The root's empty list of segments is no topic.
report : Bool → Option Topic → List Topic → List Topic
report true (some t) results = results ++ t ∷ []
report _ _ results = results

abbrev is_empty : List ℕ → Bool
is_empty [] = true
is_empty (x ∷ xs) = false

-- `HashSet::remove` tells whether the value was present.
abbrev now_empty : ℕ → List ℕ → Bool
now_empty client ss = if contains client ss then is_empty (remove client ss) else false

unfoldable mutual
  unfolding unclaim_here report from_valid_segments remove

  pub drop_client_from : ℕ → Segments → List Topic → Directory → Directory × List Topic
  drop_client_from client topic results (node o cs ss) =
      let (cs', results') =
        drop_client_children client topic
          (report (now_empty client ss) (from_valid_segments topic) results) cs in
      (node (unclaim_here client o) cs' (remove client ss), results')

  pub drop_client_children : ℕ → Segments → List Topic → Children → Children × List Topic
  drop_client_children client topic results nil = (nil, results)
  drop_client_children client topic results (child k d cs) =
      let (d', results') = drop_client_from client (topic ++ k ∷ []) results d in
      let (cs', results'') = drop_client_children client topic results' cs in
      (child k d' cs', results'')

-- The methods take a topic and work on its segments.
unfoldable pub claim : ℕ → Topic → Directory → Outcome
unfolding claim_segments segments
claim client topic d = claim_segments client (segments topic) d

unfoldable pub unclaim : ℕ → Topic → Directory → Outcome
unfolding unclaim_segments segments
unclaim client topic d = unclaim_segments client (segments topic) d

unfoldable pub get_owner : Topic → Directory → Option ℕ
unfolding get_owner_segments segments
get_owner topic d = get_owner_segments (segments topic) d

unfoldable pub subscribe : ℕ → Topic → Directory → Outcome
unfolding subscribe_segments segments
subscribe client topic d = subscribe_segments client (segments topic) d

unfoldable pub unsubscribe : ℕ → Topic → Directory → Outcome
unfolding unsubscribe_segments segments
unsubscribe client topic d = unsubscribe_segments client (segments topic) d

unfoldable pub get_subscribers : Topic → Directory → List ℕ
unfolding get_subscribers_segments segments
get_subscribers topic d = get_subscribers_segments (segments topic) d

unfoldable pub drop_client : ℕ → Directory → Directory × List Topic
unfolding drop_client_from
drop_client client d = drop_client_from client [] [] d
