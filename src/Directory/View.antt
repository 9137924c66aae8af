-- ===== src/Directory/View.antt =====
-- The abstract view of a directory: an owner and a set of subscribers for each list of segments.
use mathlib.Core.Logic.{ite}
use t2_bus.Base.{
  ℕ, if◌then◌else◌, Bool, false, ◌||◌, List, [], ◌∷◌, Option, none, some, ◌≡◌, refl, arith,
}
use t2_bus.Text.{Text, Segments, text_discrete}
use t2_bus.Directory.{
  Directory, Children, node, nil, child, new, get_child, set_child, ensure_child, is_wildcard,
  get_owner_segments,
}

unfoldable pub owner_at : Segments → Directory → Option ℕ
unfolding get_child
owner_at [] (node o cs ss) = o
owner_at (s ∷ rest) (node o cs ss) = elim (get_child s cs) [
  | none ↦ none
  | some d ↦ owner_at rest d
]

unfoldable pub subscribers_at : Segments → Directory → List ℕ
unfolding get_child
subscribers_at [] (node o cs ss) = ss
subscribers_at (s ∷ rest) (node o cs ss) = elim (get_child s cs) [
  | none ↦ []
  | some d ↦ subscribers_at rest d
]

-- Some segment is a wildcard.
unfoldable pub has_wildcard : Segments → Bool
unfolding is_wildcard
has_wildcard [] = false
has_wildcard (s ∷ rest) = is_wildcard s || has_wildcard rest

pub get_child-set_child :
    (j k : Text) (d : Directory) (cs : Children)
    → get_child j (set_child k d cs) ≡ ite (text_discrete k j) (some d) (get_child j cs)
unfolding get_child set_child
get_child-set_child j k d nil = ground arith
get_child-set_child j k d (child i e cs) = ground (arith, get_child-set_child j k d cs)

-- A child that was missing is empty.
abbrev pub or_new : Option Directory → Directory
or_new none = new
or_new (some d) = d

pub get_child-ensure_child_self :
    (k : Text) (cs : Children) → get_child k (ensure_child k cs) ≡ some (or_new (get_child k cs))
unfolding ensure_child
get_child-ensure_child_self k cs = ground (arith, get_child-set_child k k new cs)

pub get_child-ensure_child_ne :
    (j k : Text) (cs : Children) → ¬ (k ≡ j) → get_child j (ensure_child k cs) ≡ get_child j cs
unfolding ensure_child
get_child-ensure_child_ne j k cs n = ground (arith, get_child-set_child j k new cs)

pub owner_at-new : (t : Segments) → owner_at t new ≡ none
unfolding owner_at new
owner_at-new [] = refl
owner_at-new (s ∷ rest) = refl

pub subscribers_at-new : (t : Segments) → subscribers_at t new ≡ []
unfolding subscribers_at new
subscribers_at-new [] = refl
subscribers_at-new (s ∷ rest) = refl

-- A wildcard in the topic hides every owner.
pub get_owner_segments-view :
    (t : Segments) (d : Directory)
    → get_owner_segments t d ≡ (if has_wildcard t then none else owner_at t d)
unfolding get_owner_segments owner_at has_wildcard
get_owner_segments-view [] (node o cs ss) = refl
get_owner_segments-view (s ∷ rest) (node o cs ss) =
    ground (arith, get_owner_segments-view rest (or_new (get_child s cs)))
