-- ===== src/Directory/Matching.antt =====
-- `get_subscribers` (src/directory.rs) against the overlap of topics.
pub mod Sound
pub mod Complete
use mathlib.Core.Logic.{ite}
use Prim.Native.Nat.{max}
use t2_bus.Base.{
  ℕ, zero, suc, ◌≤◌, Bool, true, false, [], ◌∷◌, List, length, Option, none, some, contains, extend,
  extend-Distinct, Distinct, ◌≡◌, ◌↔◌, inl, inr, refl, arith,
}
use t2_bus.Text.{Text, Segments, text_discrete, wildcard, double_wildcard}
use t2_bus.Topic.{Topic, segments}
use t2_bus.Directory.{
  Directory, Children, node, nil, child, get_child, fold_children, Visit, visit_some, match_double,
  match_single, match_word, collect_step, collect_subscribers, height, height_children,
  get_subscribers_segments, get_subscribers,
}
use t2_bus.Directory.View.{subscribers_at}
use t2_bus.Directory.WellFormed.{IsWellFormed}
use t2_bus.Directory.Overlap.{Overlap}
use Sound.{collect_subscribers-IsSound}
use Complete.{collect_subscribers-IsComplete}

-- A path to a subscriber is no longer than the tree is high: the fuel is enough.
mutual
  unfolding subscribers_at height

  length-le-height :
      (d : Directory) (x : ℕ) (p : Segments)
      → contains x (subscribers_at p d) ≡ true
      → length p ≤ height d
  length-le-height (node o cs ss) x [] h = omega arith
  length-le-height (node o cs ss) x (k ∷ p) h = length-le-height_children cs x k p h

  length-le-height_children :
      (cs : Children) (x : ℕ) (k : Text) (p : Segments)
      → contains x (elim (get_child k cs) [ none ↦ [] | some d ↦ subscribers_at p d ]) ≡ true
      → suc (length p) ≤ height_children cs
  length-le-height_children nil x k p h = cc
  length-le-height_children (child j d cs) x k p h =
      ground (arith, length-le-height d x p, length-le-height_children cs x k p)

-- The clients that a well-formed directory returns for a published topic are exactly those with a
-- subscription that overlaps it, wildcards on both sides included.
pub get_subscribers_iff :
    (d : Directory) (t : Topic) (x : ℕ)
    → IsWellFormed d
    → (contains x (get_subscribers t d) ≡ true)
      ↔ ((p : Segments) × (contains x (subscribers_at p d) ≡ true) × Overlap p (segments t))
unfolding get_subscribers
get_subscribers_iff d t x w = (
  λ h. elim (collect_subscribers-IsSound x _ d (segments t) false [] w h) [
    | inl early ↦ absurd (cc)
    | inr hit ↦ hit
  ],
  λ (p, sub, ov).
      collect_subscribers-IsComplete x _ p d (segments t) false []
        (omega (arith, length-le-height d x p sub)) sub ov,
)

-- A pass keeps the collected clients distinct.
abbrev KeepsDistinct : Visit → Type 0
KeepsDistinct visit =
    (d : Directory) (topic : Segments) (flag : Bool) (acc : List ℕ)
    → Distinct acc
    → Distinct (visit d topic flag acc)

fold_children-Distinct :
    (g : Text → Directory → List ℕ → List ℕ) (cs : Children) (acc : List ℕ)
    → ((k : Text) (d : Directory) (a : List ℕ) → Distinct a → Distinct (g k d a))
    → Distinct acc
    → Distinct (fold_children g cs acc)
unfolding fold_children
fold_children-Distinct g nil acc keep h = h
fold_children-Distinct g (child k d cs) acc keep h =
    fold_children-Distinct g cs (g k d acc) keep (keep k d acc h)

visit_some-Distinct :
    (r : Option Directory) (f : Directory → List ℕ → List ℕ) (acc : List ℕ)
    → ((d : Directory) (a : List ℕ) → Distinct a → Distinct (f d a))
    → Distinct acc
    → Distinct (visit_some r f acc)
visit_some-Distinct none f acc keep h = h
visit_some-Distinct (some d) f acc keep h = keep d acc h

ite-Distinct :
    {P : Type 0} (q : Dec P) (xs ys : List ℕ) → Distinct xs → Distinct ys → Distinct (ite q xs ys)
ite-Distinct q xs ys h k = ground arith

collect_step-KeepsDistinct :
    (visit : Visit) → KeepsDistinct visit → KeepsDistinct (collect_step visit)
unfolding collect_step
collect_step-KeepsDistinct visit keep d [] true acc h = keep d [] false acc h
collect_step-KeepsDistinct visit keep d (s ∷ rest) true acc h =
    keep d rest true _ (keep d (s ∷ rest) false acc h)
collect_step-KeepsDistinct visit keep (node o cs ss) [] false acc h =
    visit_some-Distinct (get_child double_wildcard cs) _ _ (λ d. keep d [] true)
      (extend-Distinct acc ss h)
collect_step-KeepsDistinct visit keep (node o cs ss) (s ∷ rest) false acc h =
    ite-Distinct (text_discrete s double_wildcard) _ _
      (fold_children-Distinct _ cs _ (λ k d. keep d (s ∷ rest) false)
        (keep (node o cs ss) rest false acc h))
      (ite-Distinct (text_discrete s wildcard) _ _
        (fold_children-Distinct _ cs acc
          (λ k d a dist.
            ite-Distinct (text_discrete k double_wildcard) _ _ (keep d (s ∷ rest) true a dist)
              (keep d rest false a dist))
          h)
        (visit_some-Distinct (get_child double_wildcard cs) _ _ (λ d. keep d (s ∷ rest) true)
          (visit_some-Distinct (get_child wildcard cs) _ _ (λ d. keep d rest false)
            (visit_some-Distinct (get_child s cs) _ _ (λ d. keep d rest false) h))))

collect_subscribers-KeepsDistinct : (f : ℕ) → KeepsDistinct (collect_subscribers f)
unfolding collect_subscribers
collect_subscribers-KeepsDistinct zero = λ d topic flag acc h. h
collect_subscribers-KeepsDistinct (suc f) =
    collect_step-KeepsDistinct (collect_subscribers f) (collect_subscribers-KeepsDistinct f)

-- No client is returned twice, whatever the directory.
pub get_subscribers-Distinct : (t : Topic) (d : Directory) → Distinct (get_subscribers t d)
unfolding get_subscribers
get_subscribers-Distinct t d = collect_subscribers-KeepsDistinct _ d (segments t) false [] tt
