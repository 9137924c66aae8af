-- ===== src/Directory/Search.antt =====
-- The recursion of `_get_subscribers` (src/directory.rs) ends.

use t2_bus.Base.{
  ℕ, zero, suc, ◌+◌, ◌*◌, ◌≤◌, ◌<◌, if◌then◌else◌, Bool, true, false, List, [], ◌∷◌, Option, none,
  some, length, extend, ◌≡◌, refl, ◌∙◌, arith,
}
use t2_bus.Text.{Text, Segments, wildcard, double_wildcard}
use t2_bus.Topic.{Topic, segments}
use t2_bus.Directory.{
  Directory, Children, node, nil, child, get_child, fold_children, Visit, visit_some, match_double,
  match_single, match_word, collect_step, collect_subscribers, height, height_children,
  get_subscribers,
}

-- A bound on the depth of the calls that a call makes.
abbrev pub depth : Directory → Segments → Bool → ℕ
depth d topic flag = 2 * height d + 2 * length topic + (if flag then 1 else 0)

-- Two ways to go on agree wherever a call is less deep than `n`.
abbrev pub AgreeBelow : ℕ → Visit → Visit → Type 0
AgreeBelow n v w =
    (d : Directory) (topic : Segments) (flag : Bool) (acc : List ℕ)
    → depth d topic flag < n
    → v d topic flag acc ≡ w d topic flag acc

height_child :
    (k : Text) (cs : Children) (d : Directory)
    → get_child k cs ≡ some d
    → height d < height_children cs
unfolding height get_child
height_child k nil d e = ground (arith, e)
height_child k (child j b cs) d e = ground (arith, e, height_child k cs d)

-- A pass over children with functions that agree on low trees.
fold_children_agree :
    (f g : Text → Directory → List ℕ → List ℕ) (cs : Children) (acc : List ℕ) (m : ℕ)
    → height_children cs ≤ m
    → ((k : Text) (d : Directory) (a : List ℕ) → height d < m → f k d a ≡ g k d a)
    → fold_children f cs acc ≡ fold_children g cs acc
unfolding fold_children height
fold_children_agree f g nil acc m h e = refl
fold_children_agree f g (child k d cs) acc m h e =
    rw (e k d acc (omega arith)) (fold_children_agree f g cs (g k d acc) m (omega arith) e)

visit_some_agree :
    (k : Text) (cs : Children) (f g : Directory → List ℕ → List ℕ) (acc : List ℕ)
    → ((d : Directory) (a : List ℕ) → height d < height_children cs → f d a ≡ g d a)
    → visit_some (get_child k cs) f acc ≡ visit_some (get_child k cs) g acc
visit_some_agree k cs f g acc e = go (get_child k cs) refl
  where
    go : (o : Option Directory) → get_child k cs ≡ o → visit_some o f acc ≡ visit_some o g acc
    go none same = refl
    go (some d) same = e d acc (height_child k cs d same)

module _ (v w : Visit) (n : ℕ) (agree : AgreeBelow n v w) where
  match_double_agree :
      (o : Option ℕ) (cs : Children) (ss : List ℕ) (s : Text) (rest : Segments) (acc : List ℕ)
      → depth (node o cs ss) (s ∷ rest) false ≤ n
      → match_double v (node o cs ss) cs s rest acc ≡ match_double w (node o cs ss) cs s rest acc
  unfolding match_double height
  match_double_agree o cs ss s rest acc h = rw (agree (node o cs ss) rest false acc (omega arith)) (
      fold_children_agree _ _ cs _ (height_children cs) (omega arith)
        λ k d a b. agree d (s ∷ rest) false a (omega arith))

  match_single_agree :
      (o : Option ℕ) (cs : Children) (ss : List ℕ) (s : Text) (rest : Segments) (acc : List ℕ)
      → depth (node o cs ss) (s ∷ rest) false ≤ n
      → match_single v cs s rest acc ≡ match_single w cs s rest acc
  unfolding match_single height
  match_single_agree o cs ss s rest acc h =
      fold_children_agree _ _ cs acc (height_children cs) (omega arith) λ k d a b.
        rw (agree d (s ∷ rest) true a (omega arith), agree d rest false a (omega arith)) refl

  match_word_agree :
      (o : Option ℕ) (cs : Children) (ss : List ℕ) (s : Text) (rest : Segments) (acc : List ℕ)
      → depth (node o cs ss) (s ∷ rest) false ≤ n
      → match_word v cs s rest acc ≡ match_word w cs s rest acc
  unfolding match_word height
  match_word_agree o cs ss s rest acc h =
      rw
        (visit_some_agree s cs (λ e a. v e rest false a) (λ e a. w e rest false a) acc
          (λ d a b. agree d rest false a (omega arith)))
        (rw
          (visit_some_agree wildcard cs (λ e a. v e rest false a) (λ e a. w e rest false a) _
            (λ d a b. agree d rest false a (omega arith)))
          (visit_some_agree double_wildcard cs _ _ _
            (λ d a b. agree d (s ∷ rest) true a (omega arith))))

  -- One call looks only at calls that are less deep.
  collect_step_agree :
      (d : Directory) (topic : Segments) (flag : Bool) (acc : List ℕ)
      → depth d topic flag ≤ n
      → collect_step v d topic flag acc ≡ collect_step w d topic flag acc
  unfolding collect_step height
  collect_step_agree d [] true acc h = agree d [] false acc (omega arith)
  collect_step_agree d (s ∷ rest) true acc h =
      rw (agree d (s ∷ rest) false acc (omega arith)) (agree d rest true _ (omega arith))
  collect_step_agree (node o cs ss) [] false acc h =
      visit_some_agree double_wildcard cs _ _ (extend acc ss)
        (λ d a b. agree d [] true a (omega arith))
  collect_step_agree (node o cs ss) (s ∷ rest) false acc h =
      rw
        (
          match_double_agree o cs ss s rest acc h,
          match_single_agree o cs ss s rest acc h,
          match_word_agree o cs ss s rest acc h,
        )
        refl

collect_subscribers_agree :
    (n f g : ℕ) → n ≤ f → n ≤ g → AgreeBelow n (collect_subscribers f) (collect_subscribers g)
unfolding collect_subscribers
collect_subscribers_agree zero f g hf hg d topic flag acc h = absurd (omega arith)
collect_subscribers_agree (suc n) zero g hf hg d topic flag acc h = absurd (omega arith)
collect_subscribers_agree (suc n) (suc f) zero hf hg d topic flag acc h = absurd (omega arith)
collect_subscribers_agree (suc n) (suc f) (suc g) hf hg d topic flag acc h =
    collect_step_agree (collect_subscribers f) (collect_subscribers g) n
      (collect_subscribers_agree n f g (omega arith) (omega arith)) d topic flag acc (omega arith)

-- The search ends: with fuel above twice the height of the tree and the length of the topic together
-- it returns what `get_subscribers` returns, and satisfies the recursive equation of the search, with
-- that fuel on both sides.
pub get_subscribers_ends :
    (t : Topic) (d : Directory) (f : ℕ)
    → 2 * height d + 2 * length (segments t) < f
    → (collect_subscribers f d (segments t) false [] ≡ get_subscribers t d)
      × (collect_subscribers f d (segments t) false []
          ≡ collect_step (collect_subscribers f) d (segments t) false [])
unfolding get_subscribers
get_subscribers_ends t d f h = (
  collect_subscribers_agree (2 * height d + 2 * length (segments t) + 1) f
      (2 * height d + 2 * length (segments t) + 1) (omega arith) (omega arith) d (segments t) false
      [] (omega arith),
  collect_subscribers_agree (2 * height d + 2 * length (segments t) + 1) f (suc f) (omega arith)
        (omega arith) d (segments t) false [] (omega arith)
      ∙ (unfold collect_subscribers in refl),
)
