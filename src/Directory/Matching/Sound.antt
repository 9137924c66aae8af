-- ===== src/Directory/Matching/Sound.antt =====
-- `_get_subscribers` (src/directory.rs): why a client may be among those collected.
use mathlib.Core.Logic.{if_pos, if_neg}
use t2_bus.Base.{
  ℕ, zero, suc, Bool, true, false, ◌||◌, [], ◌∷◌, List, Option, some, contains, contains-extend,
  Option-cases, ◌≡◌, ◌≢◌, ◌⊎◌, inl, inr, refl, sym, subst, arith,
}
use t2_bus.Text.{Text, Segments, text_discrete, wildcard, double_wildcard}
use t2_bus.Directory.{
  Directory, Children, node, nil, child, get_child, fold_children, Visit, visit_some, match_double,
  match_single, match_word, collect_step, collect_subscribers,
}
use t2_bus.Directory.View.{subscribers_at}
use t2_bus.Directory.WellFormed.{IsWellFormed, AreWellFormed, get_child-IsWellFormed}
use t2_bus.Directory.Overlap.{meets, Overlap, done, step, skip_sub, take_sub, skip_pub, take_pub}

-- The subscribed topic that is left: a `**` that is being matched comes first.
abbrev pub pending : Bool → Segments → Segments
pending true p = double_wildcard ∷ p
pending false p = p

-- Below `d` the client is subscribed to a topic that overlaps what is left of the published one.
abbrev pub Hit : ℕ → Directory → Segments → Bool → Type 0
Hit x d topic flag =
    (p : Segments) × (contains x (subscribers_at p d) ≡ true) × Overlap (pending flag p) topic

pub subscribers_at-child :
    (k : Text) (p : Segments) (o : Option ℕ) (cs : Children) (ss : List ℕ) {d : Directory}
    → get_child k cs ≡ some d
    → subscribers_at (k ∷ p) (node o cs ss) ≡ subscribers_at p d
unfolding subscribers_at
subscribers_at-child k p o cs ss e = rw (e, subscribers_at)

Or-cases : (a b : Bool) → (a || b) ≡ true → (a ≡ true) ⊎ (b ≡ true)
Or-cases true b h = inl refl
Or-cases false b h = inr h

module _ (x : ℕ) where
  abbrev pub IsSound : Visit → Type 0
  IsSound visit =
      (d : Directory) (topic : Segments) (flag : Bool) (acc : List ℕ)
      → IsWellFormed d
      → contains x (visit d topic flag acc) ≡ true
      → (contains x acc ≡ true) ⊎ Hit x d topic flag

  -- A pass over the children collects from one of them, reached by its name.
  fold_children_sound :
      {Q : Type 0} (g : Text → Directory → List ℕ → List ℕ) (cs : Children) (acc : List ℕ)
      → AreWellFormed cs
      → ((k : Text) (d : Directory) (a : List ℕ)
          → get_child k cs ≡ some d
          → contains x (g k d a) ≡ true
          → (contains x a ≡ true) ⊎ Q)
      → contains x (fold_children g cs acc) ≡ true
      → (contains x acc ≡ true) ⊎ Q
  unfolding fold_children IsWellFormed
  fold_children_sound g nil acc w each h = inl h
  fold_children_sound g (child k d cs) acc w each h =
      elim (fold_children_sound g cs (g k d acc) w.2
        (λ j e a found. each j e a (ground (arith, w.0, found))) h) [
          | inl early ↦ each k d acc (ground arith) early
          | inr q ↦ inr q
        ]

  visit_some_sound :
      {Q : Type 0} (k : Text) (cs : Children) (f : Directory → List ℕ → List ℕ) (acc : List ℕ)
      → ((d : Directory)
          → get_child k cs ≡ some d
          → contains x (f d acc) ≡ true
          → (contains x acc ≡ true) ⊎ Q)
      → contains x (visit_some (get_child k cs) f acc) ≡ true
      → (contains x acc ≡ true) ⊎ Q
  visit_some_sound k cs f acc each h = elim (Option-cases (get_child k cs)) [
    | inl e ↦ inl (rw e at h)
    | inr (d, e) ↦ each d e (rw e at h)
  ]

  module _ (visit : Visit) (sound : IsSound visit) (o : Option ℕ) (cs : Children) (ss : List ℕ)
      (w : IsWellFormed (node o cs ss)) where
    -- What is found below a child counts for the node.
    below :
        (k : Text) (d : Directory) (topic topic' : Segments) (flag : Bool) (acc : List ℕ)
        → get_child k cs ≡ some d
        → ((p : Segments) → Overlap (pending flag p) topic → Overlap (k ∷ p) topic')
        → contains x (visit d topic flag acc) ≡ true
        → (contains x acc ≡ true) ⊎ Hit x (node o cs ss) topic' false
    unfolding IsWellFormed
    below k d topic topic' flag acc e up h =
        elim (sound d topic flag acc (get_child-IsWellFormed k cs e w.1) h) [
          | inl early ↦ inl early
          | inr (p, sub, ov) ↦ inr (k ∷ p, rw (subscribers_at-child k p o cs ss e) sub, up p ov)
        ]

    double_sound :
        (s : Text) (rest : Segments) (acc : List ℕ)
        → s ≡ double_wildcard
        → contains x (match_double visit (node o cs ss) cs s rest acc) ≡ true
        → (contains x acc ≡ true) ⊎ Hit x (node o cs ss) (s ∷ rest) false
    unfolding match_double IsWellFormed
    double_sound s rest acc e h =
        elim (fold_children_sound _ cs _ w.1
          (λ k d a found. below k d (s ∷ rest) (s ∷ rest) false a found (λ p. take_pub e)) h) [
            | inl early ↦ elim (sound (node o cs ss) rest false acc w early) [
              | inl first ↦ inl first
              | inr (p, sub, ov) ↦ inr (p, sub, skip_pub e ov)
            ]
            | inr hit ↦ inr hit
          ]

    single_sound :
        (s : Text) (rest : Segments) (acc : List ℕ)
        → s ≢ double_wildcard
        → s ≡ wildcard
        → contains x (match_single visit cs s rest acc) ≡ true
        → (contains x acc ≡ true) ⊎ Hit x (node o cs ss) (s ∷ rest) false
    unfolding match_single IsWellFormed
    single_sound s rest acc n e = fold_children_sound _ cs acc w.1 λ k d a found.
        elim (text_discrete k double_wildcard) [
          | yes dbl ↦ λ h.
              below k d (s ∷ rest) (s ∷ rest) true a found
                (λ p ov. subst (λ j. Overlap (j ∷ p) (s ∷ rest)) (sym dbl) ov)
                (rw (if_pos _ dbl) at h)
          | no nd ↦ λ h.
              below k d rest (s ∷ rest) false a found (λ p. step (meets nd n (inr (inr e))))
                (rw (if_neg _ nd) at h)
        ]

    word_sound :
        (s : Text) (rest : Segments) (acc : List ℕ)
        → s ≢ double_wildcard
        → contains x (match_word visit cs s rest acc) ≡ true
        → (contains x acc ≡ true) ⊎ Hit x (node o cs ss) (s ∷ rest) false
    unfolding match_word
    word_sound s rest acc n h =
        elim (visit_some_sound double_wildcard cs _ _
          (λ d e. below double_wildcard d (s ∷ rest) (s ∷ rest) true _ e (λ p ov. ov)) h) [
            | inr hit ↦ inr hit
            | inl h2 ↦
                elim (visit_some_sound wildcard cs _ _
                  (λ d e.
                    below wildcard d rest (s ∷ rest) false _ e
                      (λ p. step (meets (ground arith) n (inr (inl refl)))))
                  h2) [
                    | inr hit ↦ inr hit
                    | inl h3 ↦
                        visit_some_sound s cs _ _
                          (λ d e.
                            below s d rest (s ∷ rest) false _ e (λ p. step (meets n n (inl refl))))
                          h3
                  ]
          ]

  collect_step-IsSound : (visit : Visit) → IsSound visit → IsSound (collect_step visit)
  unfolding collect_step
  collect_step-IsSound visit sound d [] true acc w h = elim (sound d [] false acc w h) [
    | inl early ↦ inl early
    | inr (p, sub, ov) ↦ inr (p, sub, skip_sub refl ov)
  ]
  collect_step-IsSound visit sound d (s ∷ rest) true acc w h = elim (sound d rest true _ w h) [
    | inr (p, sub, ov) ↦ inr (p, sub, take_sub refl ov)
    | inl early ↦ elim (sound d (s ∷ rest) false acc w early) [
      | inl first ↦ inl first
      | inr (p, sub, ov) ↦ inr (p, sub, skip_sub refl ov)
    ]
  ]
  collect_step-IsSound visit sound (node o cs ss) [] false acc w h =
      elim (visit_some_sound double_wildcard cs _ _
        (λ d e. below visit sound o cs ss w double_wildcard d [] [] true _ e (λ p ov. ov)) h) [
          | inr hit ↦ inr hit
          | inl early ↦ elim (Or-cases _ _ (rw contains-extend at early)) [
            | inl first ↦ inl first
            | inr here ↦ inr ([], unfold subscribers_at in here, done)
          ]
        ]
  collect_step-IsSound visit sound (node o cs ss) (s ∷ rest) false acc w h =
      elim (text_discrete s double_wildcard) [
        | yes dbl ↦ double_sound visit sound o cs ss w s rest acc dbl (rw (if_pos _ dbl) at h)
        | no nd ↦ elim (text_discrete s wildcard) [
          | yes e ↦
              single_sound visit sound o cs ss w s rest acc nd e (rw (if_neg _ nd, if_pos _ e) at h)
          | no ne ↦
              word_sound visit sound o cs ss w s rest acc nd (rw (if_neg _ nd, if_neg _ ne) at h)
        ]
      ]

  pub collect_subscribers-IsSound : (f : ℕ) → IsSound (collect_subscribers f)
  unfolding collect_subscribers
  collect_subscribers-IsSound zero = λ d topic flag acc w h. inl h
  collect_subscribers-IsSound (suc f) =
      collect_step-IsSound (collect_subscribers f) (collect_subscribers-IsSound f)
