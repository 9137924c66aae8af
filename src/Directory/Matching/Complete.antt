-- ===== src/Directory/Matching/Complete.antt =====
-- `_get_subscribers` (src/directory.rs): which clients the search comes to, with enough fuel.
use mathlib.Core.Logic.{ite, if_pos, if_neg}
use t2_bus.Base.{
  ℕ, zero, suc, ◌+◌, ◌*◌, ◌<◌, Bool, true, false, ◌||◌, [], ◌∷◌, List, length, Option, none, some,
  contains, contains-extend, ◌≡◌, ◌≢◌, ◌⊎◌, inl, inr, refl, ap, subst, arith,
}
use t2_bus.Text.{Text, Segments, text_discrete, wildcard, double_wildcard}
use t2_bus.Directory.{
  Directory, Children, node, nil, child, get_child, fold_children, Visit, visit_some, match_double,
  match_single, match_word, collect_step, collect_subscribers,
}
use t2_bus.Directory.View.{subscribers_at}
use t2_bus.Directory.Overlap.{
  Meets, meets, Overlap, from_double, from_double_pub, from_single, at_end,
}
use t2_bus.Directory.Matching.Sound.{pending}

-- A subscriber at `k ∷ p` is a subscriber at `p` of the child `k`.
child_of_hit :
    (x : ℕ) (k : Text) (p : Segments) (o : Option ℕ) (cs : Children) (ss : List ℕ)
    → contains x (subscribers_at (k ∷ p) (node o cs ss)) ≡ true
    → (d : Directory) × (get_child k cs ≡ some d) × (contains x (subscribers_at p d) ≡ true)
unfolding subscribers_at
child_of_hit x k p o cs ss h = ground arith

module _ (x : ℕ) where
  abbrev pub Keeps : Visit → Type 0
  Keeps visit =
      (d : Directory) (topic : Segments) (flag : Bool) (acc : List ℕ)
      → contains x acc ≡ true
      → contains x (visit d topic flag acc) ≡ true

  fold_children-keeps :
      (g : Text → Directory → List ℕ → List ℕ) (cs : Children) (acc : List ℕ)
      → ((k : Text) (d : Directory) (a : List ℕ)
          → contains x a ≡ true
          → contains x (g k d a) ≡ true)
      → contains x acc ≡ true
      → contains x (fold_children g cs acc) ≡ true
  unfolding fold_children
  fold_children-keeps g nil acc keep h = h
  fold_children-keeps g (child k d cs) acc keep h =
      fold_children-keeps g cs (g k d acc) keep (keep k d acc h)

  fold_children-finds :
      (g : Text → Directory → List ℕ → List ℕ) (cs : Children) (acc : List ℕ) (k : Text)
      (d : Directory)
      → ((j : Text) (e : Directory) (a : List ℕ)
          → contains x a ≡ true
          → contains x (g j e a) ≡ true)
      → get_child k cs ≡ some d
      → ((a : List ℕ) → contains x (g k d a) ≡ true)
      → contains x (fold_children g cs acc) ≡ true
  unfolding fold_children get_child
  fold_children-finds g nil acc k d keep e found = cc
  fold_children-finds g (child j b cs) acc k d keep e found = elim (text_discrete j k) [
    | yes h ↦ fold_children-keeps g cs (g j b acc) keep (ground (arith, found acc))
    | no n ↦ fold_children-finds g cs (g j b acc) k d keep (ground arith) found
  ]

  visit_some-keeps :
      (r : Option Directory) (f : Directory → List ℕ → List ℕ) (acc : List ℕ)
      → ((d : Directory) (a : List ℕ) → contains x a ≡ true → contains x (f d a) ≡ true)
      → contains x acc ≡ true
      → contains x (visit_some r f acc) ≡ true
  visit_some-keeps none f acc keep h = h
  visit_some-keeps (some d) f acc keep h = keep d acc h

  module _ (visit : Visit) (keep : Keeps visit) where
    single-keeps :
        (s : Text) (rest : Segments) (k : Text) (e : Directory) (a : List ℕ)
        → contains x a ≡ true
        → contains x (
            ite
              (text_discrete k double_wildcard)
              (visit e (s ∷ rest) true a)
              (visit e rest false a))
          ≡ true
    single-keeps s rest k e a h = elim (text_discrete k double_wildcard) [
      | yes p ↦ rw (if_pos _ p) (keep e (s ∷ rest) true a h)
      | no n ↦ rw (if_neg _ n) (keep e rest false a h)
    ]

    collect_step-Keeps : Keeps (collect_step visit)
    unfolding collect_step
    collect_step-Keeps d [] true acc h = keep d [] false acc h
    collect_step-Keeps d (s ∷ rest) true acc h = keep d rest true _ (keep d (s ∷ rest) false acc h)
    collect_step-Keeps (node o cs ss) [] false acc h =
        visit_some-keeps (get_child double_wildcard cs) _ _ (λ d. keep d [] true)
          (rw contains-extend (ground arith))
    collect_step-Keeps (node o cs ss) (s ∷ rest) false acc h =
        elim (text_discrete s double_wildcard) [
          | yes p ↦ rw (if_pos _ p) (
              fold_children-keeps _ cs _ (λ k d. keep d (s ∷ rest) false)
                (keep (node o cs ss) rest false acc h))
          | no n ↦ elim (text_discrete s wildcard) [
            | yes p ↦
                rw (if_neg _ n, if_pos _ p) (fold_children-keeps _ cs acc (single-keeps s rest) h)
            | no m ↦
                rw (if_neg _ n, if_neg _ m)
                  (visit_some-keeps (get_child double_wildcard cs) _ _ (λ d. keep d (s ∷ rest) true)
                    (visit_some-keeps (get_child wildcard cs) _ _ (λ d. keep d rest false)
                      (visit_some-keeps (get_child s cs) _ _ (λ d. keep d rest false) h)))
          ]
        ]

  pub collect_subscribers-Keeps : (f : ℕ) → Keeps (collect_subscribers f)
  unfolding collect_subscribers
  collect_subscribers-Keeps zero = λ d topic flag acc h. h
  collect_subscribers-Keeps (suc f) =
      collect_step-Keeps (collect_subscribers f) (collect_subscribers-Keeps f)

not_double : {a b : Text} → Meets a b → a ≢ double_wildcard
not_double (meets na _ _) = na

-- A published word meets itself and `*`.
Meets-word : {a b : Text} → b ≢ wildcard → Meets a b → (a ≡ b) ⊎ (a ≡ wildcard)
Meets-word n (meets _ _ (inl e)) = inl e
Meets-word n (meets _ _ (inr (inl e))) = inr e
Meets-word n (meets _ _ (inr (inr e))) = absurd (n e)

Or-true : (a b : Bool) → b ≡ true → (a || b) ≡ true
Or-true a b h = ground arith

abbrev pub cost : Bool → ℕ
cost true = 1
cost false = 0

module _ (x : ℕ) where
  -- Whatever overlaps within the budget `n` is found.
  abbrev pub IsComplete : ℕ → Visit → Type 0
  IsComplete n visit =
      (p : Segments) (d : Directory) (topic : Segments) (flag : Bool) (acc : List ℕ)
      → 2 * length p + 2 * length topic + cost flag < n
      → contains x (subscribers_at p d) ≡ true
      → Overlap (pending flag p) topic
      → contains x (visit d topic flag acc) ≡ true

  visit_some-finds :
      (k : Text) (cs : Children) (f : Directory → List ℕ → List ℕ) (acc : List ℕ) (d : Directory)
      → get_child k cs ≡ some d
      → contains x (f d acc) ≡ true
      → contains x (visit_some (get_child k cs) f acc) ≡ true
  visit_some-finds k cs f acc d e h = rw e h

  module _ (n : ℕ) (visit : Visit) (keep : Keeps x visit) (complete : IsComplete n visit) where
    in_double :
        (p : Segments) (d : Directory) (topic : Segments) (acc : List ℕ)
        → 2 * length p + 2 * length topic + 1 < suc n
        → contains x (subscribers_at p d) ≡ true
        → Overlap (double_wildcard ∷ p) topic
        → contains x (collect_step visit d topic true acc) ≡ true
    unfolding collect_step
    in_double p d [] acc b h ov =
        from_double refl ov (λ o. complete p d [] false acc (omega arith) h o) (λ c u e. cc)
    in_double p d (s ∷ rest) acc b h ov =
        from_double refl ov
          (λ o. keep d rest true _ (complete p d (s ∷ rest) false acc (omega arith) h o))
          (λ c u e o. complete p d rest true _ (omega arith) h (ground (arith, o)))

    module _ (o : Option ℕ) (cs : Children) (ss : List ℕ) where
      -- A subscribed `**` below this node takes over.
      through_double :
          (p : Segments) (topic : Segments) (acc : List ℕ) (a : Text) (u : Segments)
          → p ≡ a ∷ u
          → a ≡ double_wildcard
          → 2 * length p + 2 * length topic < suc n
          → contains x (subscribers_at p (node o cs ss)) ≡ true
          → Overlap p topic
          → contains x (visit_some (get_child double_wildcard cs) (λ e b. visit e topic true b) acc)
            ≡ true
      through_double p topic acc a u e dbl b h ov =
          let e' : p ≡ double_wildcard ∷ u = cc in
          let (d, found, sub) =
            child_of_hit x double_wildcard u o cs ss
              (subst (λ q. contains x (subscribers_at q (node o cs ss)) ≡ true) e' h) in
          visit_some-finds double_wildcard cs _ acc d found (
            complete u d topic true acc (omega (arith, ap length e')) sub
              (subst (λ q. Overlap q topic) e' ov))

      -- A subscribed segment that meets the first published one.
      below_finds :
          (p rest : Segments) (b : Text) (a : Text) (u : Segments)
          → p ≡ a ∷ u
          → 2 * length p + 2 * length (b ∷ rest) < suc n
          → contains x (subscribers_at p (node o cs ss)) ≡ true
          → Overlap u rest
          → (d : Directory) × (get_child a cs ≡ some d)
            × ((acc : List ℕ) → contains x (visit d rest false acc) ≡ true)
      below_finds p rest b a u e bound h ov =
          let (d, found, sub) =
            child_of_hit x a u o cs ss
              (subst (λ q. contains x (subscribers_at q (node o cs ss)) ≡ true) e h) in
          (d, found, λ acc. complete u d rest false acc (omega (arith, ap length e)) sub ov)

      double_complete :
          (p : Segments) (s : Text) (rest : Segments) (acc : List ℕ)
          → s ≡ double_wildcard
          → 2 * length p + 2 * length (s ∷ rest) < suc n
          → contains x (subscribers_at p (node o cs ss)) ≡ true
          → Overlap p (s ∷ rest)
          → contains x (match_double visit (node o cs ss) cs s rest acc) ≡ true
      unfolding match_double
      double_complete p s rest acc dbl b h ov =
          from_double_pub dbl ov
            (λ ov'.
              fold_children-keeps x _ cs _ (λ k d. keep d (s ∷ rest) false)
                (complete p (node o cs ss) rest false acc (omega arith) h ov'))
            (λ a u e ov'.
              let (d, found, sub) =
                child_of_hit x a u o cs ss
                  (subst (λ q. contains x (subscribers_at q (node o cs ss)) ≡ true) e h) in
              fold_children-finds x _ cs _ a d (λ k c. keep c (s ∷ rest) false) found
                (λ acc'. complete u d (s ∷ rest) false acc' (omega (arith, ap length e)) sub ov'))

      single_complete :
          (p : Segments) (s : Text) (rest : Segments) (acc : List ℕ)
          → s ≢ double_wildcard
          → 2 * length p + 2 * length (s ∷ rest) < suc n
          → contains x (subscribers_at p (node o cs ss)) ≡ true
          → Overlap p (s ∷ rest)
          → contains x (match_single visit cs s rest acc) ≡ true
      unfolding match_single
      single_complete p s rest acc nd b h ov =
          from_single nd ov
            (λ a u e m ov'.
              let (d, found, hit) = below_finds p rest s a u e b h ov' in
              fold_children-finds x _ cs acc a d (single-keeps x visit keep s rest) found
                (λ acc'. rw (if_neg _ (not_double m)) (hit acc')))
            (λ a u e dbl.
              let e' : p ≡ double_wildcard ∷ u = cc in
              let (d, found, sub) =
                child_of_hit x double_wildcard u o cs ss
                  (subst (λ q. contains x (subscribers_at q (node o cs ss)) ≡ true) e' h) in
              fold_children-finds x _ cs acc double_wildcard d (single-keeps x visit keep s rest)
                found
                (λ acc'. rw (if_pos _ refl) (
                  complete u d (s ∷ rest) true acc' (omega (arith, ap length e')) sub
                    (subst (λ q. Overlap q (s ∷ rest)) e' ov))))

      word_complete :
          (p : Segments) (s : Text) (rest : Segments) (acc : List ℕ)
          → s ≢ double_wildcard
          → s ≢ wildcard
          → 2 * length p + 2 * length (s ∷ rest) < suc n
          → contains x (subscribers_at p (node o cs ss)) ≡ true
          → Overlap p (s ∷ rest)
          → contains x (match_word visit cs s rest acc) ≡ true
      unfolding match_word
      word_complete p s rest acc nd nw b h ov =
          from_single nd ov
            (λ a u e m ov'.
              let (d, found, hit) = below_finds p rest s a u e b h ov' in
              visit_some-keeps x (get_child double_wildcard cs) _ _ (λ c. keep c (s ∷ rest) true)
                (elim (Meets-word nw m) [
                  | inl same ↦
                      visit_some-keeps x (get_child wildcard cs) _ _ (λ c. keep c rest false)
                        (visit_some-finds s cs _ acc d
                          (subst (λ k. get_child k cs ≡ some d) same found) (hit acc))
                  | inr any ↦
                      visit_some-finds wildcard cs _ _ d
                        (subst (λ k. get_child k cs ≡ some d) any found) (hit _)
                ]))
            (λ a u e dbl. through_double p (s ∷ rest) _ a u e dbl b h ov)

      node_complete :
          (p : Segments) (topic : Segments) (acc : List ℕ)
          → 2 * length p + 2 * length topic < suc n
          → contains x (subscribers_at p (node o cs ss)) ≡ true
          → Overlap p topic
          → contains x (collect_step visit (node o cs ss) topic false acc) ≡ true
      unfolding collect_step subscribers_at
      node_complete p [] acc b h ov =
          at_end ov
            (λ e.
              visit_some-keeps x (get_child double_wildcard cs) _ _ (λ d. keep d [] true)
                (rw contains-extend (
                  Or-true (contains x acc) (contains x ss)
                    (subst (λ q. contains x (subscribers_at q (node o cs ss)) ≡ true) e h))))
            (λ a u e dbl. through_double p [] _ a u e dbl b h ov)
      node_complete p (s ∷ rest) acc b h ov = elim (text_discrete s double_wildcard) [
        | yes dbl ↦ rw (if_pos _ dbl) (double_complete p s rest acc dbl b h ov)
        | no nd ↦ elim (text_discrete s wildcard) [
          | yes e ↦ rw (if_neg _ nd, if_pos _ e) (single_complete p s rest acc nd b h ov)
          | no nw ↦ rw (if_neg _ nd, if_neg _ nw) (word_complete p s rest acc nd nw b h ov)
        ]
      ]

    collect_step-IsComplete : IsComplete (suc n) (collect_step visit)
    collect_step-IsComplete p d topic true acc b h ov = in_double p d topic acc b h ov
    collect_step-IsComplete p (node o cs ss) topic false acc b h ov =
        node_complete o cs ss p topic acc (omega arith) h ov

  pub collect_subscribers-IsComplete : (f : ℕ) → IsComplete f (collect_subscribers f)
  unfolding collect_subscribers
  collect_subscribers-IsComplete zero = λ p d topic flag acc b h ov. absurd (omega arith)
  collect_subscribers-IsComplete (suc f) =
      collect_step-IsComplete f (collect_subscribers f) (collect_subscribers-Keeps x f)
        (collect_subscribers-IsComplete f)
