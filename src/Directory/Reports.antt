-- ===== src/Directory/Reports.antt =====
-- The topics that `drop_client` (src/directory.rs) returns.
use mathlib.Core.Option.{some-injective}
use mathlib.Core.List.{append-nil, append_assoc}
use t2_bus.Base.{
  ℕ, Bool, true, false, [], ◌∷◌, ◌++◌, List, Option, none, some, remove, Distinct, Member, subst,
  Member-append, Member-append_left, Member-append_last, Option-cases, ◌≡◌, ◌⊎◌, ◌↔◌, inl, inr,
  refl, arith,
}
use t2_bus.Text.{Text, Segments, text_discrete}
use t2_bus.Topic.{Topic, from_valid_segments}
use t2_bus.Directory.{
  Directory, Children, node, nil, child, get_child, report, now_empty, drop_client_from,
  drop_client_children, drop_client,
}
use t2_bus.Directory.View.{subscribers_at}
use t2_bus.Directory.WellFormed.{IsWellFormed, AreWellFormed, get_child-IsWellFormed}

report_sound :
    (b : Bool) (t : Option Topic) (results : List Topic) (r : Topic)
    → Member r (report b t results)
    → Member r results ⊎ ((b ≡ true) × (t ≡ some r))
unfolding report
report_sound true (some t) results r m = elim (Member-append r results t m) [
  | inl k ↦ inl k
  | inr e ↦ inr (refl, cc)
]
report_sound true none results r m = inl m
report_sound false t results r m = inl m

report_keeps :
    (b : Bool) (t : Option Topic) (results : List Topic) (r : Topic)
    → Member r results
    → Member r (report b t results)
unfolding report
report_keeps true (some t) results r m = Member-append_left r results t m
report_keeps true none results r m = m
report_keeps false t results r m = m

report_adds :
    (b : Bool) (t : Option Topic) (results : List Topic) (r : Topic)
    → b ≡ true
    → t ≡ some r
    → Member r (report b t results)
unfolding report
report_adds true (some t) results r e f =
    subst (λ s. Member s (results ++ t ∷ [])) (some-injective _ _ f) (Member-append_last results t)
report_adds true none results r e f = cc
report_adds false t results r e f = cc

module _ (client : ℕ) (r : Topic) where
  -- `topic` leads to `d`, and below it the client was the last subscriber at `p`.
  abbrev Last : Segments → Directory → Type 0
  Last topic d =
      (p : Segments) × (from_valid_segments (topic ++ p) ≡ some r)
      × (now_empty client (subscribers_at p d) ≡ true)

  abbrev LastBelow : Segments → Children → Type 0
  LastBelow topic cs =
      (k : Text) × (d : Directory) × (get_child k cs ≡ some d) × Last (topic ++ k ∷ []) d

  mutual
    unfolding drop_client_from IsWellFormed get_child subscribers_at

    sound_from :
        (d : Directory) (topic : Segments) (results : List Topic)
        → IsWellFormed d
        → Member r (drop_client_from client topic results d).1
        → Member r results ⊎ Last topic d
    sound_from (node o cs ss) topic results w m = elim (sound_children cs topic _ w.1 m) [
      | inl k ↦ elim (report_sound _ _ results r k) [
        | inl old ↦ inl old
        | inr (b, e) ↦ inr ([], rw append-nil e, b)
      ]
      | inr (k, d, found, (p, e, b)) ↦
          inr (k ∷ p, rw append_assoc at e, rw (found, subscribers_at) b)
    ]

    sound_children :
        (cs : Children) (topic : Segments) (results : List Topic)
        → AreWellFormed cs
        → Member r (drop_client_children client topic results cs).1
        → Member r results ⊎ LastBelow topic cs
    sound_children nil topic results w m = inl m
    sound_children (child k d cs) topic results w m = elim (sound_children cs topic _ w.2 m) [
      | inl early ↦ elim (sound_from d (topic ++ k ∷ []) results w.1 early) [
        | inl old ↦ inl old
        | inr hit ↦ inr (k, d, ground arith, hit)
      ]
      | inr (j, e, found, hit) ↦ inr (j, e, ground (arith, w.0, found), hit)
    ]

  mutual
    unfolding drop_client_from

    keeps_from :
        (d : Directory) (topic : Segments) (results : List Topic)
        → Member r results
        → Member r (drop_client_from client topic results d).1
    keeps_from (node o cs ss) topic results m =
        keeps_children cs topic _ (report_keeps _ _ results r m)

    keeps_children :
        (cs : Children) (topic : Segments) (results : List Topic)
        → Member r results
        → Member r (drop_client_children client topic results cs).1
    keeps_children nil topic results m = m
    keeps_children (child k d cs) topic results m =
        keeps_children cs topic _ (keeps_from d (topic ++ k ∷ []) results m)

  mutual
    unfolding drop_client_from get_child subscribers_at

    complete_from :
        (d : Directory) (topic : Segments) (results : List Topic)
        → Last topic d
        → Member r (drop_client_from client topic results d).1
    complete_from (node o cs ss) topic results ([], e, b) =
        keeps_children cs topic _ (report_adds _ _ results r b (rw append-nil at e))
    complete_from (node o cs ss) topic results (k ∷ p, e, b) = complete_children cs k p topic _ e b

    complete_children :
        (cs : Children) (k : Text) (p : Segments) (topic : Segments) (results : List Topic)
        → from_valid_segments (topic ++ k ∷ p) ≡ some r
        → now_empty client (elim (get_child k cs) [ none ↦ [] | some d ↦ subscribers_at p d ])
          ≡ true
        → Member r (drop_client_children client topic results cs).1
    complete_children nil k p topic results e b = cc
    complete_children (child j d cs) k p topic results e b = elim (text_discrete j k) [
      | yes h ↦
          keeps_children cs topic _ (
            complete_from d (topic ++ j ∷ []) results
              (p, rw (append_assoc, h) e, ground (arith, b)))
      | no n ↦ complete_children cs k p topic _ e (ground (arith, b))
    ]

-- The only subscriber left.
now_empty_iff :
    (client : ℕ) (ss : List ℕ) → Distinct ss → (now_empty client ss ≡ true) ↔ (ss ≡ client ∷ [])
unfolding remove
now_empty_iff client [] d = (λ e. cc, λ e. cc)
now_empty_iff client (x ∷ []) d = (λ e. ground arith, λ e. ground arith)
now_empty_iff client (x ∷ y ∷ ss) d = (λ e. absurd (ground (arith, d.0, e)), λ e. ground arith)

subscribers_at-Distinct :
    (p : Segments) (d : Directory) → IsWellFormed d → Distinct (subscribers_at p d)
unfolding subscribers_at IsWellFormed
subscribers_at-Distinct [] (node o cs ss) w = w.0
subscribers_at-Distinct (s ∷ p) (node o cs ss) w = elim (Option-cases (get_child s cs)) [
  | inl e ↦ rw (e, subscribers_at) tt
  | inr (d, e) ↦
      rw (e, subscribers_at) (subscribers_at-Distinct p d (get_child-IsWellFormed s cs e w.1))
]

-- A well-formed directory reports a dropped client's topic exactly if the client was its only
-- subscriber.
pub drop_client_reports :
    (client : ℕ) (d : Directory) (r : Topic)
    → IsWellFormed d
    → Member r (drop_client client d).1
      ↔ ((p : Segments) × (from_valid_segments p ≡ some r) × (subscribers_at p d ≡ client ∷ []))
unfolding drop_client
drop_client_reports client d r w = (
  λ m. elim (sound_from client r d [] [] w m) [
    | inl none_before ↦ absurd none_before
    | inr (p, e, b) ↦ (p, e, (now_empty_iff client _ (subscribers_at-Distinct p d w)).0 b)
  ],
  λ (p, e, b).
      complete_from client r d [] []
        (p, e, (now_empty_iff client _ (subscribers_at-Distinct p d w)).1 b),
)
