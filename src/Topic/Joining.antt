-- ===== src/Topic/Joining.antt =====
-- Topics put together from segments, and their segments (src/topic.rs).
use t2_bus.Base.{
  ℕ, ◌==◌, true, false, Bool-cases, inl, inr, ◌⊎◌, [], ◌∷◌, ◌++◌, some, ◌≡◌, ◌≢◌, refl, ap, arith,
}
use t2_bus.Text.{lacks, Text, Segments, split, cons_head, path_separator}
use t2_bus.Topic.{
  TopicPath, Topic, is_root, segments, path_segments, path_from_valid_segments, push_segments,
  from_valid_segments,
}
use t2_bus.Err.{ok}
use t2_bus.Topic.Parse.{Patterns, is_segment, are_segments, validate_path, validate_protocol}
use t2_bus.Topic.RoundTrip.{IsValid}

-- Joined pieces, with the separator before every piece but the first.
join : ℕ → Text → Segments → Text
join sep path [] = path
join sep path (s ∷ ss) = path ++ sep ∷ join sep s ss

join-append :
    (p q : Text) (rs : Segments)
    → join path_separator ((p ++ path_separator ∷ []) ++ q) rs
      ≡ p ++ path_separator ∷ join path_separator q rs
unfolding join
join-append [] q [] = refl
join-append [] q (r ∷ rs) = refl
join-append (c ∷ p) q [] = ground (arith, join-append p q [])
join-append (c ∷ p) q (r ∷ rs) = ground (arith, join-append p q (r ∷ rs))

push_segments-join :
    (path : Text) (ss : Segments) → push_segments path ss ≡ join path_separator path ss
unfolding push_segments join
push_segments-join path [] = refl
push_segments-join path (s ∷ ss) =
    rw (push_segments-join ((path ++ path_separator ∷ []) ++ s) ss) (join-append path s ss)

abbrev join_all : Segments → Text
join_all [] = []
join_all (s ∷ ss) = join path_separator s ss

Segments-cases : (ss : Segments) → (ss ≡ []) ⊎ ((s : Text) × (rest : Segments) × (ss ≡ s ∷ rest))
Segments-cases [] = inl refl
Segments-cases (s ∷ rest) = inr (s, rest, refl)

join-cons :
    (c : ℕ) (s : Text) (ss : Segments)
    → join path_separator (c ∷ s) ss ≡ c ∷ join path_separator s ss
unfolding join
join-cons c s [] = refl
join-cons c s (r ∷ ss) = refl

join_all-cons_head : (c : ℕ) (ss : Segments) → join_all (cons_head c ss) ≡ c ∷ join_all ss
unfolding join
join_all-cons_head c [] = refl
join_all-cons_head c (s ∷ ss) = join-cons c s ss

split-ne-nil : (s : Text) → split path_separator s ≢ []
unfolding split
split-ne-nil [] = ground arith
split-ne-nil (c ∷ s) = elim (Segments-cases (split path_separator s)) [
  | inl e ↦ ground (arith, e)
  | inr (r, rest, e) ↦ ground (arith, e)
]

join_all-split : (s : Text) → join_all (split path_separator s) ≡ s
unfolding split join
join_all-split [] = refl
join_all-split (c ∷ s) = elim (Bool-cases (c == path_separator)) [
  | inl same ↦ elim (Segments-cases (split path_separator s)) [
    | inl e ↦ absurd (split-ne-nil s e)
    | inr (r, rest, e) ↦ ground (arith, same, e, join_all-split s)
  ]
  | inr other ↦
      ground (arith, other, join_all-cons_head c (split path_separator s), join_all-split s)
]

path_from_valid_segments-path_segments :
    (s : Text)
    → path_from_valid_segments (path_segments (record { text = s })) ≡ record { text = s }
unfolding path_from_valid_segments path_segments is_root
path_from_valid_segments-path_segments [] = refl
path_from_valid_segments-path_segments (c ∷ s) =
    elim (Segments-cases (split path_separator (c ∷ s))) [
      | inl e ↦ absurd (split-ne-nil (c ∷ s) e)
      | inr (r, rest, e) ↦ rw (e) (
          ap (λ x. record { text = x })
            (ground (arith, e, push_segments-join r rest, join_all-split (c ∷ s))))
    ]

-- Every topic is given back from its segments, the root path included.
pub from_valid_segments-segments : (t : Topic) → from_valid_segments (segments t) ≡ some t
unfolding from_valid_segments segments
from_valid_segments-segments t =
    ap (λ p. some (record { protocol = t.protocol; path = p }))
      (path_from_valid_segments-path_segments t.path.text)

split-lacks : (s : Text) → lacks path_separator s ≡ true → split path_separator s ≡ s ∷ []
unfolding split
split-lacks [] h = refl
split-lacks (c ∷ s) h = ground (arith, split-lacks s (ground arith))

pub split-append :
    (sep : ℕ) (s r : Text) → lacks sep s ≡ true → split sep (s ++ sep ∷ r) ≡ s ∷ split sep r
unfolding split
split-append sep [] r h = ground arith
split-append sep (c ∷ s) r h = ground (arith, split-append sep s r (ground arith))

is_segment-lacks : (s : Text) → is_segment s ≡ true → lacks path_separator s ≡ true
is_segment-lacks [] h = refl
is_segment-lacks (c ∷ []) h = ground arith
is_segment-lacks (c ∷ d ∷ []) h = ground arith
is_segment-lacks (c ∷ d ∷ e ∷ s) h = ground (arith, is_segment-lacks (d ∷ e ∷ s))

split-join :
    (s : Text) (ss : Segments)
    → are_segments (s ∷ ss) ≡ true
    → split path_separator (join path_separator s ss) ≡ s ∷ ss
unfolding join
split-join s [] h = split-lacks s (is_segment-lacks s (ground arith))
split-join s (r ∷ ss) h =
    rw
      (split-append path_separator s (join path_separator r ss) (is_segment-lacks s (ground arith)))
      (ap (λ x. s ∷ x) (split-join r ss (ground arith)))

join-ne-nil :
    (s : Text) (ss : Segments)
    → is_segment s ≡ true
    → is_root (record { text = join path_separator s ss }) ≡ false
unfolding join is_root
join-ne-nil [] ss h = ground arith
join-ne-nil (c ∷ s) [] h = refl
join-ne-nil (c ∷ s) (r ∷ ss) h = refl

segments-join :
    (s : Text) (ss : Segments)
    → are_segments (s ∷ ss) ≡ true
    → path_segments (record { text = join path_separator s ss }) ≡ s ∷ ss
unfolding path_segments
segments-join s ss h = rw (join-ne-nil s ss (ground arith)) (split-join s ss h)

module _ (patterns : Patterns) where
  joined-IsValid :
      (s : Text) (ss : Segments)
      → are_segments (s ∷ ss) ≡ true
      → validate_path patterns (join path_separator s ss) ≡ ok tt
  unfolding validate_path
  joined-IsValid s ss h = ground (
    arith,
    h,
    join-ne-nil s ss (ground arith),
    patterns.rgx_path_lem (join path_separator s ss),
    split-join s ss h,
  )

  -- A valid protocol and valid segments of a path make a valid topic, which has these segments
  -- again: nothing needs to be checked where a topic is put together from segments.
  pub from_valid_segments-IsValid :
      (protocol : Text) (ss : Segments)
      → validate_protocol patterns protocol ≡ ok tt
      → are_segments ss ≡ true
      → (t : Topic) × (from_valid_segments (protocol ∷ ss) ≡ some t)
        × IsValid patterns t
        × (segments t ≡ protocol ∷ ss)
  unfolding from_valid_segments path_from_valid_segments segments validate_path
  from_valid_segments-IsValid protocol [] vp vs = (
    record { protocol = protocol; path = record { text = [] } },
    refl,
    (vp, unfold is_root in refl),
    unfold path_segments in refl,
  )
  from_valid_segments-IsValid protocol (s ∷ ss) vp vs = (
    record { protocol = protocol; path = record { text = join path_separator s ss } },
    ap (λ x. some (record { protocol = protocol; path = record { text = x } }))
        (push_segments-join s ss),
    (vp, joined-IsValid s ss vs),
    ap (λ x. protocol ∷ x) (segments-join s ss vs),
  )

  -- The segments of a valid path are segments: none is empty, and each is a word, `*` or `**`.
  pub path_segments-valid :
      (p : TopicPath)
      → validate_path patterns p.text ≡ ok tt
      → are_segments (path_segments p) ≡ true
  unfolding validate_path path_segments
  path_segments-valid p v = elim (Bool-cases (is_root p)) [
    | inl e ↦ ground (arith, e)
    | inr e ↦ ground (arith, e, v, patterns.rgx_path_lem p.text)
  ]
