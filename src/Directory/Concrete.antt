-- ===== src/Directory/Concrete.antt =====
-- What a topic with wildcards means: the concrete topics that it matches, as src/topic.rs
-- documents `*` and `**`.
use t2_bus.Base.{[], ◌∷◌, ◌≡◌, ◌≢◌, ◌↔◌, refl, ◌⊎◌, inl, inr, arith, codes, sym, ◌∙◌}
use t2_bus.Text.{Text, Segments, text_discrete, wildcard, double_wildcard}
use t2_bus.Directory.Overlap.{
  Meets, meets, Overlap, done, step, skip_sub, take_sub, skip_pub, take_pub,
}

-- A word matches itself, `*` any one segment, and `**` any number of segments.
pub data Matches : Segments → Segments → Type 0 where
  nothing : Matches [] []
  word :
      {a b : Text} {p u : Segments}
      → a ≢ double_wildcard
      → a ≡ b
      → Matches p u
      → Matches (a ∷ p) (b ∷ u)
  any : {a b : Text} {p u : Segments} → a ≡ wildcard → Matches p u → Matches (a ∷ p) (b ∷ u)
  leave : {a : Text} {p u : Segments} → a ≡ double_wildcard → Matches p u → Matches (a ∷ p) u
  eat :
      {a b : Text} {p u : Segments}
      → a ≡ double_wildcard
      → Matches (a ∷ p) u
      → Matches (a ∷ p) (b ∷ u)

-- A concrete topic has words only.
abbrev pub IsConcrete : Segments → Type 0
IsConcrete [] = Unit
IsConcrete (a ∷ u) = (a ≢ wildcard) × (a ≢ double_wildcard) × IsConcrete u

some_word : Text
some_word = codes "a"

-- A topic that both sides match.
abbrev pub Common : Segments → Segments → Type 0
Common p t = (u : Segments) × IsConcrete u × Matches p u × Matches t u

wildcard-ne-double : wildcard ≢ double_wildcard
wildcard-ne-double = ground arith

-- Two segments that meet have a word in common.
meeting_word :
    {a b : Text}
    → Meets a b
    → (c : Text) × (c ≢ wildcard)
      × (c ≢ double_wildcard)
      × ((a ≡ c) ⊎ (a ≡ wildcard))
      × ((b ≡ c) ⊎ (b ≡ wildcard))
unfolding some_word
meeting_word {a} {b} (meets na nb m) = elim (text_discrete a wildcard) [
  | yes ea ↦ elim (text_discrete b wildcard) [
    | yes eb ↦ (some_word, ground arith, ground arith, inr ea, inr eb)
    | no n ↦ (b, n, nb, inr ea, inl refl)
  ]
  | no n ↦ (a, n, na, inl refl, ground arith)
]

match_one :
    {a c : Text} {p u : Segments}
    → a ≢ double_wildcard
    → (a ≡ c) ⊎ (a ≡ wildcard)
    → Matches p u
    → Matches (a ∷ p) (c ∷ u)
match_one n (inl e) m = word n e m
match_one n (inr e) m = any e m

Common-swap : {p t : Segments} → Common p t → Common t p
Common-swap (u, cu, mp, mt) = (u, cu, mt, mp)

-- A `**` in front also meets a topic with one more segment.
Common-cons :
    {a : Text} {p t : Segments} (b : Text)
    → a ≡ double_wildcard
    → Common (a ∷ p) t
    → Common (a ∷ p) (b ∷ t)
unfolding some_word
Common-cons b e (u, cu, mp, mt) = elim (text_discrete b double_wildcard) [
  | yes eb ↦ (u, cu, mp, leave eb mt)
  | no nd ↦ elim (text_discrete b wildcard) [
    | yes ew ↦ (some_word ∷ u, (ground arith, ground arith, cu), eat e mp, any ew mt)
    | no nw ↦ (b ∷ u, (nw, nd, cu), eat e mp, word nd refl mt)
  ]
]

Overlap→Common : {p t : Segments} → Overlap p t → Common p t
Overlap→Common done = ([], tt, nothing, nothing)
Overlap→Common (step (meets na nb m) o) =
    let (u, cu, mp, mt) = Overlap→Common o in
    let (c, nw, nd, ea, eb) = meeting_word (meets na nb m) in
    (c ∷ u, (nw, nd, cu), match_one na ea mp, match_one nb eb mt)
Overlap→Common (skip_sub e o) = let (u, cu, mp, mt) = Overlap→Common o in (u, cu, leave e mp, mt)
Overlap→Common (take_sub {b} e o) = Common-cons b e (Overlap→Common o)
Overlap→Common (skip_pub e o) = let (u, cu, mp, mt) = Overlap→Common o in (u, cu, mp, leave e mt)
Overlap→Common (take_pub {a} e o) = Common-swap (Common-cons a e (Common-swap (Overlap→Common o)))

Matches→Overlap : {p t u : Segments} → Matches p u → Matches t u → Overlap p t
Matches→Overlap (leave e m) n = skip_sub e (Matches→Overlap m n)
Matches→Overlap nothing nothing = done
Matches→Overlap nothing (leave e n) = skip_pub e (Matches→Overlap nothing n)
Matches→Overlap (word na ea m) (word nb eb n) =
    step (meets na nb (inl (ea ∙ sym eb))) (Matches→Overlap m n)
Matches→Overlap (word na ea m) (any eb n) =
    step (meets na (λ e. wildcard-ne-double (sym eb ∙ e)) (inr (inr eb))) (Matches→Overlap m n)
Matches→Overlap (word na ea m) (leave e n) = skip_pub e (Matches→Overlap (word na ea m) n)
Matches→Overlap (word na ea m) (eat e n) = take_pub e (Matches→Overlap m n)
Matches→Overlap (any ea m) (word nb eb n) =
    step (meets (λ e. wildcard-ne-double (sym ea ∙ e)) nb (inr (inl ea))) (Matches→Overlap m n)
Matches→Overlap (any ea m) (any eb n) =
    step
      (meets (λ e. wildcard-ne-double (sym ea ∙ e)) (λ e. wildcard-ne-double (sym eb ∙ e))
        (inr (inl ea)))
      (Matches→Overlap m n)
Matches→Overlap (any ea m) (leave e n) = skip_pub e (Matches→Overlap (any ea m) n)
Matches→Overlap (any ea m) (eat e n) = take_pub e (Matches→Overlap m n)
Matches→Overlap (eat e m) (word nb eb n) = take_sub e (Matches→Overlap m n)
Matches→Overlap (eat e m) (any eb n) = take_sub e (Matches→Overlap m n)
Matches→Overlap (eat e m) (leave f n) = skip_pub f (Matches→Overlap (eat e m) n)
Matches→Overlap (eat e m) (eat f n) = Matches→Overlap m n

-- Two topics overlap exactly if some concrete topic, without wildcards, matches both.
pub Overlap-iff : (p t : Segments) → Overlap p t ↔ Common p t
Overlap-iff p t = (Overlap→Common, λ (u, cu, mp, mt). Matches→Overlap mp mt)
