-- ===== src/Topic/RoundTrip.antt =====
-- Topics as text, on the wire and as segments, and back (src/topic.rs).
use t2_bus.Base.{ℕ, true, Option-cases, inl, inr, [], ◌∷◌, ◌++◌, some, ◌≡◌, ◌↔◌, refl, arith}
use t2_bus.Text.{lacks, Text, protocol_separator}
use t2_bus.Topic.{Topic, to_text}
use t2_bus.Err.{ok}
use t2_bus.Topic.Parse.{
  Patterns, is_word, is_star, split_once, validate_path, validate_protocol, new_path, new_topic,
  parse_parts, from_str, serialize, deserialize,
}

-- A text without the separator comes back as the first part.
pub split_once-append :
    (sep : ℕ) (a b : Text) → lacks sep a ≡ true → split_once sep (a ++ sep ∷ b) ≡ some (a, b)
unfolding split_once
split_once-append sep [] b h = ground arith
split_once-append sep (c ∷ a) b h = ground (arith, split_once-append sep a b (ground arith))

pub append-split_once : (sep : ℕ) (s a b : Text) → split_once sep s ≡ some (a, b) → s ≡ a ++ sep ∷ b
unfolding split_once
append-split_once sep [] a b e = ground (arith, e)
append-split_once sep (c ∷ s) a b e = elim (Option-cases (split_once sep s)) [
  | inl n ↦ ground (arith, e, n)
  | inr ((x, y), n) ↦ ground (arith, e, n, append-split_once sep s x y n)
]

is_word-lacks : (s : Text) → is_word s ≡ true → lacks protocol_separator s ≡ true
is_word-lacks [] h = refl
is_word-lacks (c ∷ []) h = ground arith
is_word-lacks (c ∷ d ∷ s) h = ground (arith, is_word-lacks (d ∷ s))

is_star-lacks : (s : Text) → is_star s ≡ true → lacks protocol_separator s ≡ true
is_star-lacks [] h = refl
is_star-lacks (c ∷ []) h = ground arith
is_star-lacks (c ∷ d ∷ s) h = ground arith

module _ (patterns : Patterns) where
  -- The parts are valid.
  abbrev pub IsValid : Topic → Type 0
  IsValid t =
      (validate_protocol patterns t.protocol ≡ ok tt) × (validate_path patterns t.path.text ≡ ok tt)

  protocol-lacks :
      (s : Text) → validate_protocol patterns s ≡ ok tt → lacks protocol_separator s ≡ true
  unfolding validate_protocol
  protocol-lacks s h =
      ground (arith, h, patterns.rgx_protocol_lem s, is_word-lacks s, is_star-lacks s)

  -- A text parses as a topic exactly if it is the text of that topic and the topic's protocol and
  -- path are valid: parsing undoes printing, and accepts nothing else.
  pub from_str_iff :
      (s : Text) (t : Topic) → (from_str patterns s ≡ ok t) ↔ ((s ≡ to_text t) × IsValid t)
  unfolding from_str parse_parts new_path new_topic to_text
  from_str_iff s t = (
    λ e. elim (Option-cases (split_once protocol_separator s)) [
      | inl n ↦ ground (arith, e, n)
      | inr ((a, b), n) ↦ ground (arith, e, n, append-split_once protocol_separator s a b n)
    ],
    λ (e, (vp, vq)).
        rw
          (
            e,
            split_once-append protocol_separator t.protocol t.path.text
                (protocol-lacks t.protocol vp),
            vq,
            vp,
          )
          refl,
  )

  -- A valid topic is read back from the wire, and one that is not fails to be read.
  pub deserialize_iff :
      (t : Topic) → (deserialize patterns (serialize patterns t) ≡ ok t) ↔ IsValid t
  unfolding deserialize serialize new_path new_topic
  deserialize_iff t = (λ e. ground (arith, e), λ (vp, vq). rw (vq, vp) refl)
