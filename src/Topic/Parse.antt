-- ===== src/Topic/Parse.antt =====
-- src/topic.rs: validation and parsing of paths and topics.
use t2_bus.Base.{
  ℕ, ◌==◌, leb, if◌then◌else◌, Bool, true, false, ◌&&◌, ◌||◌, codes, [], ◌∷◌, ◌++◌, Option, none,
  some, ◌≡◌,
}
use t2_bus.Text.{Text, Segments, split, path_separator, protocol_separator}
use t2_bus.Topic.{TopicPath, Topic, is_root}
use t2_bus.Err.{BusError, Result, ok, err, panic, invalid_topic_string, io_error, ◌>>=◌, ◌>>◌}

-- The class `[a-z0-9_]`
abbrev pub is_word_char : ℕ → Bool
is_word_char c = (leb b'a' c && leb c b'z') || (leb b'0' c && leb c b'9') || c == b'_'

-- `[a-z0-9_]+`
abbrev pub is_word : Text → Bool
is_word [] = false
is_word (c ∷ []) = is_word_char c
is_word (c ∷ d ∷ s) = is_word_char c && is_word (d ∷ s)

abbrev pub is_star : Text → Bool
is_star (c ∷ []) = c == b'*'
is_star _ = false

abbrev pub is_double_star : Text → Bool
is_double_star (c ∷ d ∷ []) = c == b'*' && d == b'*'
is_double_star _ = false

-- `[a-z0-9_]+|\*|\*\*`
abbrev pub is_segment : Text → Bool
is_segment s = is_word s || is_star s || is_double_star s

abbrev pub are_segments : Segments → Bool
are_segments [] = true
are_segments (s ∷ ss) = is_segment s && are_segments ss

-- What the code uses of the regex library: the two compiled patterns, and what they match. The
-- path pattern stands for segments between slashes, the protocol pattern for a word or `*`.
pub record Patterns : Type 0 where
  pub rgx_path : Text → Bool
  pub rgx_protocol : Text → Bool
  pub rgx_path_lem : (s : Text) → rgx_path s ≡ are_segments (split path_separator s)
  pub rgx_protocol_lem : (s : Text) → rgx_protocol s ≡ (is_word s || is_star s)

-- `str::split_once`
abbrev cons_first : ℕ → Option (Text × Text) → Option (Text × Text)
cons_first c none = none
cons_first c (some (a, b)) = some (c ∷ a, b)

unfoldable pub split_once : ℕ → Text → Option (Text × Text)
split_once sep [] = none
split_once sep (c ∷ s) =
    let rest = split_once sep s in if c == sep then some ([], s) else cons_first c rest

abbrev pub no_separator : Text → BusError
no_separator s =
    invalid_topic_string (codes "Invalid topic: " ++ s ++ codes ". Expected <protocol>:<path>")

module _ (patterns : Patterns) where
  unfoldable pub validate_path : Text → Result (Unit {0})
  unfolding is_root
  validate_path path =
      if is_root (record { text = path }) || patterns.rgx_path path
      then ok tt
      else err (invalid_topic_string (codes "Invalid path: " ++ path))

  unfoldable pub validate_protocol : Text → Result (Unit {0})
  validate_protocol protocol =
      if patterns.rgx_protocol protocol
      then ok tt
      else err (invalid_topic_string (codes "Invalid protocol: " ++ protocol))

  -- `Path::new`, which also is `from_str` and `try_from`
  unfoldable pub new_path : Text → Result TopicPath
  unfolding validate_path
  new_path path = validate_path path >> ok (record { text = path })

  -- `Topic::new`
  unfoldable pub new_topic : Text → TopicPath → Result Topic
  unfolding validate_protocol
  new_topic protocol path =
      validate_protocol protocol >> ok (record { protocol = protocol; path = path })

  unfoldable pub parse_parts : Text → Option (Text × Text) → Result Topic
  unfolding new_path new_topic
  parse_parts s none = err (no_separator s)
  parse_parts s (some (protocol, path)) = new_path path >>= λ p. new_topic protocol p

  -- `Topic::from_str`
  unfoldable pub from_str : Text → Result Topic
  unfolding split_once parse_parts
  from_str s = parse_parts s (split_once protocol_separator s)

  -- On the wire a topic is the pair of its protocol and the text of its path.
  unfoldable pub serialize : Topic → Text × Text
  serialize t = (t.protocol, t.path.text)

  -- An error inside a message fails the decoding of the message.
  abbrev custom : {A : Type 0} → Result A → Result A
  custom (ok a) = ok a
  custom (err e) = err (io_error (codes "CBOR deserialization failed."))
  custom panic = panic

  unfoldable pub deserialize : Text × Text → Result Topic
  unfolding new_path new_topic
  deserialize (protocol, path) = custom (new_path path) >>= λ p. custom (new_topic protocol p)
