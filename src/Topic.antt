-- ===== src/Topic.antt =====
-- src/topic.rs: paths, topics and their segments.
pub mod Parse
pub mod RoundTrip
pub mod Joining
use t2_bus.Base.{if◌then◌else◌, [], ◌∷◌, ◌++◌, Option, none, some, Bool, true, false}
use t2_bus.Text.{Text, Segments, split, path_separator, protocol_separator}

-- The struct `Path`: a text, validated where one is built.
pub record TopicPath : Type 0 where
  pub text : Text

pub record Topic : Type 0 where
  pub protocol : Text
  pub path : TopicPath

unfoldable pub root : TopicPath
root = record { text = [] }

abbrev is_empty : Text → Bool
is_empty [] = true
is_empty (c ∷ s) = false

unfoldable pub is_root : TopicPath → Bool
is_root p = is_empty p.text

unfoldable pub path_segments : TopicPath → Segments
unfolding is_root split
path_segments p = if is_root p then [] else split path_separator p.text

-- The loop of `Path::from_valid_segments`: a separator before every segment but the first.
push_segments : Text → Segments → Text
push_segments path [] = path
push_segments path (s ∷ ss) = push_segments ((path ++ path_separator ∷ []) ++ s) ss

unfoldable pub path_from_valid_segments : Segments → TopicPath
unfolding push_segments
path_from_valid_segments [] = record { text = [] }
path_from_valid_segments (s ∷ ss) = record { text = push_segments s ss }

-- The protocol, then the segments of the path.
unfoldable pub segments : Topic → Segments
unfolding path_segments
segments t = t.protocol ∷ path_segments t.path

unfoldable pub from_valid_segments : Segments → Option Topic
unfolding path_from_valid_segments
from_valid_segments [] = none
from_valid_segments (protocol ∷ path) =
    some (record { protocol = protocol; path = path_from_valid_segments path })

-- `Display`
unfoldable pub to_text : Topic → Text
to_text t = t.protocol ++ protocol_separator ∷ t.path.text
