-- ===== src/Examples/Parsing.antt =====
-- Parsing `f32:a/*`, with the patterns as Boolean functions.
use t2_bus.Base.{codes, ◌||◌, ◌≡◌, ◌↔◌, refl}
use t2_bus.Text.{split, path_separator}
use t2_bus.Topic.{to_text, root}
use t2_bus.Err.{ok, err, invalid_topic_string}
use t2_bus.Topic.Parse.{Patterns, is_word, is_star, are_segments, from_str}
use t2_bus.Topic.RoundTrip.{IsValid, from_str_iff}
use t2_bus.Examples.Topics.{star}

abbrev pub plain_patterns : Patterns
plain_patterns = record {
  rgx_path = λ s. are_segments (split path_separator s);
  rgx_protocol = λ s. is_word s || is_star s;
  rgx_path_lem = λ s. refl;
  rgx_protocol_lem = λ s. refl;
}

parses : from_str plain_patterns (codes "f32:a/*") ≡ ok star
unfolding from_str split
parses = refl

parses_root :
    from_str plain_patterns (codes "f32:") ≡ ok (record { protocol = codes "f32"; path = root })
unfolding from_str split root
parses_root = refl

refuses_slash :
    from_str plain_patterns (codes "f32:a/") ≡ err (invalid_topic_string (codes "Invalid path: a/"))
unfolding from_str split
refuses_slash = refl

refuses_double :
    from_str plain_patterns (codes "**:a")
    ≡ err (invalid_topic_string (codes "Invalid protocol: **"))
unfolding from_str split
refuses_double = refl

from_str_iff_example :
    (from_str plain_patterns (codes "f32:a/*") ≡ ok star)
    ↔ ((codes "f32:a/*" ≡ to_text star) × IsValid plain_patterns star)
from_str_iff_example = from_str_iff plain_patterns (codes "f32:a/*") star
