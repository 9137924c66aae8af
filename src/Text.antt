-- ===== src/Text.antt =====
-- Texts as lists of code points, with the constants and the splitting of src/topic.rs.
use t2_bus.Base.{ℕ, ◌==◌, if◌then◌else◌, Bool, true, not, ◌&&◌, codes, List, [], ◌∷◌}
use native.Mathlib.Decide.{ℕ_discrete}

abbrev pub Text : Type 0
Text = List ℕ

unfoldable pub text_discrete : Discrete Text
unfolding ℕ_discrete
text_discrete = hlevel ℕ_discrete

-- The segments of a topic.
abbrev pub Segments : Type 0
Segments = List Text

unfoldable pub segments_discrete : Discrete Segments
unfolding text_discrete
segments_discrete = hlevel text_discrete

abbrev pub wildcard : Text
wildcard = codes "*"

abbrev pub double_wildcard : Text
double_wildcard = codes "**"

abbrev pub protocol_separator : ℕ
protocol_separator = b':'

abbrev pub path_separator : ℕ
path_separator = b'/'

-- `str::split`: the first piece grows until a separator closes it.
abbrev pub cons_head : ℕ → Segments → Segments
cons_head c [] = (c ∷ []) ∷ []
cons_head c (s ∷ ss) = (c ∷ s) ∷ ss

unfoldable pub split : ℕ → Text → Segments
split sep [] = [] ∷ []
split sep (c ∷ s) = let rest = split sep s in if c == sep then [] ∷ rest else cons_head c rest

-- The text has no such code point.
abbrev pub lacks : ℕ → Text → Bool
lacks sep [] = true
lacks sep (c ∷ s) = not (c == sep) && lacks sep s
