-- ===== src/Directory/Overlap.antt =====
-- When a subscribed topic and a published topic meet, as a relation with no search order in it, for
-- `_get_subscribers` (src/directory.rs).
use t2_bus.Base.{[], ◌∷◌, ◌≡◌, ◌≢◌, refl, ◌⊎◌}
use t2_bus.Text.{Text, Segments, wildcard, double_wildcard}

-- Two segments that are no `**` meet if they are equal or one is `*`.
pub data Meets (a b : Text) : Type 0 where
  meets :
      a ≢ double_wildcard
      → b ≢ double_wildcard
      → (a ≡ b) ⊎ (a ≡ wildcard) ⊎ (b ≡ wildcard)
      → Meets a b

-- The first topic is subscribed, the second published. A `**` on either side takes any number of
-- segments of the other side, none included.
pub data Overlap : Segments → Segments → Type 0 where
  done : Overlap [] []
  step : {a b : Text} {p t : Segments} → Meets a b → Overlap p t → Overlap (a ∷ p) (b ∷ t)
  skip_sub : {a : Text} {p t : Segments} → a ≡ double_wildcard → Overlap p t → Overlap (a ∷ p) t
  take_sub :
      {a b : Text} {p t : Segments}
      → a ≡ double_wildcard
      → Overlap (a ∷ p) t
      → Overlap (a ∷ p) (b ∷ t)
  skip_pub : {b : Text} {p t : Segments} → b ≡ double_wildcard → Overlap p t → Overlap p (b ∷ t)
  take_pub :
      {a b : Text} {p t : Segments}
      → b ≡ double_wildcard
      → Overlap p (b ∷ t)
      → Overlap (a ∷ p) (b ∷ t)

-- A subscribed `**` stops here or takes one more segment.
pub from_double {ℓ} :
    {P : Type ℓ} {a : Text} {p t : Segments}
    → a ≡ double_wildcard
    → Overlap (a ∷ p) t
    → (Overlap p t → P)
    → ((b : Text) (u : Segments) → t ≡ b ∷ u → Overlap (a ∷ p) u → P)
    → P
from_double e (step (meets na _ _) o) stop go = absurd (na e)
from_double e (skip_sub _ o) stop go = stop o
from_double e (take_sub _ o) stop go = go _ _ refl o
from_double e (skip_pub _ o) stop go = go _ _ refl o
from_double e (take_pub {b} {t = u} eb o) stop go = stop o

-- A published `**` stops here or takes one more segment.
pub from_double_pub {ℓ} :
    {P : Type ℓ} {b : Text} {p t : Segments}
    → b ≡ double_wildcard
    → Overlap p (b ∷ t)
    → (Overlap p t → P)
    → ((a : Text) (u : Segments) → p ≡ a ∷ u → Overlap u (b ∷ t) → P)
    → P
from_double_pub e (step (meets _ nb _) o) stop go = absurd (nb e)
from_double_pub e (skip_sub _ o) stop go = go _ _ refl o
from_double_pub e (take_sub _ o) stop go = stop o
from_double_pub e (skip_pub _ o) stop go = stop o
from_double_pub e (take_pub _ o) stop go = go _ _ refl o

-- A published segment that is no `**` meets the first subscribed one, or that one is `**`.
pub from_single {ℓ} :
    {P : Type ℓ} {b : Text} {p t : Segments}
    → b ≢ double_wildcard
    → Overlap p (b ∷ t)
    → ((a : Text) (u : Segments) → p ≡ a ∷ u → Meets a b → Overlap u t → P)
    → ((a : Text) (u : Segments) → p ≡ a ∷ u → a ≡ double_wildcard → P)
    → P
from_single n (step m o) meet double = meet _ _ refl m o
from_single n (skip_sub e o) meet double = double _ _ refl e
from_single n (take_sub e o) meet double = double _ _ refl e
from_single n (skip_pub e o) meet double = absurd (n e)
from_single n (take_pub e o) meet double = absurd (n e)

-- At the end of the published topic.
pub at_end {ℓ} :
    {P : Type ℓ} {p : Segments}
    → Overlap p []
    → (p ≡ [] → P)
    → ((a : Text) (u : Segments) → p ≡ a ∷ u → a ≡ double_wildcard → P)
    → P
at_end done stop double = stop refl
at_end (skip_sub e o) stop double = double _ _ refl e
