-- ===== src/Examples/Topics.antt =====
-- The directory on `f32:a/*`, `f32:a/b` and `*:**`.

use t2_bus.Base.{true, [], ◌∷◌, some, contains, Member, ◌≡◌, ◌↔◌, refl, codes}
use t2_bus.Text.{Segments, text_discrete}
use t2_bus.Topic.{Topic, segments, from_valid_segments}
use t2_bus.Err.{ok, err, claim_wildcard_not_supported}
use t2_bus.Directory.{Directory, new, subscribe, get_subscribers, claim, drop_client}
use t2_bus.Directory.View.{subscribers_at}
use t2_bus.Directory.Routing.{IsReached, get_subscribers-IsReached}
use t2_bus.Directory.Reports.{drop_client_reports}
use t2_bus.Directory.WellFormed.{IsWellFormed, new-IsWellFormed, subscribe_segments-IsWellFormed}

abbrev pub star : Topic
star = record { protocol = codes "f32"; path = record { text = codes "a/*" } }

abbrev pub word : Topic
word = record { protocol = codes "f32"; path = record { text = codes "a/b" } }

abbrev pub anything : Topic
anything = record { protocol = codes "*"; path = record { text = codes "**" } }

abbrev star_of_i32 : Topic
star_of_i32 = record { protocol = codes "i32"; path = record { text = codes "a/*" } }

-- Client 3 is subscribed to `f32:a/*`.
abbrev pub one_subscriber : Directory
one_subscriber = (subscribe 3 star new).1

one_subscriber-IsWellFormed : IsWellFormed one_subscriber
unfolding subscribe
one_subscriber-IsWellFormed = subscribe_segments-IsWellFormed 3 (segments star) new new-IsWellFormed

finds_star : get_subscribers word one_subscriber ≡ 3 ∷ []
unfolding get_subscribers subscribe new
finds_star = refl

misses_star : get_subscribers star_of_i32 one_subscriber ≡ []
unfolding get_subscribers subscribe new
misses_star = refl

get_subscribers-IsReached_example :
    (contains 3 (get_subscribers word one_subscriber) ≡ true) ↔ IsReached 3 word one_subscriber
get_subscribers-IsReached_example =
    get_subscribers-IsReached one_subscriber word 3 one_subscriber-IsWellFormed

claims : claim 3 word new ≡ (ok tt, (claim 3 word new).1)
unfolding claim new text_discrete
claims = refl

refuses_star : (claim 3 star new).0 ≡ err claim_wildcard_not_supported
unfolding claim new text_discrete
refuses_star = refl

drop_client_reports_example : Member star (drop_client 3 one_subscriber).1 ↔ (
    (p : Segments) × (from_valid_segments p ≡ some star)
    × (subscribers_at p one_subscriber ≡ 3 ∷ []))
drop_client_reports_example = drop_client_reports 3 one_subscriber star one_subscriber-IsWellFormed
