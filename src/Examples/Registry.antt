-- ===== src/Examples/Registry.antt =====
-- Operations on the directory and the registry, and the end of a search.
use t2_bus.Base.{
  ◌+◌, ◌*◌, ◌<◌, if◌then◌else◌, true, false, length, contains, List, [], ◌∷◌, none, ◌↔◌, ◌≡◌, arith,
}
use t2_bus.Text.{Segments, text_discrete}
use t2_bus.Topic.{segments}
use t2_bus.Directory.{
  subscribe, new, get_owner, get_subscribers, collect_subscribers, collect_step, height,
}
use t2_bus.Directory.View.{has_wildcard}
use t2_bus.Directory.Concrete.{Common}
use t2_bus.Directory.Registry.{Registry, Op, empty, Leads, perform_all}
use t2_bus.Directory.Refinement.{perform_all-refines}
use t2_bus.Directory.Search.{get_subscribers_ends}
use t2_bus.Examples.Topics.{star, word, one_subscriber}

abbrev ops : List Op
ops = Op.claim 1 word ∷ Op.subscribe 2 star ∷ Op.claim 3 word ∷ Op.drop_client 1 ∷ []

perform_all-refines_example :
    (r : Registry) × Leads empty (perform_all ops new).0 r
    × (get_owner word (perform_all ops new).1
        ≡ (if has_wildcard (segments word) then none else r.owner (segments word)))
    × ((contains 2 (get_subscribers word (perform_all ops new).1) ≡ true)
        ↔ ((p : Segments) × (r.subscribed p 2 ≡ true) × Common p (segments word)))
perform_all-refines_example = perform_all-refines ops word 2

height_lem : 2 * height one_subscriber + 2 * length (segments word) < 20
unfolding height segments subscribe new text_discrete
height_lem = omega arith

get_subscribers_ends_example :
    (collect_subscribers 20 one_subscriber (segments word) false []
      ≡ get_subscribers word one_subscriber)
    × (collect_subscribers 20 one_subscriber (segments word) false []
        ≡ collect_step (collect_subscribers 20) one_subscriber (segments word) false [])
get_subscribers_ends_example = get_subscribers_ends word one_subscriber 20 height_lem
