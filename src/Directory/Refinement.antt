-- ===== src/Directory/Refinement.antt =====
-- The tree of src/directory.rs against the registry that it stands for.

use t2_bus.Base.{
  ℕ, if◌then◌else◌, true, inl, List, [], ◌∷◌, Option, none, some, contains, contains-insert,
  contains-remove, ◌≡◌, ◌⊎◌, ◌↔◌, refl, sym, ◌∙◌, arith,
}
use t2_bus.Text.{Segments}
use t2_bus.Topic.{Topic, segments}
use t2_bus.Err.{ok, err, claim_wildcard_not_supported}
use t2_bus.Directory
use t2_bus.Directory.{
  Directory, Outcome, node, new, get_child, is_wildcard, unclaim_here, unclaim_segments, get_owner,
  get_subscribers,
}
use t2_bus.Directory.View.{
  or_new, owner_at, subscribers_at, has_wildcard, owner_at-new, subscribers_at-new,
  get_owner_segments-view,
}
use t2_bus.Directory.Concrete.{Common}
use t2_bus.Directory.Claims.{
  claim_segments_verdict, owner_at-claim_segments, subscribers_at-claim_segments,
  owner_at-unclaim_segments, subscribers_at-unclaim_segments,
}
use t2_bus.Directory.Subscriptions.{
  subscribe_segments-ok, subscribers_at-subscribe_segments, owner_at-subscribe_segments,
  unsubscribe_segments-ok, subscribers_at-unsubscribe_segments, owner_at-unsubscribe_segments,
}
use t2_bus.Directory.Drop.{owner_at-drop_client, subscribers_at-drop_client}
use t2_bus.Directory.Routing.{get_subscribers-IsReached}
use t2_bus.Directory.WellFormed.{
  new-IsWellFormed, claim_segments-IsWellFormed, unclaim_segments-IsWellFormed,
  subscribe_segments-IsWellFormed, unsubscribe_segments-IsWellFormed, drop_client-IsWellFormed,
}
use t2_bus.Directory.Registry.{
  Registry, Op, empty, left_by, effect, Answers, Leads, stay, move, perform, perform_all,
  Represents,
}

unclaim_segments_verdict :
    (client : ℕ) (t : Segments) (d : Directory)
    → ((unclaim_segments client t d).0 ≡ ok tt)
      ⊎ ((has_wildcard t ≡ true)
          × ((unclaim_segments client t d).0 ≡ err claim_wildcard_not_supported))
unfolding unclaim_segments has_wildcard
unclaim_segments_verdict client [] (node o cs ss) = inl refl
unclaim_segments_verdict client (s ∷ t) (node o cs ss) =
    ground (arith, unclaim_segments_verdict client t (or_new (get_child s cs)))

perform-Answers :
    (op : Op) (d : Directory) (r : Registry) → Represents d r → Answers op r (perform op d).0
unfolding Directory.claim Directory.unclaim Directory.subscribe Directory.unsubscribe
perform-Answers (Op.claim client t) d r h =
    ground (arith, claim_segments_verdict client (segments t) d, h.same_owner (segments t))
perform-Answers (Op.unclaim client t) d r h = unclaim_segments_verdict client (segments t) d
perform-Answers (Op.subscribe client t) d r h = subscribe_segments-ok client (segments t) d
perform-Answers (Op.unsubscribe client t) d r h = unsubscribe_segments-ok client (segments t) d
perform-Answers (Op.drop_client client) d r h = refl

left_by-unclaim_here : (client : ℕ) (o : Option ℕ) → unclaim_here client o ≡ left_by client o
unfolding unclaim_here
left_by-unclaim_here client none = refl
left_by-unclaim_here client (some o) = refl

perform-Represents :
    (op : Op) (d : Directory) (r : Registry)
    → Represents d r
    → Represents (perform op d).1 (effect op r)
unfolding Directory.claim Directory.unclaim Directory.subscribe Directory.unsubscribe
perform-Represents (Op.claim client t) d r h = record {
  well_formed = claim_segments-IsWellFormed client (segments t) d h.well_formed;
  same_owner = λ p. ground (
    arith,
    owner_at-claim_segments client (segments t) p d,
    h.same_owner p,
    h.same_owner (segments t),
  );
  same_subscribers = λ p x.
      ground (arith, subscribers_at-claim_segments client (segments t) p d, h.same_subscribers p x);
}
perform-Represents (Op.unclaim client t) d r h = record {
  well_formed = unclaim_segments-IsWellFormed client (segments t) d h.well_formed;
  same_owner = λ p. ground (
    arith,
    owner_at-unclaim_segments client (segments t) p d,
    h.same_owner p,
    h.same_owner (segments t),
  );
  same_subscribers = λ p x.
      ground
        (arith, subscribers_at-unclaim_segments client (segments t) p d, h.same_subscribers p x);
}
perform-Represents (Op.subscribe client t) d r h = record {
  well_formed = subscribe_segments-IsWellFormed client (segments t) d h.well_formed;
  same_owner =
      λ p. ground (arith, owner_at-subscribe_segments client (segments t) p d, h.same_owner p);
  same_subscribers = λ p x. ground (
    arith,
    subscribers_at-subscribe_segments client (segments t) p d,
    contains-insert x client (subscribers_at p d),
    h.same_subscribers p x,
    h.same_subscribers (segments t) x,
  );
}
perform-Represents (Op.unsubscribe client t) d r h = record {
  well_formed = unsubscribe_segments-IsWellFormed client (segments t) d h.well_formed;
  same_owner =
      λ p. ground (arith, owner_at-unsubscribe_segments client (segments t) p d, h.same_owner p);
  same_subscribers = λ p x. ground (
    arith,
    subscribers_at-unsubscribe_segments client (segments t) p d,
    contains-remove x client (subscribers_at p d),
    h.same_subscribers p x,
    h.same_subscribers (segments t) x,
  );
}
perform-Represents (Op.drop_client client) d r h = record {
  well_formed = drop_client-IsWellFormed client d h.well_formed;
  same_owner = λ p. ground (
    arith,
    owner_at-drop_client client p d,
    left_by-unclaim_here client (owner_at p d),
    h.same_owner p,
  );
  same_subscribers = λ p x. ground (
    arith,
    subscribers_at-drop_client client p d,
    contains-remove x client (subscribers_at p d),
    h.same_subscribers p x,
  );
}

new-Represents : Represents new empty
new-Represents = record {
  well_formed = new-IsWellFormed;
  same_owner = owner_at-new;
  same_subscribers = λ p x. ground (arith, subscribers_at-new p);
}

perform_all-Leads :
    (ops : List Op) (d : Directory) (r : Registry)
    → Represents d r
    → (s : Registry) × Leads r (perform_all ops d).0 s × Represents (perform_all ops d).1 s
unfolding perform_all
perform_all-Leads [] d r h = (r, stay, h)
perform_all-Leads (op ∷ ops) d r h =
    let (s, leads, same) =
      perform_all-Leads ops (perform op d).1 (effect op r) (perform-Represents op d r h) in
    (s, move (perform-Answers op d r h) leads, same)

get_owner-Represents :
    (d : Directory) (r : Registry) (t : Topic)
    → Represents d r
    → get_owner t d ≡ (if has_wildcard (segments t) then none else r.owner (segments t))
unfolding get_owner
get_owner-Represents d r t h =
    ground (arith, get_owner_segments-view (segments t) d, h.same_owner (segments t))

get_subscribers-Represents :
    (d : Directory) (r : Registry) (u : Topic) (x : ℕ)
    → Represents d r
    → (contains x (get_subscribers u d) ≡ true)
      ↔ ((p : Segments) × (r.subscribed p x ≡ true) × Common p (segments u))
get_subscribers-Represents d r u x h =
    let found = get_subscribers-IsReached d u x h.well_formed in
    (
      λ e. let (p, sub, c) = found.0 e in (p, sym (h.same_subscribers p x) ∙ sub, c),
      λ (p, sub, c). found.1 (p, h.same_subscribers p x ∙ sub, c),
    )

-- Operations on an empty tree answer as the registry allows, which keeps an owner and a set of
-- subscribers for each topic and no tree. Afterwards the owner of any topic is the registry's, with
-- none for a topic with a wildcard, and a client is found for a published topic exactly if the
-- registry has it subscribed to a topic for which some concrete topic matches both.
pub perform_all-refines :
    (ops : List Op) (t : Topic) (x : ℕ)
    → (r : Registry) × Leads empty (perform_all ops new).0 r
      × (get_owner t (perform_all ops new).1
          ≡ (if has_wildcard (segments t) then none else r.owner (segments t)))
      × ((contains x (get_subscribers t (perform_all ops new).1) ≡ true)
          ↔ ((p : Segments) × (r.subscribed p x ≡ true) × Common p (segments t)))
perform_all-refines ops t x =
    let (r, leads, same) = perform_all-Leads ops new empty new-Represents in
    (
      r,
      leads,
      get_owner-Represents (perform_all ops new).1 r t same,
      get_subscribers-Represents (perform_all ops new).1 r t x same,
    )
