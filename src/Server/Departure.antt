-- ===== src/Server/Departure.antt =====
-- What remains of a client after `deregister_client` (src/server/core.rs).
use t2_bus.Base.{ℕ, true, contains, contains-remove, ◌≡◌, ◌≢◌, ◌↔◌, arith}
use t2_bus.Topic.{Topic}
use t2_bus.Directory
use t2_bus.Directory.{Directory, unclaim_here, get_owner}
use t2_bus.Directory.View.{owner_at, subscribers_at, has_wildcard, get_owner_segments-view}
use t2_bus.Directory.Drop.{subscribers_at-drop_client}
use t2_bus.Directory.Matching.{get_subscribers_iff}
use t2_bus.Directory.WellFormed.{drop_client-IsWellFormed}
use t2_bus.Server.{Core, deregister_client}
use t2_bus.Server.Invariant.{IsValid}

module _ (id : ℕ) (s : Core) where
  abbrev after : Core
  after = (deregister_client id s).1

  -- In a valid state the clients that the directory finds for a published topic after a
  -- deregistration are those that it found before, without the deregistered one.
  pub get_subscribers-deregister_client :
      (n : ℕ) (t : Topic) (x : ℕ)
      → IsValid n s
      → (contains x (Directory.get_subscribers t after.directory) ≡ true)
        ↔ ((x ≢ id) × (contains x (Directory.get_subscribers t s.directory) ≡ true))
  unfolding deregister_client
  get_subscribers-deregister_client n t x v =
      let before = get_subscribers_iff s.directory t x v.well_formed in
      let now =
        get_subscribers_iff (Directory.drop_client id s.directory).0 t x
          (drop_client-IsWellFormed id s.directory v.well_formed) in
      (
        λ h.
            let (p, sub, ov) = now.0 h in
            let sub' : contains x (Directory.View.subscribers_at p s.directory) ≡ true = ground (
              arith,
              sub,
              subscribers_at-drop_client id p s.directory,
              contains-remove x id (subscribers_at p s.directory),
            ) in
            (
              ground (
                arith,
                sub,
                subscribers_at-drop_client id p s.directory,
                contains-remove x id (subscribers_at p s.directory),
              ),
              before.1 (p, sub', ov),
            ),
        λ (ne, h).
            let (p, sub, ov) = before.0 h in
            now.1 (
              p,
              ground (
                arith,
                sub,
                ne,
                subscribers_at-drop_client id p s.directory,
                contains-remove x id (subscribers_at p s.directory),
              ),
              ov,
            ),
      )
