-- ===== src/Directory/Registry.antt =====
-- What a directory (src/directory.rs) promises, with no tree in it: who owns each topic, who is
-- subscribed to it, and how the operations change that and answer.
use mathlib.Core.Logic.{ite}
use t2_bus.Base.{
  ℕ, ◌==◌, if◌then◌else◌, Bool, true, false, not, ◌&&◌, ◌||◌, List, [], ◌∷◌, Option, none, some,
  contains, ◌≡◌, ◌⊎◌,
}
use t2_bus.Text.{Segments, segments_discrete}
use t2_bus.Topic.{Topic, segments}
use t2_bus.Err.{Result, ok, err, claim_wildcard_not_supported}
use t2_bus.Directory
use t2_bus.Directory.{Directory, Outcome}
use t2_bus.Directory.View.{owner_at, subscribers_at, has_wildcard}
use t2_bus.Directory.Claims.{claim_verdict, claimed_owner, released}
use t2_bus.Directory.WellFormed.{IsWellFormed}

pub record Registry : Type 0 where
  pub owner : Segments → Option ℕ
  pub subscribed : Segments → ℕ → Bool

pub data Op : Type 0 where
  claim : ℕ → Topic → Op
  unclaim : ℕ → Topic → Op
  subscribe : ℕ → Topic → Op
  unsubscribe : ℕ → Topic → Op
  drop_client : ℕ → Op

abbrev pub empty : Registry
empty = record { owner = λ p. none; subscribed = λ p x. false }

-- A function changed at one topic.
abbrev at_topic {ℓ} : {A : Type ℓ} → Topic → A → (Segments → A) → Segments → A
at_topic t a f p = ite (segments_discrete (segments t) p) a (f p)

-- The owner of a topic once a client has gone.
abbrev pub left_by : ℕ → Option ℕ → Option ℕ
left_by client none = none
left_by client (some o) = if o == client then none else some o

abbrev pub effect : Op → Registry → Registry
effect (Op.claim client t) r = record r {
  owner =
      at_topic t (claimed_owner client (has_wildcard (segments t)) (r.owner (segments t))) r.owner;
}
effect (Op.unclaim client t) r = record r {
  owner = at_topic t (released client (has_wildcard (segments t)) (r.owner (segments t))) r.owner;
}
effect (Op.subscribe client t) r = record r {
  subscribed = at_topic t (λ x. x == client || r.subscribed (segments t) x) r.subscribed;
}
effect (Op.unsubscribe client t) r = record r {
  subscribed = at_topic t (λ x. not (x == client) && r.subscribed (segments t) x) r.subscribed;
}
effect (Op.drop_client client) r = record {
  owner = λ p. left_by client (r.owner p);
  subscribed = λ p x. not (x == client) && r.subscribed p x;
}

-- What an operation may answer. An unclaim of a topic with a wildcard may go either way.
abbrev pub Answers : Op → Registry → Result (Unit {0}) → Type 0
Answers (Op.claim client t) r a =
    a ≡ claim_verdict client (has_wildcard (segments t)) (r.owner (segments t))
Answers (Op.unclaim client t) r a =
    (a ≡ ok tt) ⊎ ((has_wildcard (segments t) ≡ true) × (a ≡ err claim_wildcard_not_supported))
Answers (Op.subscribe client t) r a = a ≡ ok tt
Answers (Op.unsubscribe client t) r a = a ≡ ok tt
Answers (Op.drop_client client) r a = a ≡ ok tt

-- Operations with their answers lead from one registry to another.
pub data Leads : Registry → List (Op × Result (Unit {0})) → Registry → Type 0 where
  stay : {r : Registry} → Leads r [] r
  move :
      {r s : Registry} {op : Op} {a : Result (Unit {0})} {log : List (Op × Result (Unit {0}))}
      → Answers op r a
      → Leads (effect op r) log s
      → Leads r ((op, a) ∷ log) s

-- The same operations on the tree.
abbrev pub perform : Op → Directory → Outcome
perform (Op.claim client t) d = Directory.claim client t d
perform (Op.unclaim client t) d = Directory.unclaim client t d
perform (Op.subscribe client t) d = Directory.subscribe client t d
perform (Op.unsubscribe client t) d = Directory.unsubscribe client t d
perform (Op.drop_client client) d = (ok tt, (Directory.drop_client client d).0)

unfoldable pub perform_all : List Op → Directory → List (Op × Result (Unit {0})) × Directory
perform_all [] d = ([], d)
perform_all (op ∷ ops) d =
    let (a, d') = perform op d in let (log, last) = perform_all ops d' in ((op, a) ∷ log, last)

-- The directory represents the registry.
pub record Represents (d : Directory) (r : Registry) : Type 0 where
  pub well_formed : IsWellFormed d
  pub same_owner : (p : Segments) → owner_at p d ≡ r.owner p
  pub same_subscribers : (p : Segments) (x : ℕ) → contains x (subscribers_at p d) ≡ r.subscribed p x
