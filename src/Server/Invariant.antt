-- ===== src/Server/Invariant.antt =====
-- The invariant of the server's state, and the operations on the state (src/server/core.rs).
use t2_bus.Base.{
  ℕ, ◌+◌, ◌%◌, ◌<◌, ◌∙◌, true, List, [], none, some, lookup, HasDistinctKeys, put-HasDistinctKeys,
  delete-HasDistinctKeys, retain-HasDistinctKeys, lookup-put, lookup-delete, contains,
  contains-insert, contains-remove, ◌≡◌, ◌≢◌, ap, arith, put, delete,
}
use native.Mathlib.Nat.{mod-eq_of_lt}
use t2_bus.Text.{Segments}
use t2_bus.Topic.{Topic, segments}
use t2_bus.Directory
use t2_bus.Directory.{Directory}
use t2_bus.Directory.View.{subscribers_at}
use t2_bus.Directory.Claims.{subscribers_at-claim_segments, subscribers_at-unclaim_segments}
use t2_bus.Directory.Subscriptions.{
  subscribers_at-subscribe_segments, subscribers_at-unsubscribe_segments,
}
use t2_bus.Directory.Drop.{subscribers_at-drop_client}
use t2_bus.Directory.WellFormed.{
  IsWellFormed, claim_segments-IsWellFormed, unclaim_segments-IsWellFormed,
  subscribe_segments-IsWellFormed, unsubscribe_segments-IsWellFormed, drop_client-IsWellFormed,
}
use t2_bus.Exec.Keeps.{Keeps}
use t2_bus.Server.{
  Core, PendingResponse, Channel, kill_topic, in_directory, register_client, deregister_client,
  u32_mod,
}

-- Client 0, the server itself, is subscribed to the kill topic alone.
pub record ZeroAtKill (d : Directory) : Type 0 where
  pub only : (p : Segments) → contains 0 (subscribers_at p d) ≡ true → p ≡ segments kill_topic
  pub subscribed : contains 0 (subscribers_at (segments kill_topic) d) ≡ true

pub record IsValid (n : ℕ) (s : Core) : Type 0 where
  pub well_formed : IsWellFormed s.directory
  pub zero_at_kill : ZeroAtKill s.directory
  pub senders_distinct : HasDistinctKeys s.senders
  pub pending_distinct : HasDistinctKeys s.pending_responses
  pub no_zero : lookup 0 s.senders ≡ none
  pub next : s.next_client_id ≡ n
  pub positive : 0 < n

module _ (client : ℕ) (t : Topic) (nonzero : client ≢ 0) (d : Directory) (z : ZeroAtKill d) where
  subscribe-ZeroAtKill : ZeroAtKill (Directory.subscribe client t d).1
  unfolding Directory.subscribe
  subscribe-ZeroAtKill = record {
    only = λ p h. z.only p (
        ground (
          arith,
          subscribers_at-subscribe_segments client (segments t) p d,
          contains-insert 0 client (subscribers_at p d),
        ));
    subscribed = ground (
      arith,
      z.subscribed,
      subscribers_at-subscribe_segments client (segments t) (segments kill_topic) d,
      contains-insert 0 client (subscribers_at (segments kill_topic) d),
    );
  }

  unsubscribe-ZeroAtKill : ZeroAtKill (Directory.unsubscribe client t d).1
  unfolding Directory.unsubscribe
  unsubscribe-ZeroAtKill = record {
    only = λ p h. z.only p (
        ground (
          arith,
          subscribers_at-unsubscribe_segments client (segments t) p d,
          contains-remove 0 client (subscribers_at p d),
        ));
    subscribed = ground (
      arith,
      z.subscribed,
      nonzero,
      subscribers_at-unsubscribe_segments client (segments t) (segments kill_topic) d,
      contains-remove 0 client (subscribers_at (segments kill_topic) d),
    );
  }

  claim-ZeroAtKill : ZeroAtKill (Directory.claim client t d).1
  unfolding Directory.claim
  claim-ZeroAtKill = record {
    only = λ p h. z.only p (rw subscribers_at-claim_segments at h);
    subscribed = rw subscribers_at-claim_segments z.subscribed;
  }

  unclaim-ZeroAtKill : ZeroAtKill (Directory.unclaim client t d).1
  unfolding Directory.unclaim
  unclaim-ZeroAtKill = record {
    only = λ p h. z.only p (rw subscribers_at-unclaim_segments at h);
    subscribed = rw subscribers_at-unclaim_segments z.subscribed;
  }

drop_client-ZeroAtKill :
    (client : ℕ) (d : Directory)
    → client ≢ 0
    → ZeroAtKill d
    → ZeroAtKill (Directory.drop_client client d).0
drop_client-ZeroAtKill client d nonzero z = record {
  only = λ p h. z.only p (
      ground (
        arith,
        subscribers_at-drop_client client p d,
        contains-remove 0 client (subscribers_at p d),
      ));
  subscribed = ground (
    arith,
    z.subscribed,
    nonzero,
    subscribers_at-drop_client client (segments kill_topic) d,
    contains-remove 0 client (subscribers_at (segments kill_topic) d),
  );
}

module _ {n : ℕ} where
  pub deregister_client-IsValid : (id : ℕ) → id ≢ 0 → Keeps (IsValid n) (deregister_client id)
  unfolding deregister_client
  deregister_client-IsValid id nz = record {
    keeps = λ s v. record {
      well_formed = drop_client-IsWellFormed id s.directory v.well_formed;
      zero_at_kill = drop_client-ZeroAtKill id s.directory nz v.zero_at_kill;
      senders_distinct = delete-HasDistinctKeys id s.senders v.senders_distinct;
      pending_distinct = retain-HasDistinctKeys _ s.pending_responses v.pending_distinct;
      no_zero = ground (arith, lookup-delete id 0 s.senders, v.no_zero);
      next = v.next;
      positive = v.positive;
    };
  }

  pub register_client-IsValid :
      (s : Core) → n + 1 < u32_mod → IsValid n s → IsValid (n + 1) (register_client s).1
  unfolding register_client
  register_client-IsValid s b v = record {
    well_formed = v.well_formed;
    zero_at_kill = v.zero_at_kill;
    senders_distinct =
        put-HasDistinctKeys s.next_client_id (record { is_open = true; queue = [] }) s.senders
          v.senders_distinct;
    pending_distinct = v.pending_distinct;
    no_zero = ground (
      arith,
      v.no_zero,
      v.next,
      v.positive,
      lookup-put s.next_client_id 0 (record { is_open = true; queue = [] }) s.senders,
    );
    next = ap (λ n. (n + 1) % u32_mod) v.next ∙ mod-eq_of_lt b;
    positive = omega arith;
  }

  -- A response is recorded; a message id is used up; a sender's queue grows.
  pub pending-IsValid :
      (id : ℕ) (p : PendingResponse) (timers : List ℕ) (s : Core)
      → IsValid n s
      → IsValid n (record s { pending_responses = put id p s.pending_responses; timers = timers })
  pending-IsValid id p timers s v = record {
    well_formed = v.well_formed;
    zero_at_kill = v.zero_at_kill;
    senders_distinct = v.senders_distinct;
    pending_distinct = put-HasDistinctKeys id p s.pending_responses v.pending_distinct;
    no_zero = v.no_zero;
    next = v.next;
    positive = v.positive;
  }

  pub answered-IsValid :
      (id : ℕ) (s : Core)
      → IsValid n s
      → IsValid n (record s { pending_responses = delete id s.pending_responses })
  answered-IsValid id s v = record {
    well_formed = v.well_formed;
    zero_at_kill = v.zero_at_kill;
    senders_distinct = v.senders_distinct;
    pending_distinct = delete-HasDistinctKeys id s.pending_responses v.pending_distinct;
    no_zero = v.no_zero;
    next = v.next;
    positive = v.positive;
  }

  pub new_msg-IsValid :
      (id : ℕ) (s : Core) → IsValid n s → IsValid n (record s { next_msg_id = id })
  new_msg-IsValid id s v = record {
    well_formed = v.well_formed;
    zero_at_kill = v.zero_at_kill;
    senders_distinct = v.senders_distinct;
    pending_distinct = v.pending_distinct;
    no_zero = v.no_zero;
    next = v.next;
    positive = v.positive;
  }

  -- A client with a channel is not client 0.
  pub sender-ne-zero :
      (client : ℕ) (c : Channel) (s : Core)
      → lookup client s.senders ≡ some c
      → IsValid n s
      → client ≢ 0
  sender-ne-zero client c s e v z = cc (e, v.no_zero, ap (λ k. lookup k s.senders) z)

  pub sent-IsValid :
      (client : ℕ) (b c : Channel) (s : Core)
      → lookup client s.senders ≡ some b
      → IsValid n s
      → IsValid n (record s { senders = put client c s.senders })
  sent-IsValid client b c s e v = record {
    well_formed = v.well_formed;
    zero_at_kill = v.zero_at_kill;
    senders_distinct = put-HasDistinctKeys client c s.senders v.senders_distinct;
    pending_distinct = v.pending_distinct;
    no_zero =
        ground (arith, v.no_zero, sender-ne-zero client b s e v, lookup-put client 0 c s.senders);
    next = v.next;
    positive = v.positive;
  }

  module _ (client : ℕ) (t : Topic) (nonzero : client ≢ 0) (s : Core) (v : IsValid n s) where
    changed-IsValid :
        (d : Directory) → IsWellFormed d → ZeroAtKill d → IsValid n (record s { directory = d })
    changed-IsValid d w z = record {
      well_formed = w;
      zero_at_kill = z;
      senders_distinct = v.senders_distinct;
      pending_distinct = v.pending_distinct;
      no_zero = v.no_zero;
      next = v.next;
      positive = v.positive;
    }

    pub subscribe-IsValid : IsValid n (in_directory (Directory.subscribe client t) s).1
    unfolding Directory.subscribe
    subscribe-IsValid =
        changed-IsValid _
          (subscribe_segments-IsWellFormed client (segments t) s.directory v.well_formed)
          (unfold Directory.subscribe in
            subscribe-ZeroAtKill client t nonzero s.directory v.zero_at_kill)

    pub unsubscribe-IsValid : IsValid n (in_directory (Directory.unsubscribe client t) s).1
    unfolding Directory.unsubscribe
    unsubscribe-IsValid =
        changed-IsValid _
          (unsubscribe_segments-IsWellFormed client (segments t) s.directory v.well_formed)
          (unsubscribe-ZeroAtKill client t nonzero s.directory v.zero_at_kill)

    pub claim-IsValid : IsValid n (in_directory (Directory.claim client t) s).1
    unfolding Directory.claim
    claim-IsValid =
        changed-IsValid _
          (claim_segments-IsWellFormed client (segments t) s.directory v.well_formed)
          (claim-ZeroAtKill client t nonzero s.directory v.zero_at_kill)

    pub unclaim-IsValid : IsValid n (in_directory (Directory.unclaim client t) s).1
    unfolding Directory.unclaim
    unclaim-IsValid =
        changed-IsValid _
          (unclaim_segments-IsWellFormed client (segments t) s.directory v.well_formed)
          (unclaim-ZeroAtKill client t nonzero s.directory v.zero_at_kill)
