-- ===== src/Client/Serving.antt =====
-- What a task to serve a topic does to a client (src/client/core.rs).
use t2_bus.Base.{
  ℕ, ◌+◌, ◌%◌, ==_iff, if◌then◌else◌, true, inl, inr, ◌⊎◌, List, ◌∷◌, some, ◌≡◌, ◌≢◌, arith,
}
use t2_bus.Topic.{Topic, segments}
use t2_bus.Err.{BusError, err, claim_wildcard_not_supported, topic_already_claimed}
use t2_bus.Exec.{◌>>=◌}
use t2_bus.Directory
use t2_bus.Directory.{Directory, get_owner}
use t2_bus.Directory.View.{has_wildcard, get_owner_segments-view}
use t2_bus.Directory.Claims.{claim_segments_verdict}
use t2_bus.Client.{
  ClientCore, srv, Signal, task, u32_mod, prepare, before_send, send, round, ended, main_loop,
}

abbrev pub next_id : ClientCore → ℕ
next_id s = (s.next_msg_id + 1) % u32_mod

send-srv :
    (s : ClientCore) (t : Topic) (ack callback : ℕ) (e : BusError)
    → (Directory.claim (next_id s) t s.subscriptions).0 ≡ err e
    → ((send (srv t ack callback) s).0 ≡ err e) × ((send (srv t ack callback) s).1.sent ≡ s.sent)
unfolding send before_send prepare ◌>>=◌
send-srv s t ack callback e h = ground (arith, h)

claim_fails :
    (id : ℕ) (t : Topic) (d : Directory)
    → (has_wildcard (segments t) ≡ true) ⊎ ((o : ℕ) × (get_owner t d ≡ some o) × (o ≢ id))
    → (Directory.claim id t d).0
      ≡ err (
          if has_wildcard (segments t) then claim_wildcard_not_supported else topic_already_claimed)
unfolding Directory.claim get_owner
claim_fails id t d (inl w) = ground (arith, w, claim_segments_verdict id (segments t) d)
claim_fails id t d (inr (o, e, n)) = ground (
  arith,
  e,
  n,
  ==_iff o id,
  claim_segments_verdict id (segments t) d,
  get_owner_segments-view (segments t) d,
)

-- A task to serve a topic with a wildcard, or one that the client serves already under another
-- message id, ends the client's main loop with an error. Nothing is sent, and what would have come
-- after it is not handled.
pub srv_ends :
    (s : ClientCore) (t : Topic) (ack callback : ℕ) (signals : List Signal)
    → (has_wildcard (segments t) ≡ true)
      ⊎ ((o : ℕ) × (get_owner t s.subscriptions ≡ some o) × (o ≢ next_id s))
    → let (status, s') = main_loop (task (srv t ack callback) ∷ signals) s in
      (status
        ≡ ended (
            err (
              if has_wildcard (segments t)
              then claim_wildcard_not_supported
              else topic_already_claimed)))
      × (s'.sent ≡ s.sent)
unfolding main_loop round ◌>>=◌
srv_ends s t ack callback signals h =
    let (e, kept) = send-srv s t ack callback _ (claim_fails (next_id s) t s.subscriptions h) in
    ground (arith, e, kept)
