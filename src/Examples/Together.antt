-- ===== src/Examples/Together.antt =====
-- Client 2 of the small server subscribes to `f32:a/*` and is sent a publication on `f32:a/b`; client 1
-- serves `f32:c` and is sent a request, and client 1 drops one of two subscriptions.
use t2_bus.Base.{
  ℕ, codes, some, none, ==_iff, true, false, [], ◌∷◌, ◌++◌, lookup, contains, contains-insert,
  Member, ◌≡◌, refl, arith,
}
use t2_bus.Topic.{segments}
use t2_bus.Text.{Segments, text_discrete}
use t2_bus.Err.{ok}
use t2_bus.Protocol.{ReqMsg, ProtocolServer}
use t2_bus.Directory
use t2_bus.Directory.{get_owner}
use t2_bus.Directory.View.{has_wildcard, subscribers_at, subscribers_at-new}
use t2_bus.Directory.Claims.{subscribers_at-claim_segments}
use t2_bus.Directory.Subscriptions.{subscribers_at-subscribe_segments}
use t2_bus.System.Unsubscribing.{unsub_msg, unsub_starves}
use t2_bus.Directory.Concrete.{Common, nothing, word, any}
use t2_bus.Directory.WellFormed.{
  IsWellFormed, new-IsWellFormed, claim_segments-IsWellFormed, subscribe_segments-IsWellFormed,
}
use t2_bus.Server
use t2_bus.Server.{Channel, enqueue, empty_payload, kill_topic}
use t2_bus.Server.Publishing.{Received}
use t2_bus.Client.{
  ClientCore, unsub, requested, srv, published, sub, task, running, init, round, main_loop,
}
use t2_bus.System.{sub_msg}
use t2_bus.System.Requesting
use t2_bus.System.Requesting.{srv_msg}
use t2_bus.System.Subscribing.{IsOpen, signals, subscription_delivers}
use t2_bus.Examples.Topics.{star}
use t2_bus.Examples.Topics
use t2_bus.Examples.Bus.{closed_error, hello, small, open_channel, one_reached}
use t2_bus.Examples.Clients.{start, start-IsValid}

small-IsWellFormed : IsWellFormed small.directory
unfolding Directory.claim Directory.subscribe
small-IsWellFormed = claim_segments-IsWellFormed 2 (segments Topics.word) _ (
    subscribe_segments-IsWellFormed 1 (segments star) _
      (subscribe_segments-IsWellFormed 0 (segments kill_topic) _ new-IsWellFormed))

common : Common (segments star) (segments hello.topic)
unfolding segments
common = (
  segments Topics.word,
  (ground arith, ground arith, (ground arith, ground arith, (ground arith, ground arith, tt))),
  word (ground arith) refl (word (ground arith) refl (any refl nothing)),
  word (ground arith) refl (word (ground arith) refl (word (ground arith) refl nothing)),
)

opens :
    (x : ℕ)
    → contains x (Directory.get_subscribers hello.topic small.directory) ≡ true
    → IsOpen small x
unfolding lookup
opens x = rw one_reached (λ e. (open_channel, ground (arith, e, ==_iff x 1), refl))

subscription_delivers_example :
    let m = sub_msg start star in
    let s' = (Server.process_task closed_error (Server.message 2 m) small).1 in
    let sigs = signals 8 start star 20 21 hello in
    ((round (task (sub star 20 21)) start).1.sent ≡ start.sent ++ m ∷ [])
    × Received hello
        (lookup 2 s'.senders)
        (lookup 2 (Server.publish closed_error hello s').1.senders)
    × ((main_loop sigs start).0 ≡ running)
    × Member (published 21 hello) (main_loop sigs start).1.events
unfolding lookup init
subscription_delivers_example =
    subscription_delivers closed_error 2 8 start star 20 21 hello small start-IsValid refl
      (λ b. refl) small-IsWellFormed (λ e. ground (arith, e)) (open_channel, refl, refl)
      (rw one_reached) opens common

abbrev question : ReqMsg
question = record {
  topic = record { protocol = codes "f32"; path = record { text = codes "c" } };
  payload = empty_payload;
}

free : get_owner question.topic small.directory ≡ none
unfolding get_owner Directory.subscribe Directory.claim Directory.new text_discrete
free = refl

service_receives_example :
    let m = srv_msg start question.topic in
    let s' = (Server.process_task closed_error (Server.message 1 m) small).1 in
    let (r, s'') = Server.request closed_error 2 5 question s' in
    ((round (task (srv question.topic 20 21)) start).1.sent ≡ start.sent ++ m ∷ [])
    × (r ≡ ok tt)
    × ((before : Channel) × (n : ℕ) × (lookup 1 s'.senders ≡ some before)
        × (lookup 1 s''.senders
            ≡ some (enqueue before (record { id = n; content = ProtocolServer.req question }))))
    × ((main_loop (Requesting.signals start 20 21 8 question) start).0 ≡ running)
    × ((main_loop (Requesting.signals start 20 21 8 question) start).1.events
        ≡ start.events ++ requested 21 8 question ∷ [])
unfolding lookup init get_owner Directory.new text_discrete has_wildcard
service_receives_example =
    Requesting.service_receives closed_error 1 2 5 8 start 20 21 question open_channel small refl
      refl refl refl free refl refl

-- Two subscriptions to one topic, of which the server knows as one.
abbrev twice : ClientCore
twice = (main_loop (task (sub star 10 11) ∷ task (sub star 12 13) ∷ []) start).1

only_star :
    (p : Segments) → contains 1 (subscribers_at p small.directory) ≡ true → p ≡ segments star
unfolding Directory.claim Directory.subscribe
only_star p e =
    let base = (Directory.subscribe 0 kill_topic Directory.new).1 in
    ground (
      arith,
      e,
      subscribers_at-claim_segments 2 (segments Topics.word) p (Directory.subscribe 1 star base).1,
      subscribers_at-subscribe_segments 1 (segments star) p base,
      subscribers_at-subscribe_segments 0 (segments kill_topic) p Directory.new,
      contains-insert 1 1 (subscribers_at p base),
      contains-insert 1 0 (subscribers_at p Directory.new),
      subscribers_at-new p,
    )

unsub_starves_example :
    let c' = (round (task (unsub star)) twice).1 in
    let s' = (Server.process_task closed_error (Server.message 1 (unsub_msg twice star)) small).1 in
    (c'.sent ≡ twice.sent ++ unsub_msg twice star ∷ [])
    × (c'.subscriptions ≡ twice.subscriptions)
    × (c'.callbacks_pub ≡ twice.callbacks_pub)
    × (contains 1 (Directory.get_subscribers Topics.word s'.directory) ≡ false)
unfolding lookup main_loop init
unsub_starves_example =
    unsub_starves closed_error 1 twice star Topics.word open_channel small refl small-IsWellFormed
      refl refl only_star
