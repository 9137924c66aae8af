-- ===== src/Examples/Clients.antt =====
-- A client that has subscribed to `f32:a/*`.
use t2_bus.Base.{refl, if◌then◌else◌, inr, some, true, [], ◌∷◌, List, ◌≡◌, ◌↔◌, arith}
use t2_bus.Err.{ok, err, panic, claim_wildcard_not_supported, topic_already_claimed}
use t2_bus.Directory
use t2_bus.Protocol.{PubMsg, ProtocolServer}
use t2_bus.Server.{empty_payload}
use t2_bus.Topic.{segments}
use t2_bus.Directory.View.{has_wildcard}
use t2_bus.Client.Serving.{next_id, srv_ends}
use t2_bus.Client.{
  srv, ended, ClientCore, Signal, received, task, sub, init, main_loop, after_receive, receive_pub,
  published,
}
use t2_bus.Client.Invariant.{IsValid, init-IsValid}
use t2_bus.Client.Receive.{main_loop-IsValid}
use t2_bus.Client.Delivery.{with_events, events_of, receive_pub_delivers}
use t2_bus.Client.Panics.{IsStray, after_receive_panics_iff}
use t2_bus.Examples.Topics.{star, word}

-- Every receiver is there.
abbrev pub start : ClientCore
start = init (λ c. true)

pub start-IsValid : IsValid start
start-IsValid = init-IsValid (λ c. true)

abbrev hello : PubMsg
hello = record { topic = word; payload = empty_payload }

abbrev signals : List Signal
signals =
    task (sub star 10 11)
    ∷ received (record { id = 0; content = ProtocolServer.publish hello })
    ∷ []

main_loop-IsValid_example : IsValid (main_loop signals start).1
main_loop-IsValid_example = main_loop-IsValid signals start start-IsValid

after_receive_panics_iff_example :
    ((after_receive 0 (ProtocolServer.publish hello) (main_loop signals start).1).0 ≡ panic)
    ↔ IsStray (ProtocolServer.publish hello) (main_loop signals start).1
after_receive_panics_iff_example =
    after_receive_panics_iff 0 (ProtocolServer.publish hello) (main_loop signals start).1
      (main_loop-IsValid signals start start-IsValid)

-- With one subscription, made under message id 1.
abbrev subscribed : ClientCore
subscribed = (main_loop (task (sub star 10 11) ∷ []) start).1

hands_on : (receive_pub hello subscribed).1.events ≡ published 11 hello ∷ []
unfolding receive_pub main_loop init
hands_on = refl

receive_pub_delivers_example : receive_pub hello subscribed ≡ (
  ok tt,
  with_events subscribed (
      events_of hello subscribed.callbacks_pub
        (Directory.get_subscribers word subscribed.subscriptions)),
)
unfolding main_loop init
receive_pub_delivers_example =
    receive_pub_delivers hello subscribed
      (main_loop-IsValid (task (sub star 10 11) ∷ []) start start-IsValid) (λ c. refl)

-- With one topic that is served, under message id 1.
abbrev serving : ClientCore
serving = (main_loop (task (srv word 10 11) ∷ []) start).1

next_is_2 : next_id serving ≡ 2
unfolding main_loop init
next_is_2 = refl

second_srv : Directory.get_owner word serving.subscriptions ≡ some 1
unfolding main_loop init
second_srv = refl

srv_ends_example :
    let (status, s') = main_loop (task (srv word 12 13) ∷ []) serving in
    (status
      ≡ ended (
          err (
            if has_wildcard (segments word)
            then claim_wildcard_not_supported
            else topic_already_claimed)))
    × (s'.sent ≡ serving.sent)
srv_ends_example =
    srv_ends serving word 12 13 [] (inr (1, second_srv, (λ e. ground (arith, e, next_is_2))))
