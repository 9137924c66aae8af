-- ===== src/Server/Delivery.antt =====
-- `deliver` on each of its branches.
use t2_bus.Base.{ℕ, ◌+◌, ◌%◌, true, false, none, some, lookup, put, ◌≡◌}
use t2_bus.Text.{Text}
use t2_bus.Err.{ok, err, unknown_client, delivery_failed}
use t2_bus.Exec.{◌>>=◌}
use t2_bus.Protocol.{ProtocolServer}
use t2_bus.Server.{Core, Channel, enqueue, deliver, send_to, new_msg, deregister_client, u32_mod}

-- The state with one message id used up.
abbrev pub used_id : Core → Core
used_id s = record s { next_msg_id = (s.next_msg_id + 1) % u32_mod }

-- The state with the message at the end of the client's queue.
abbrev pub delivered : ℕ → Channel → ProtocolServer → Core → Core
delivered client c payload s = record s {
  senders = put client (enqueue c (record { id = s.next_msg_id; content = payload })) s.senders;
  next_msg_id = (s.next_msg_id + 1) % u32_mod;
}

module _ (send_error : Text) (client : ℕ) (payload : ProtocolServer) (s : Core) where
  pub deliver_unknown :
      lookup client s.senders ≡ none
      → deliver send_error client payload s ≡ (err (unknown_client client), used_id s)
  unfolding deliver new_msg send_to ◌>>=◌
  deliver_unknown e = rw (e, send_to)

  pub deliver_open :
      (c : Channel)
      → lookup client s.senders ≡ some c
      → c.is_open ≡ true
      → deliver send_error client payload s ≡ (ok s.next_msg_id, delivered client c payload s)
  unfolding deliver new_msg send_to ◌>>=◌
  deliver_open c e o = rw (e, send_to) (rw o)

  pub deliver_closed :
      (c : Channel)
      → lookup client s.senders ≡ some c
      → c.is_open ≡ false
      → deliver send_error client payload s
        ≡ (err (delivery_failed client send_error), (deregister_client client (used_id s)).1)
  unfolding deliver new_msg send_to ◌>>=◌ deregister_client
  deliver_closed c e o = rw (e, send_to) (rw o)
