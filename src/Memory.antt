-- ===== src/Memory.antt =====
-- src/transport/memory.rs: the transport between tasks of one process. The unbounded channels of
-- tokio are a parameter.
use t2_bus.Base.{Bool, true, false, Option, none, some}
use t2_bus.Err.{Result, ok, err, channel_closed}
use t2_bus.Protocol.{ProtocolClient, ProtocolServer, Msg}

-- What polling a stream gives.
pub data Poll (A : Type 0) : Type 0 where
  pending : Poll A
  ready : Option A → Poll A

-- Tokio's channels, with `Net` as the state of all of them. `send` tells whether the receiver is
-- there, and polling gives nothing once every sender is gone.
pub record Tokio (Sender Receiver : Type 0 → Type 0) (Net : Type 0) : Type 1 where
  pub unbounded_channel : {A : Type 0} → Net → (Sender A × Receiver A) × Net
  pub send_item : {A : Type 0} → Sender A → A → Net → Bool × Net
  pub poll_item : {A : Type 0} → Receiver A → Net → Poll A × Net

-- `?` on the result of a send
abbrev pub or_closed {ℓ} : {A : Type ℓ} → Bool → A → Result A
or_closed true a = ok a
or_closed false a = err channel_closed

-- `MemoryTransport<TSend, TRecv>`
pub record MemoryTransport (Sender Receiver : Type 0 → Type 0) (TSend TRecv : Type 0) : Type 0 where
  pub sender : Sender (Result (Msg TSend))
  pub receiver : Receiver (Result (Msg TRecv))

module _ (Sender Receiver : Type 0 → Type 0) where
  abbrev pub ServerSide : Type 0
  ServerSide = MemoryTransport Sender Receiver ProtocolServer ProtocolClient

  abbrev pub ClientSide : Type 0
  ClientSide = MemoryTransport Sender Receiver ProtocolClient ProtocolServer

  pub record MemoryListener : Type 0 where
    pub accept_receiver : Receiver ServerSide

  pub record MemoryConnector : Type 0 where
    pub accept_sender : Sender ServerSide

module _ {Sender Receiver : Type 0 → Type 0} {Net : Type 0}
    (tokio : Tokio Sender Receiver Net) where
  -- `MemoryListener::new`
  unfoldable pub new :
      Net → (MemoryListener Sender Receiver × MemoryConnector Sender Receiver) × Net
  new net =
      let ((accept_sender, accept_receiver), net₁) = tokio.unbounded_channel net in
      (
        (record { accept_receiver = accept_receiver }, record { accept_sender = accept_sender }),
        net₁,
      )

  -- `MemoryConnector::connect`
  unfoldable pub connect :
      MemoryConnector Sender Receiver → Net → Result (ClientSide Sender Receiver) × Net
  connect c net =
      let ((client_sender, server_receiver), net₁) = tokio.unbounded_channel net in
      let ((server_sender, client_receiver), net₂) = tokio.unbounded_channel net₁ in
      let client_side : ClientSide Sender Receiver = record {
        sender = client_sender;
        receiver = client_receiver;
      } in
      let server_side : ServerSide Sender Receiver = record {
        sender = server_sender;
        receiver = server_receiver;
      } in
      let (is_there, net₃) = tokio.send_item c.accept_sender server_side net₂ in
      (or_closed is_there client_side, net₃)

  -- `MemoryListener::accept`, which waits as long as the poll is pending.
  abbrev pub accept_result :
      Poll (ServerSide Sender Receiver) → Option (Result (ServerSide Sender Receiver))
  accept_result pending = none
  accept_result (ready none) = some (err channel_closed)
  accept_result (ready (some client)) = some (ok client)

  unfoldable pub accept :
      MemoryListener Sender Receiver → Net → Option (Result (ServerSide Sender Receiver)) × Net
  accept l net =
      let (client, net₁) = tokio.poll_item l.accept_receiver net in (accept_result client, net₁)

  module _ {TSend TRecv : Type 0} where
    unfoldable pub start_send :
        MemoryTransport Sender Receiver TSend TRecv → Msg TSend → Net → Result (Unit {0}) × Net
    start_send t item net =
        let (is_there, net₁) = tokio.send_item t.sender (ok item) net in
        (or_closed is_there tt, net₁)

    unfoldable pub poll_next :
        MemoryTransport Sender Receiver TSend TRecv → Net → Poll (Result (Msg TRecv)) × Net
    poll_next t net = tokio.poll_item t.receiver net
