-- ===== src/Sockets.antt =====
-- src/transport/tcp.rs and src/transport/unix.rs: what is done with the sockets of the operating
-- system, whose calls succeed or fail with an error.
pub mod Tls
pub mod Loading
pub mod Accepting
use t2_bus.Base.{List, [], ◌∷◌, Option, none, some}
use t2_bus.Text.{Text}
use t2_bus.Err.{BusError, io_error, dns_lookup_failed, Result, ok, err, ◌>>=◌, ◌>>◌}

-- The result of a call of another library, with the text that its error prints.
pub data IoResult {ℓ} (A : Type ℓ) : Type ℓ where
  done : A → IoResult A
  failed : Text → IoResult A

-- `?` on an error of input and output.
abbrev pub io {ℓ} : {A : Type ℓ} → IoResult A → Result A
io (done a) = ok a
io (failed e) = err (io_error e)

abbrev pub ok_or {ℓ} : {A : Type ℓ} → BusError → Option A → Result A
ok_or e none = err e
ok_or e (some a) = ok a

-- The first of the addresses that a host name has.
abbrev first : {A : Type 0} → List A → Option A
first [] = none
first (a ∷ addrs) = some a

-- `TcpListener::new` and `UnixListener::new`, whatever comes of removing the file of the latter.
unfoldable pub tcp_new : {Listening : Type 0} → IoResult Listening → Result Listening
tcp_new bind = io bind

unfoldable pub unix_new :
    {Listening : Type 0} → IoResult (Unit {0}) → IoResult Listening → Result Listening
unix_new remove_file bind = io bind

-- `accept` of both
unfoldable pub tcp_accept : {Socket Addr : Type 0} → IoResult (Socket × Addr) → Result Socket
tcp_accept accept = io accept >>= λ (socket, addr). ok socket

unfoldable pub unix_accept : {Socket Addr : Type 0} → IoResult (Socket × Addr) → Result Socket
unix_accept accept = io accept >>= λ (socket, addr). ok socket

-- The sockets of `connect`, which the transport of the client is made of.
unfoldable pub tcp_connect :
    {Socket Addr Stream : Type 0}
    → IoResult Socket
    → (Socket → IoResult (Unit {0}))
    → IoResult (List Addr)
    → (Socket → Addr → IoResult Stream)
    → Result Stream
tcp_connect new_v4 set_keepalive lookup_host connect = io new_v4 >>= λ socket.
    io (set_keepalive socket)
    >> (io lookup_host >>= λ addrs.
        ok_or dns_lookup_failed (first addrs) >>= λ addr. io (connect socket addr))

unfoldable pub unix_connect : {Stream : Type 0} → IoResult Stream → Result Stream
unix_connect connect = io connect
