-- ===== src/Sockets/Tls.antt =====
-- src/transport/tls.rs: sockets with TLS. The TLS library and the reading of certificates and keys
-- are parameters.
use t2_bus.Base.{codes, List, [], ◌∷◌, Option}
use t2_bus.Text.{Text}
use t2_bus.Protocol.{Bytes}
use t2_bus.Err.{tls_config_error, Result, ok, err, panic, ◌>>=◌}
use t2_bus.Sockets.{IoResult, done, failed, io, ok_or}

-- `open_file` is the opening of a file, `certs` and `private_key` what is read from one, and `add` puts a
-- certificate into a store of trusted ones.
pub record Rustls (File Store Verifier ServerConfig ClientConfig : Type 0) : Type 0 where
  pub open_file : Text → IoResult File
  pub certs : File → List (IoResult Bytes)
  pub private_key : File → IoResult (Option Bytes)
  pub empty : Store
  pub add : Bytes → Store → IoResult Store
  pub build_verifier : Store → IoResult Verifier
  pub server_config : Verifier → List Bytes → Bytes → IoResult ServerConfig
  pub client_config : Store → List Bytes → Bytes → IoResult ClientConfig

-- `map_err` to a `TlsConfigError`
abbrev pub tls {ℓ} : {A : Type ℓ} → IoResult A → Result A
tls (done a) = ok a
tls (failed e) = err (tls_config_error e)

abbrev pub unwrap_key {ℓ} : {A : Type ℓ} → IoResult A → Result A
unwrap_key (done a) = ok a
unwrap_key (failed e) = panic

-- The first error counts.
unfoldable pub collect : List (IoResult Bytes) → Result (List Bytes)
collect [] = ok []
collect (r ∷ rs) = let rest = collect rs in tls r >>= λ c. rest >>= λ cs. ok (c ∷ cs)

module _ {File Store Verifier ServerConfig ClientConfig : Type 0}
    (rustls : Rustls File Store Verifier ServerConfig ClientConfig) where
  unfoldable pub load_certs : Text → Result (List Bytes)
  unfolding collect
  load_certs path = io (rustls.open_file path) >>= λ file. collect (rustls.certs file)

  unfoldable pub load_key : Text → Result Bytes
  load_key path = io (rustls.open_file path) >>= λ file.
      unwrap_key (rustls.private_key file) >>= λ key.
      ok_or (tls_config_error (codes "no private key found")) key

  -- The loop of `load_root_cert_store`.
  unfoldable pub add_all : List Bytes → Store → Result Store
  add_all [] store = ok store
  add_all (c ∷ cs) store = tls (rustls.add c store) >>= λ store'. add_all cs store'

  unfoldable pub load_root_cert_store : Text → Result Store
  unfolding collect add_all
  load_root_cert_store path = io (rustls.open_file path) >>= λ file.
      collect (rustls.certs file) >>= λ root_certs. add_all root_certs rustls.empty

  module _ {Listening : Type 0} where
    -- `TlsListener::new`
    unfoldable pub tls_new :
        IoResult Listening → Text → Text → Text → Result (Listening × ServerConfig)
    unfolding load_certs load_key load_root_cert_store
    tls_new bind certs_pem_file key_file root_cert_pem_file = io bind >>= λ listener.
        load_certs certs_pem_file >>= λ certs. load_key key_file >>= λ key.
        load_root_cert_store root_cert_pem_file >>= λ root_cert_store.
        tls (rustls.build_verifier root_cert_store) >>= λ client_verifier.
        tls (rustls.server_config client_verifier certs key) >>= λ config. ok (listener, config)

  -- The loop over the certificates of `connect`.
  unfoldable pub add_roots : List (IoResult Bytes) → Store → Result Store
  add_roots [] store = ok store
  add_roots (cert ∷ rs) store =
      io cert >>= λ c. unwrap_key (rustls.add c store) >>= λ store'. add_roots rs store'

  module _ {Socket Domain Stream : Type 0} where
    -- `connect`, whose calls of the sockets are its first arguments.
    unfoldable pub tls_connect :
        IoResult Socket
        → Option Domain
        → (ClientConfig → Domain → Socket → IoResult Stream)
        → Text
        → Text
        → Text
        → Result Stream
    unfolding load_certs load_key add_roots
    tls_connect tcp_connect try_from connect ca_file certs_pem_file key_file =
        io (rustls.open_file ca_file) >>= λ pem.
        add_roots (rustls.certs pem) rustls.empty >>= λ root_cert_store.
        load_certs certs_pem_file >>= λ cert_chain. load_key key_file >>= λ key.
        tls (rustls.client_config root_cert_store cert_chain key) >>= λ config.
        io tcp_connect >>= λ socket.
        ok_or (tls_config_error (codes "invalid hostname")) try_from >>= λ domain.
        io (connect config domain socket)

module _ {Socket Addr Stream : Type 0} where
  -- `accept`: a connection, and the handshake on it
  unfoldable pub tls_accept : IoResult (Socket × Addr) → (Socket → IoResult Stream) → Result Stream
  tls_accept accept handshake = io accept >>= λ (socket, addr). io (handshake socket)
