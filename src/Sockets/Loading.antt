-- ===== src/Sockets/Loading.antt =====
-- Certificates and keys that cannot be read (src/transport/tls.rs).
use t2_bus.Base.{List, [], ◌∷◌, Option, none, some, ◌≡◌, ◌≢◌, ◌↔◌, refl, arith}
use t2_bus.Text.{Text}
use t2_bus.Protocol.{Bytes}
use t2_bus.Err.{BusError, Result, ok, err, panic, ◌>>=◌}
use t2_bus.Sockets.{IoResult, done, failed, io, ok_or}
use t2_bus.Sockets.Tls.{
  Rustls, tls, unwrap_key, collect, load_certs, load_key, add_all, load_root_cert_store, tls_new,
}

-- What follows a step that does not panic panics if the whole does.
bind_panics :
    {A B : Type 0} (r : Result A) (f : A → Result B)
    → r ≢ panic
    → (r >>= f) ≡ panic
    → (a : A) × (r ≡ ok a) × (f a ≡ panic)
bind_panics (ok a) f n e = (a, refl, e)
bind_panics (err b) f n e = absurd (ground (arith, e))
bind_panics panic f n e = absurd (n refl)

bind_calm :
    {A B : Type 0} (r : Result A) (f : A → Result B)
    → r ≢ panic
    → ((a : A) → f a ≢ panic)
    → (r >>= f) ≢ panic
bind_calm (ok a) f n h e = h a e
bind_calm (err b) f n h e = ground (arith, e)
bind_calm panic f n h e = n refl

-- Where what follows does not panic, the step does.
first_panics :
    {A B : Type 0} (r : Result A) (f : A → Result B)
    → ((a : A) → f a ≢ panic)
    → (r >>= f) ≡ panic
    → r ≡ panic
first_panics (ok a) f n e = absurd (n a e)
first_panics (err b) f n e = absurd (ground (arith, e))
first_panics panic f n e = refl

io-done : {A : Type 0} (o : IoResult A) (a : A) → io o ≡ ok a → o ≡ done a
io-done (done b) a e = ground (arith, e)
io-done (failed b) a e = absurd (ground (arith, e))

unwrap_panics : {A : Type 0} (o : IoResult A) → unwrap_key o ≡ panic → (e : Text) × (o ≡ failed e)
unwrap_panics (done a) e = absurd (ground (arith, e))
unwrap_panics (failed b) e = (b, refl)

ok_or_calm : {A : Type 0} (e : BusError) (o : Option A) → ok_or e o ≢ panic
ok_or_calm e none f = ground (arith, f)
ok_or_calm e (some a) f = ground (arith, f)

io_calm : {A : Type 0} (o : IoResult A) → io o ≢ panic
io_calm (done a) e = ground (arith, e)
io_calm (failed b) e = ground (arith, e)

tls_calm : {A : Type 0} (o : IoResult A) → tls o ≢ panic
tls_calm (done a) e = ground (arith, e)
tls_calm (failed b) e = ground (arith, e)

ok_calm : {A : Type 0} (a : A) → ok a ≢ panic
ok_calm a e = ground (arith, e)

collect_calm : (rs : List (IoResult Bytes)) → collect rs ≢ panic
unfolding collect
collect_calm [] = ok_calm []
collect_calm (r ∷ rs) =
    bind_calm (tls r) _ (tls_calm r) λ c. bind_calm (collect rs) _ (collect_calm rs) λ cs. ok_calm _

module _ {File Store Verifier ServerConfig ClientConfig : Type 0}
    (rustls : Rustls File Store Verifier ServerConfig ClientConfig) where
  load_certs_calm : (path : Text) → load_certs rustls path ≢ panic
  unfolding load_certs
  load_certs_calm path =
      bind_calm _ _ (io_calm (rustls.open_file path)) λ file. collect_calm (rustls.certs file)

  add_all_calm : (cs : List Bytes) (store : Store) → add_all rustls cs store ≢ panic
  unfolding add_all
  add_all_calm [] store = ok_calm store
  add_all_calm (c ∷ cs) store = bind_calm _ _ (tls_calm (rustls.add c store)) λ s. add_all_calm cs s

  load_root_cert_store_calm : (path : Text) → load_root_cert_store rustls path ≢ panic
  unfolding load_root_cert_store
  load_root_cert_store_calm path =
      bind_calm _ _ (io_calm (rustls.open_file path))
        λ file. bind_calm _ _ (collect_calm (rustls.certs file)) λ cs. add_all_calm cs rustls.empty

  -- A file that opens and in which reading a key fails.
  abbrev pub IsMalformed : Text → Type 0
  IsMalformed path =
      (file : File) × (rustls.open_file path ≡ done file)
      × ((e : Text) × (rustls.private_key file ≡ failed e))

  load_key_panics : (path : Text) → load_key rustls path ≡ panic → IsMalformed path
  unfolding load_key
  load_key_panics path e =
      let (file, opens, h) =
        bind_panics (io (rustls.open_file path)) _ (io_calm (rustls.open_file path)) e in
      let fails =
        first_panics (unwrap_key (rustls.private_key file)) _ (λ key. ok_or_calm _ key) h in
      (file, io-done _ file opens, unwrap_panics (rustls.private_key file) fails)

  load_key-IsMalformed : (path : Text) → IsMalformed path → load_key rustls path ≡ panic
  unfolding load_key
  load_key-IsMalformed path (file, opens, (e, fails)) = rw (opens, fails) refl

  -- What follows the key in `tls_new`.
  configured_calm :
      {Listening : Type 0} (listener : Listening) (certs : List Bytes) (key : Bytes)
      (root_file : Text)
      → (load_root_cert_store rustls root_file >>= λ store.
          tls (rustls.build_verifier store) >>= λ verifier.
          tls (rustls.server_config verifier certs key) >>= λ config.
          let pair : Listening × ServerConfig = (listener, config) in ok pair)
        ≢ panic
  configured_calm {Listening = Listening} listener certs key root_file =
      bind_calm (load_root_cert_store rustls root_file) _ (load_root_cert_store_calm root_file)
        λ store.
          bind_calm (tls (rustls.build_verifier store)) _ (tls_calm (rustls.build_verifier store))
            λ verifier.
              bind_calm (tls (rustls.server_config verifier certs key)) _
                (tls_calm (rustls.server_config verifier certs key))
                λ config. ok_calm {A = Listening × ServerConfig} (listener, config)

  -- Making a listener over TLS panics exactly if the address can be bound, the certificates load, and
  -- the key file opens but reading a key from it fails, whatever the file of root certificates is.
  pub tls_new_panics_iff :
      {Listening : Type 0} (bind : IoResult Listening) (certs_file key_file root_file : Text)
      → (tls_new rustls bind certs_file key_file root_file ≡ panic) ↔ (
          ((listener : Listening) × (bind ≡ done listener))
          × ((certs : List Bytes) × (load_certs rustls certs_file ≡ ok certs))
          × IsMalformed key_file)
  unfolding tls_new
  tls_new_panics_iff bind certs_file key_file root_file = (
    λ h.
        let (listener, binds, h₁) = bind_panics (io bind) _ (io_calm bind) h in
        let (certs, loads, h₂) =
          bind_panics (load_certs rustls certs_file) _ (load_certs_calm certs_file) h₁ in
        let fails =
          first_panics (load_key rustls key_file) _
            (λ key. configured_calm listener certs key root_file) h₂ in
        ((listener, io-done bind listener binds), (certs, loads), load_key_panics key_file fails),
    λ ((listener, binds), (certs, loads), m).
        rw (binds, loads, load_key-IsMalformed key_file m) refl,
  )
