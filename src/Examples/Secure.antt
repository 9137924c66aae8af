-- ===== src/Examples/Secure.antt =====
-- Connections over TLS, the second of which fails its handshake, and a key file that is malformed.
use t2_bus.Base.{ℕ, codes, Bool, true, false, List, [], ◌∷◌, Option, some, ◌≡◌, ◌↔◌, refl}
use t2_bus.Text.{Text}
use t2_bus.Protocol.{Bytes}
use t2_bus.Err.{io_error, err, ok, panic}
use t2_bus.Stopper.{runs, waits, multi_join}
use t2_bus.Server.{register, ended}
use t2_bus.Server.Listen.{ListenTask, listen_loop}
use t2_bus.Server.Stopping.{process_of, stopper_of}
use t2_bus.Sockets.{IoResult, done, failed}
use t2_bus.Sockets.Tls.{Rustls, load_certs, tls_new}
use t2_bus.Sockets.Loading.{IsMalformed, tls_new_panics_iff}
use t2_bus.Sockets.Accepting.{arrivals, failed_handshake_ends}

-- A socket is whether its handshake succeeds.
abbrev shake : Bool → IoResult (Unit {0})
shake true = done tt
shake false = failed (codes "tls handshake eof")

abbrev waiting : ListenTask
waiting = record { is_core_there = true; tasks = [] }

abbrev good : Bool × Text
good = (true, codes "peer")

abbrev bad : Bool × Text
bad = (false, codes "peer")

failed_handshake_ends_example :
    let (st, l) = listen_loop (arrivals shake (good ∷ bad ∷ good ∷ [])) waiting in
    (st ≡ ended (err (io_error (codes "tls handshake eof"))))
    × (l.tasks ≡ register ∷ [])
    × (multi_join (stopper_of (process_of [] st) ∷ stopper_of runs ∷ []) ≡ waits)
failed_handshake_ends_example =
    failed_handshake_ends shake [] (good ∷ []) (good ∷ []) bad (codes "tls handshake eof") waiting
      refl ((tt, refl), tt) refl

-- A file is its name, holds itself as its one certificate, and has no key if it is empty.
abbrev key_of : Bytes → IoResult (Option Bytes)
key_of [] = failed (codes "section end not found")
key_of (b ∷ bs) = done (some (b ∷ bs))

abbrev plain_rustls : Rustls Bytes (List Bytes) (Unit {0}) (Unit {0}) (Unit {0})
plain_rustls = record {
  open_file = λ path. done path;
  certs = λ file. done file ∷ [];
  private_key = key_of;
  empty = [];
  add = λ c store. done (c ∷ store);
  build_verifier = λ store. done tt;
  server_config = λ verifier certs key. done tt;
  client_config = λ store certs key. done tt;
}

abbrev bound : IoResult ℕ
bound = done 4242

tls_new_panics_iff_example :
    (tls_new plain_rustls bound (codes "cert") [] (codes "root") ≡ panic) ↔ (
      ((listener : ℕ) × (bound ≡ done listener))
      × ((certs : List Bytes) × (load_certs plain_rustls (codes "cert") ≡ ok certs))
      × IsMalformed plain_rustls [])
tls_new_panics_iff_example = tls_new_panics_iff plain_rustls bound (codes "cert") [] (codes "root")

key_panics : tls_new plain_rustls bound (codes "cert") [] (codes "root") ≡ panic
unfolding tls_new
key_panics = refl

key_loads : tls_new plain_rustls bound (codes "cert") (codes "key") (codes "root") ≡ ok (4242, tt)
unfolding tls_new
key_loads = refl
