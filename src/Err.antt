-- ===== src/Err.antt =====
-- src/err.rs: the errors, and the result of a fallible method.
use t2_bus.Base.{ℕ, ◌⊎◌, inl, inr, ◌≡◌, ◌≢◌, refl}
use t2_bus.Text.{Text}
use t2_bus.Topic.{Topic}

pub data BusError : Type 0 where
  invalid_topic_string : Text → BusError
  request_failed_channel_closed : BusError
  request_failed_timeout : BusError
  request_failed : Text → BusError
  invalid_request_id : BusError
  topic_already_claimed : BusError
  claim_wildcard_not_supported : BusError
  channel_closed : BusError
  service_not_found : Topic → BusError
  delivery_failed : ℕ → Text → BusError
  unknown_client : ℕ → BusError
  malformed_message : Text → Text → BusError
  unserializable_message : Text → BusError
  io_error : Text → BusError
  internal_error : Text → BusError
  tls_config_error : Text → BusError
  dns_lookup_failed : BusError
  client_timeout : ℕ → BusError

-- `BusResult`, with a case for a panic of the task that runs the method.
pub data Result {ℓ} (A : Type ℓ) : Type ℓ where
  ok : A → Result A
  err : BusError → Result A
  panic : Result A

infixl 5 ◌>>=◌ ◌>>◌
abbrev pub ◌>>=◌ {ℓ κ} : {A : Type ℓ} {B : Type κ} → Result A → (A → Result B) → Result B
ok a >>= f = f a
err e >>= f = err e
panic >>= f = panic

abbrev pub ◌>>◌ {ℓ} : {B : Type ℓ} → Result (Unit {0}) → Result B → Result B
m >> k = m >>= λ _. k

-- A method that does not panic returns or fails.
pub Result-cases :
    {A : Type 0} (r : Result A)
    → r ≢ panic
    → ((a : A) × (r ≡ ok a)) ⊎ ((e : BusError) × (r ≡ err e))
Result-cases (ok a) n = inl (a, refl)
Result-cases (err e) n = inr (e, refl)
Result-cases panic n = absurd (n refl)
