-- ===== src/Exec/Keeps.antt =====
-- Invariants of methods: a rule for each way to build one.
use t2_bus.Base.{◌≡◌, refl, Bool, true, false, if◌then◌else◌}
use t2_bus.Err.{BusError, Result, ok, err, panic}
use t2_bus.Exec.{Exec, pure, raise, crash, gets, modify, continue, ◌>>=◌}

-- Whether the method returns, fails or panics, the state that it leaves satisfies `P` again.
pub record Keeps {S A : Type 0} (P : S → Type 0) (m : Exec S A) : Type 0 where
  pub keeps : (s : S) → P s → P (m s).1

module _ {S A : Type 0} {P : S → Type 0} where
  pub pure-Keeps : (a : A) → Keeps P (pure a)
  pure-Keeps a = record { keeps = λ s h. h }

  pub raise-Keeps : (e : BusError) → Keeps P (raise {A = A} e)
  raise-Keeps e = record { keeps = λ s h. h }

  pub crash-Keeps : Keeps P (crash {A = A})
  crash-Keeps = record { keeps = λ s h. h }

  pub gets-Keeps : (f : S → A) → Keeps P (gets f)
  gets-Keeps f = record { keeps = λ s h. h }

  pub if-Keeps : (b : Bool) (m n : Exec S A) → Keeps P m → Keeps P n → Keeps P (if b then m else n)
  if-Keeps true m n km kn = km
  if-Keeps false m n km kn = kn

pub modify-Keeps :
    {S : Type 0} {P : S → Type 0} (f : S → S) → ((s : S) → P s → P (f s)) → Keeps P (modify f)
modify-Keeps f h = record { keeps = h }

module _ {S A B : Type 0} {P : S → Type 0} where
  continue-Keeps :
      (r : Result A) (f : A → Exec S B) (s : S)
      → ((a : A) → Keeps P (f a))
      → P s
      → P (continue r f s).1
  continue-Keeps (ok a) f s kf h = (kf a).keeps s h
  continue-Keeps (err e) f s kf h = h
  continue-Keeps panic f s kf h = h

  pub bind-Keeps :
      (m : Exec S A) (f : A → Exec S B) → Keeps P m → ((a : A) → Keeps P (f a)) → Keeps P (m >>= f)
  unfolding ◌>>=◌
  bind-Keeps m f km kf = record {
    keeps = λ s h. continue-Keeps (m s).0 f (m s).1 kf (km.keeps s h);
  }

pub ruleset keeps_rules = (pure-Keeps, raise-Keeps, crash-Keeps, gets-Keeps, if-Keeps, bind-Keeps)

-- A change of the state and what follows it, together.
pub modify_then-Keeps :
    {S A : Type 0} {P : S → Type 0} (f : S → S) (n : Exec S A)
    → ((s : S) → P s → P (n (f s)).1)
    → Keeps P (modify f >>= λ _. n)
unfolding ◌>>=◌
modify_then-Keeps f n h = record { keeps = h }

continue-pure : {S A B : Type 0} (r : Result A) (b : B) (s : S) → (continue r (λ _. pure b) s).1 ≡ s
continue-pure (ok a) b s = refl
continue-pure (err e) b s = refl
continue-pure panic b s = refl

-- A value returned at the end leaves the state alone.
pub then_pure :
    {S A B : Type 0} (P : S → Type 0) (m : Exec S A) (b : B) (s : S)
    → P (m s).1
    → P ((m >>= λ _. pure b) s).1
unfolding ◌>>=◌
then_pure P m b s h = rw (continue-pure (m s).0 b (m s).1) h
