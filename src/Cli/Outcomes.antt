-- ===== src/Cli/Outcomes.antt =====
-- The results of the command line tool (src/bin/t2.rs), one after the other.
use t2_bus.Base.{◌≡◌, refl, arith}
use t2_bus.Text.{Text}
use t2_bus.Err
use t2_bus.Err.{BusError, Result}
use t2_bus.Cli.{Outcome, done, failed, panicked, ◌>>=◌, from_bus}

pub bind_done :
    {A B : Type 0} (o : Outcome A) (f : A → Outcome B) (b : B)
    → (o >>= f) ≡ done b
    → (a : A) × (o ≡ done a) × (f a ≡ done b)
bind_done (done a) f b e = (a, refl, e)
bind_done (failed t) f b e = absurd (ground (arith, e))
bind_done panicked f b e = absurd (ground (arith, e))

pub done_bind :
    {A B : Type 0} (o : Outcome A) (f : A → Outcome B) (a : A) (b : B)
    → o ≡ done a
    → f a ≡ done b
    → (o >>= f) ≡ done b
done_bind o f a b e g = rw e g

pub bind_assoc :
    {A B C : Type 0} (o : Outcome A) (f : A → Outcome B) (g : B → Outcome C)
    → ((o >>= f) >>= g) ≡ (o >>= λ a. f a >>= g)
bind_assoc (done a) f g = refl
bind_assoc (failed t) f g = refl
bind_assoc panicked f g = refl

pub from_bus-done :
    {A : Type 0} (describe : BusError → Text) (r : Result A) (a : A)
    → from_bus describe r ≡ done a
    → r ≡ Err.ok a
from_bus-done describe (Err.ok b) a e = ground (arith, e)
from_bus-done describe (Err.err b) a e = absurd (ground (arith, e))
from_bus-done describe Err.panic a e = absurd (ground (arith, e))
