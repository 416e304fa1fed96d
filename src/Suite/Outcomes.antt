-- ===== src/Suite/Outcomes.antt =====
-- What an answer says of the steps it came from.
use agent_observability_lab.Base.{◌≡◌, refl, ap, Bool, true, false}
use agent_observability_lab.Suite.Schemas.{SuiteFailure, Outcome, ◌>>=◌, ◌>>◌}
use agent_observability_lab.Suite.Schemas.Outcome.{done, failed}
use agent_observability_lab.Suite.Runner.Validation.{require}

pub bind-done :
    {A B : Type 0} (m : Outcome A) (f : A → Outcome B) (b : B)
    → (m >>= f) ≡ done b
    → (a : A) × (m ≡ done a) × (f a ≡ done b)
unfolding ◌>>=◌
bind-done (done a) f b e = (a, refl, e)
bind-done (failed x) f b e = absurd (cc)

pub then-done :
    {B : Type 0} (m : Outcome (Unit {0})) (k : Outcome B) (b : B) → (m >> k) ≡ done b → k ≡ done b
unfolding ◌>>◌
then-done (done tt) k b e = e
then-done (failed x) k b e = absurd (cc)

pub first-done :
    {B : Type 0} (m : Outcome (Unit {0})) (k : Outcome B) (b : B) → (m >> k) ≡ done b → m ≡ done tt
unfolding ◌>>◌
first-done (done tt) k b e = refl
first-done (failed x) k b e = absurd (cc)

pub require_done : (holds : Bool) (x : SuiteFailure) → require holds x ≡ done tt → holds ≡ true
require_done true x e = refl
require_done false x e = absurd (cc)

pub done_inj : {A : Type 0} {a b : A} → done a ≡ done b → a ≡ b
done_inj {A = A} {a = a} e = ap value e
  where
    value : Outcome A → A
    value (done x) = x
    value (failed x) = a
