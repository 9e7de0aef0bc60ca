-- ===== src/Base/Errors.antt =====
-- runtime/store.py: the exception classes, and code that returns or raises one of them. The
-- messages are not kept: a caller tells the classes apart.
use mathlib.Core.Bool.{Bool, true, false}
use mathlib.Core.Option.{Option, none, some}
use mathlib.Core.Path.{◌≡◌, refl}
use mathlib.Core.Logic.{◌⊎◌, inl, inr}

pub data Error : Type 0 where
  -- RuntimeNotFound, RuntimeConflict, RuntimeLeaseLost, RuntimeIntegrityError,
  -- RuntimePersistenceError, Python's ValueError, what an injected fault raises, and HumanStateConflict
  not_found conflict lease_lost integrity persistence value_error injected human_conflict : Error

pub data Outcome {ℓ} (A : Type ℓ) : Type ℓ where
  ok : A → Outcome A
  err : Error → Outcome A

infixl 5 ◌>>=◌ ◌>>◌
abbrev pub ◌>>=◌ {ℓ κ} : {A : Type ℓ} {B : Type κ} → Outcome A → (A → Outcome B) → Outcome B
ok a >>= f = f a
err e >>= f = err e

abbrev pub ◌>>◌ {ℓ} : {B : Type ℓ} → Outcome (Unit {0}) → Outcome B → Outcome B
m >> k = m >>= λ _. k

-- `if not b: raise e`
abbrev pub guard : Bool → Error → Outcome (Unit {0})
guard true e = ok tt
guard false e = err e

-- `o`, or the error that its absence raises
abbrev pub require {ℓ} : {A : Type ℓ} → Error → Option A → Outcome A
require e none = err e
require e (some a) = ok a

-- `except ...: raise e`
abbrev pub raise_as {ℓ} : {A : Type ℓ} → Error → Outcome A → Outcome A
raise_as e (ok a) = ok a
raise_as e (err _) = err e

abbrev pub is_refused {ℓ} : {A : Type ℓ} → Outcome A → Bool
is_refused (ok a) = false
is_refused (err e) = true

pub Outcome-cases {ℓ} :
    {A : Type ℓ} (o : Outcome A) → ((e : Error) × (o ≡ err e)) ⊎ ((a : A) × (o ≡ ok a))
Outcome-cases (ok a) = inr (a, refl)
Outcome-cases (err e) = inl (e, refl)
