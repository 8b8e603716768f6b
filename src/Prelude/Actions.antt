-- ===== src/Prelude/Actions.antt =====
-- Actions that change a state and may end by an exception or in undefined behaviour.
use mathlib.Core.Option.{Option, none, some}
use license_checker.Prelude.Int.{ℤ}
use license_checker.Prelude.Strings.{Text}

-- What the modelled calls throw. `process_error` is caught before `runtime_error`, its base class.
pub data Exception : Type 0 where
  process_error : Text → Exception
  runtime_error : Text → Exception
  http_exception : ℤ → Text → Exception
  json_exception : Text → Exception
  uri_exception : Text → Exception
  invalid_argument : Text → Exception

-- `fault` is undefined behaviour: a null pointer, a subscript out of range, a missing `return`.
pub data Outcome {ℓ} (A : Type ℓ) : Type ℓ where
  ok : A → Outcome A
  throws : Exception → Outcome A
  fault : Outcome A

-- what follows, where the first ends in a value
abbrev pub and_then : {A B : Type 0} → (A → Outcome B) → Outcome A → Outcome B
and_then f (ok a) = f a
and_then f (throws e) = throws e
and_then f fault = fault

-- What was done before an exception stays done, so the state comes back beside the outcome.
abbrev pub Action : Type 0 → Type 0 → Type 0
Action S A = S → Outcome A × S

module _ {S A : Type 0} where
  abbrev pub pure : A → Action S A
  pure a s = (ok a, s)

  abbrev pub throw : Exception → Action S A
  throw e s = (throws e, s)

  abbrev pub undefined : Action S A
  undefined s = (fault, s)

  abbrev pub gets : (S → A) → Action S A
  gets f s = (ok (f s), s)

  abbrev pub lift : Outcome A → Action S A
  lift r s = (r, s)

  -- a dereference, where `none` is the null pointer
  abbrev pub deref : Option A → Action S A
  deref none = undefined
  deref (some a) = pure a

module _ {S A B : Type 0} where
  abbrev pub continue : (A → Action S B) → Outcome A → S → Outcome B × S
  continue f (ok a) s = f a s
  continue f (throws e) s = (throws e, s)
  continue f fault s = (fault, s)

  infixl 5 ◌>>=◌ ◌>>◌
  abbrev pub ◌>>=◌ : Action S A → (A → Action S B) → Action S B
  ◌>>=◌ m f s = let (r, s') = m s in continue f r s'

  abbrev pub ◌>>◌ : Action S A → Action S B → Action S B
  ◌>>◌ m k = m >>= λ _. k

module _ {S A : Type 0} where
  abbrev handle : (Exception → Action S A) → Outcome A → S → Outcome A × S
  handle h (ok a) s = (ok a, s)
  handle h (throws e) s = h e s
  handle h fault s = (fault, s)

  -- `try { m } catch (...)`; `h` throws again what its `catch` clauses do not name
  abbrev pub catch : Action S A → (Exception → Action S A) → Action S A
  catch m h s = let (r, s') = m s in handle h r s'
