-- ===== src/Exec.antt =====
-- Handlers as state passing: a Go function that returns a value or an `error`, or panics, and the
-- history of the calls it made. Errors keep what the driver reads of them (common/errorf.go,
-- storage/common/common.go).
use infinibox_csi_driver.Prelude.{Bool, false, []}
use infinibox_csi_driver.Strings.{Str}

-- The gRPC codes that the driver uses.
pub data Code : Type 0 where
  unknown invalid_argument not_found already_exists permission_denied resource_exhausted : Code
  failed_precondition aborted unimplemented internal unavailable unauthenticated : Code

-- A plain error, `status.Error(code, …)`, or `ImplementationError{Code: code}`.
pub data Shape : Type 0 where
  plain : Shape
  status : Code → Shape
  implementation : Code → Shape

-- `errors.Is` with the two sentinels of `iboxapi`, and the innermost text. The text that wrappers
-- put before it (file, line, names) is left out.
pub record Err : Type 0 where
  pub shape : Shape
  pub is_not_found : Bool
  pub is_mapping_exists : Bool
  pub text : Str

-- common.Errorf("… %w", err)
abbrev pub wrap_error : Err → Err
wrap_error e = record e { shape = Shape.plain }

-- status.Error(code, err.Error()): the chain of wrapped errors is cut.
abbrev pub to_status : Code → Err → Err
to_status c e = record {
  shape = Shape.status c;
  is_not_found = false;
  is_mapping_exists = false;
  text = e.text;
}

-- ImplementationError{Code: code, Msg: err.Error()}
abbrev pub to_implementation : Code → Err → Err
to_implementation c e = record {
  shape = Shape.implementation c;
  is_not_found = false;
  is_mapping_exists = false;
  text = e.text;
}

abbrev pub internally : Err → Err
internally = to_implementation Code.internal

-- An error that the driver makes itself.
abbrev pub new_error : Shape → Err
new_error s = record { shape = s; is_not_found = false; is_mapping_exists = false; text = [] }

abbrev pub status_error : Code → Err
status_error c = new_error (Shape.status c)

abbrev pub implementation_error : Code → Err
implementation_error c = new_error (Shape.implementation c)

abbrev pub plain_error : Err
plain_error = new_error Shape.plain

-- A Go pair `(value, err)` of which one is nil.
pub data Answer {ℓ} (A : Type ℓ) : Type ℓ where
  ok : A → Answer A
  err : Err → Answer A

-- What a handler ends in. A panic is a nil dereference or an index out of range; `unfinished` is a
-- recursion that ran out of the model's fuel.
pub data Outcome {ℓ} (A : Type ℓ) : Type ℓ where
  done : A → Outcome A
  fail : Err → Outcome A
  panic unfinished : Outcome A

abbrev pub Exec {ℓ κ} : Type ℓ → Type κ → Type (ℓ ⊔ κ)
Exec S A = S → Outcome A × S

module _ {ℓ κ μ} {S : Type ℓ} {A : Type κ} {B : Type μ} where
  abbrev pub continue : Outcome A × S → (A → Exec S B) → Outcome B × S
  continue (done a, s) f = f a s
  continue (fail e, s) f = (fail e, s)
  continue (panic, s) f = (panic, s)
  continue (unfinished, s) f = (unfinished, s)

  infixl 5 ◌>>=◌ ◌>>◌
  abbrev pub ◌>>=◌ : Exec S A → (A → Exec S B) → Exec S B
  ◌>>=◌ m f s = continue (m s) f

  abbrev pub ◌>>◌ : Exec S A → Exec S B → Exec S B
  m >> n = m >>= λ _. n

module _ {ℓ κ} {S : Type ℓ} {A : Type κ} where
  abbrev pub pure : A → Exec S A
  pure a s = (done a, s)

  abbrev pub throw : Err → Exec S A
  throw e s = (fail e, s)

  abbrev pub crash : Exec S A
  crash s = (panic, s)

  abbrev pub out_of_fuel : Exec S A
  out_of_fuel s = (unfinished, s)

  abbrev pub from_answer : (Err → Err) → Answer A → Exec S A
  from_answer wrap (ok a) = pure a
  from_answer wrap (err e) = throw (wrap e)

  -- `if err != nil { return nil, wrap(err) }`
  abbrev pub or_fail : Exec S (Answer A) → (Err → Err) → Exec S A
  or_fail m wrap = m >>= from_answer wrap

  -- `if err != nil { return nil, wrap(err) }` behind a call that may also panic
  abbrev pub rewrapped : (Err → Err) → Outcome A × S → Outcome A × S
  rewrapped wrap (done a, s) = (done a, s)
  rewrapped wrap (fail e, s) = (fail (wrap e), s)
  rewrapped wrap (panic, s) = (panic, s)
  rewrapped wrap (unfinished, s) = (unfinished, s)

  abbrev pub wrapping : Exec S A → (Err → Err) → Exec S A
  wrapping m wrap s = rewrapped wrap (m s)

  abbrev pub caught : Outcome A × S → Outcome (Answer A) × S
  caught (done a, s) = (done (ok a), s)
  caught (fail e, s) = (done (err e), s)
  caught (panic, s) = (panic, s)
  caught (unfinished, s) = (unfinished, s)

  -- `value, err := f()`: the error is the caller's to look at.
  abbrev pub attempt : Exec S A → Exec S (Answer A)
  attempt m s = caught (m s)
