-- ===== src/Prelude/Failure.antt =====
-- What a call of the program comes to: it returns, or the process or its meaning ends there.
use mathlib.Core.Path.{◌≡◌, refl}

pub data Stop : Type 0 where
  -- an access outside the storage that a pointer belongs to
  out_of_bounds : Stop
  -- `std::length_error`, which nothing in the program catches
  length_error : Stop
  -- `std::bad_function_call`, from a callback that is not set
  bad_function_call : Stop
  -- an `int` that grows past its largest value, which C++ leaves undefined
  int_overflow : Stop
  -- `std::terminate`, from the end of a `std::thread` that is neither joined nor detached
  terminated : Stop
  -- `std::system_error`, from a second `join`
  system_error : Stop
  -- `exit(-1)` of LOG_FMT_FATAL
  exit_process : Stop

pub data Outcome {ℓ} (A : Type ℓ) : Type ℓ where
  ok : A → Outcome A
  stop : Stop → Outcome A

infixl 5 ◌>>=◌
abbrev pub ◌>>=◌ {ℓ κ} : {A : Type ℓ} {B : Type κ} → Outcome A → (A → Outcome B) → Outcome B
ok a >>= f = f a
stop e >>= f = stop e

-- What a chain of calls returns, its second part returns after the first.
pub bind_returns {κ ℓ} :
    {B : Type κ} {b : B} {A : Type ℓ} (r : Outcome A) {f : A → Outcome B}
    → r >>= f ≡ ok b
    → (a : A) × (f a ≡ ok b) × (r ≡ ok a)
bind_returns (stop e) h = cc
bind_returns (ok a) h = (a, h, refl)

-- The call returns and `P` holds, or the process ends through `exit` and `R` holds.
abbrev pub Post : {A : Type 0} → Type 0 → (A → Type 0) → Outcome A → Type 0
Post R P (ok a) = P a
Post R P (stop e) = (e ≡ exit_process) × R

pub Post-bind :
    {A B : Type 0} (R : Type 0) (P : A → Type 0) (Q : B → Type 0) (m : Outcome A)
    (f : A → Outcome B)
    → Post R P m
    → ((a : A) → P a → Post R Q (f a))
    → Post R Q (m >>= f)
Post-bind R P Q (ok a) f h k = k a h
Post-bind R P Q (stop e) f h k = h

pub Post-mono :
    {A : Type 0} (R : Type 0) (P Q : A → Type 0) (m : Outcome A)
    → Post R P m
    → ((a : A) → P a → Q a)
    → Post R Q m
Post-mono R P Q (ok a) h k = k a h
Post-mono R P Q (stop e) h k = h

-- The refusal is one of another kind.
pub Post-refuse :
    {A : Type 0} (R R' : Type 0) (P : A → Type 0) (m : Outcome A)
    → Post R P m
    → (R → R')
    → Post R' P m
Post-refuse R R' P (ok a) h k = h
Post-refuse R R' P (stop e) (h, r) k = (h, k r)
