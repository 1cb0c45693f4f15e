-- ===== src/Outcome.antt =====
-- What a Go call can do: return a value, return an error, or panic.
use gnark_cuda.Prelude.{Bool, true, false}

pub data Outcome {ℓ} (A : Type ℓ) : Type ℓ where
  ok : A → Outcome A
  err : Outcome A
  panic : Outcome A

infixl 5 ◌>>=◌ ◌>>◌
abbrev pub ◌>>=◌ {ℓ κ} : {A : Type ℓ} {B : Type κ} → Outcome A → (A → Outcome B) → Outcome B
ok a >>= f = f a
err >>= f = err
panic >>= f = panic

abbrev pub ◌>>◌ {ℓ} : {B : Type ℓ} → Outcome (Unit {0}) → Outcome B → Outcome B
m >> k = m >>= λ _. k

-- `if !b { return err }`
abbrev pub require : Bool → Outcome (Unit {0})
require true = ok tt
require false = err

-- A call whose error result is dropped: the receiver keeps the value that it had.
abbrev pub ignore_err {ℓ} : {A : Type ℓ} → A → Outcome A → Outcome A
ignore_err a (ok b) = ok b
ignore_err a err = ok a
ignore_err a panic = panic
