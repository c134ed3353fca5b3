-- ===== src/Prelude/Result.antt =====
-- Python's exceptions as values. The constructors are the exceptions that the modelled code raises.
use mathlib.Core.Bool.{Bool, true, false}

pub data Error : Type 0 where
  value_error type_error runtime_error unknown_venue execution_error conflict index_error queue_full
        zero_division connection_error :
      Error

pub data Result {ℓ} (A : Type ℓ) : Type ℓ where
  ok : A → Result A
  err : Error → Result A

-- `if test: raise error`
abbrev pub raise_if : Bool → Error → Result (Unit {0})
raise_if true error = err error
raise_if false error = ok tt

-- What follows a call, unless the call raised.
abbrev pub ◌>>=◌ {ℓ κ} : {A : Type ℓ} {B : Type κ} → Result A → (A → Result B) → Result B
err error >>= next = err error
ok value >>= next = next value

abbrev pub ◌>>◌ {ℓ} : {B : Type ℓ} → Result (Unit {0}) → Result B → Result B
m >> next = m >>= λ _. next

infixl 5 ◌>>=◌ ◌>>◌
-- What holds of the answer of a call that does not raise.
abbrev pub Answered {ℓ} : {A : Type ℓ} → (A → Type 0) → Result A → Type 0
Answered P (err e) = Unit
Answered P (ok a) = P a

pub Answered-bind {ℓ κ} :
    {A : Type ℓ} {B : Type κ} (P : A → Type 0) (Q : B → Type 0) (r : Result A) (f : A → Result B)
    → Answered P r
    → ((a : A) → P a → Answered Q (f a))
    → Answered Q (r >>= f)
Answered-bind P Q (err e) f h k = tt
Answered-bind P Q (ok a) f h k = k a h

pub Answered-both {ℓ} :
    {A : Type ℓ} (P Q : A → Type 0) (r : Result A)
    → Answered P r
    → Answered Q r
    → Answered (λ a. P a × Q a) r
Answered-both P Q (err e) h k = tt
Answered-both P Q (ok a) h k = (h, k)

pub no_claim {ℓ} : {A : Type ℓ} (r : Result A) → Answered (λ a. Unit) r
no_claim (err e) = tt
no_claim (ok a) = tt
