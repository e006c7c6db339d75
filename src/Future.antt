-- ===== src/Future.antt =====
-- A `seastar::future<T>` once it is resolved: a value, or the exception that the code raised.
-- `.then` is `>>=`: a continuation does not run after an exception.
use smurf.Prelude.{Bytes}

pub data Error : Type 0 where
  -- `runtime_error` is what LOG_THROW_IF and LOG_THROW raise
  runtime_error : Error
  invalid_connection_state : Error
  remote_connection_error : Error
  gate_closed : Error
  -- a promise that is destroyed before it has a value
  broken_promise : Error
  timed_out : Error
  -- no exception: the behaviour of the program is undefined from here on
  undefined : Error
  -- an exception of code that the program calls: a handler, the network
  foreign : Bytes → Error

pub data Future {ℓ} (A : Type ℓ) : Type ℓ where
  ready : A → Future A
  failed : Error → Future A

infixl 5 ◌>>=◌ ◌>>◌
abbrev pub ◌>>=◌ {ℓ κ} : {A : Type ℓ} {B : Type κ} → Future A → (A → Future B) → Future B
ready a >>= f = f a
failed e >>= f = failed e

abbrev pub ◌>>◌ {ℓ} : {B : Type ℓ} → Future (Unit {0}) → Future B → Future B
m >> k = m >>= λ _. k
