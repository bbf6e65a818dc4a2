-- ===== src/Gate/Defs.antt =====
-- What the ReOMP gates share: the mode of a run (src/reomp/reomp_config.h), the errors after which
-- MUTIL_ERR ends the process, and the result of an operation that may so end.
use re_omp_llvm.Common.{ℕ, ◌+◌, ◌-◌, ◌%◌, ◌^◌}

-- REOMP_ENV_MODE_RECORD, REOMP_ENV_MODE_REPLAY, REOMP_ENV_MODE_DISABLE
pub data Mode : Type 0 where
  recording replaying disabled : Mode

pub data Error : Type 0 where
  open_failed end_of_record reduction_pending no_such_method no_such_mode no_such_control : Error
  null_gate mpi_not_initialised : Error

pub data Result {ℓ} (A : Type ℓ) : Type ℓ where
  ok : A → Result A
  err : Error → Result A

infixl 5 ◌>>=◌
abbrev pub ◌>>=◌ {ℓ κ} : {A : Type ℓ} {B : Type κ} → Result A → (A → Result B) → Result B
ok a >>= f = f a
err e >>= f = err e

-- `int` counters and `size_t` sizes, with their wrap-around.
abbrev pub incr32 : ℕ → ℕ
incr32 c = (c + 1) % 2 ^ 32

abbrev pub add64 : ℕ → ℕ → ℕ
add64 a b = (a + b) % 2 ^ 64

abbrev pub sub64 : ℕ → ℕ → ℕ
sub64 a b = (a + 2 ^ 64 - b) % 2 ^ 64
