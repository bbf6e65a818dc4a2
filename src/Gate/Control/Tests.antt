-- ===== src/Gate/Control/Tests.antt =====
-- A program under REOMP_CONTROL, with the clock gate for every method, and the theorems at it.
use re_omp_llvm.Common.{
  ℕ, ◌≡◌, refl, Bool, true, false, ◌&&◌, ◌-◌, leb, Option, none, some, List, [], ◌∷◌, map, ◌==◌,
  if◌then◌else◌, arith,
}
use re_omp_llvm.Gate.Defs.{Mode, recording, disabled, Result, ok}
use re_omp_llvm.Gate.Clock.{Cgate, cgate_init}
use re_omp_llvm.Gate.Settings.{Text, Variable, method_name, made, Libc, here}
use re_omp_llvm.Gate.Control.{
  Call, Gates, Session, reomp_control, controls, switch, one_clock, through,
}
use re_omp_llvm.Gate.Control.Filled.{clock_gate}
use re_omp_llvm.Gate.Control.Dispatch.{on_lock_0, controls-disabled, controls-on_lock_0}

-- a C library with numbers of one digit
abbrev same_text : Text → Text → Bool
same_text [] [] = true
same_text (a ∷ s) (b ∷ t) = (a == b) && same_text s t
same_text _ _ = false

abbrev digit : Text → ℕ
digit [] = 0
digit (c ∷ t) = if leb 48 c && leb c 57 then c - 48 else 0

abbrev libc : (Variable → Option Text) → Libc
libc env = record {
  getenv = env;
  strcmp = λ a b. if same_text a b then 0 else 1;
  atoi = digit;
  is_there = λ d. false;
  mkdir = λ d. made;
}

abbrev gates : Gates Cgate
gates = let g = clock_gate (λ i. none) in record { cclock = g; clock = g; sclock = g; tid = g }

abbrev method_7 : Variable → Option Text
method_7 method_name = some (55 ∷ [])
method_7 _ = none

abbrev main_call : Call
main_call = record { num_threads = 1; tid = 0; control = 0; ptr = 0; size = 4 }

-- a passage of thread 1 by lock 5
abbrev passage : List Call
passage =
    record { num_threads = 2; tid = 1; control = 10; ptr = 0; size = 5 }
    ∷ record { num_threads = 2; tid = 1; control = 11; ptr = 0; size = 5 }
    ∷ []

abbrev session : Mode → Session Cgate
session mode = record {
  config = record {
    mode = mode;
    method = 1;
    profile_level = 0;
    record_dir = here;
    multi_clock = 0;
  };
  gate = some (clock_gate (λ i. none));
  state = cgate_init;
  rank = none;
}

controls-disabled_example :
    controls (libc method_7) none gates passage (session disabled) ≡ ok (some (session disabled))
controls-disabled_example =
    controls-disabled (libc method_7) none gates passage (session disabled) refl

controls-on_lock_0_example :
    controls (libc method_7) none gates (map on_lock_0 passage) (session recording)
    ≡ controls (libc method_7) none gates passage (session recording)
controls-on_lock_0_example =
    controls-on_lock_0 (libc method_7) none gates passage (session recording) refl
      ((λ e. omega (arith, e)), ((λ e. omega (arith, e)), _))

-- The clock of lock 0 has ticked once.
test_clock : Result (Option (Session Cgate)) → ℕ
test_clock (ok (some s)) = s.state.current_clocks 0
test_clock _ = 100

lock_0_ticks : test_clock (controls (libc method_7) none gates passage (session recording)) ≡ 1
unfolding test_clock controls reomp_control switch one_clock through clock_gate
lock_0_ticks = refl
