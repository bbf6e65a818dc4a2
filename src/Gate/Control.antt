-- ===== src/Gate/Control.antt =====
-- The entry point of the instrumented program: reomp_init, reomp_finalize and REOMP_CONTROL of
-- src/reomp/reomp.cpp, with reomp_gate_get of src/reomp/reomp_gate.cpp. A gate is a record of
-- operations on a state `S`, like reomp_gate_t. MPI is a parameter: the rank, if it is initialised.
pub mod Dispatch
pub mod Filled
mod Tests
use re_omp_llvm.Common.{
  ℕ, ◌≡◌, Bool, true, false, not, ◌&&◌, ◌||◌, Option, none, some, List, [], ◌∷◌, ◌==◌,
  if◌then◌else◌,
}
use re_omp_llvm.Gate.Defs.{
  Mode, recording, replaying, disabled, Error, null_gate, no_such_control, Result, ok, err, ◌>>=◌,
}
use re_omp_llvm.Gate.Settings.{Libc, ReompConfig, here, config_init}

-- Who calls, and with which arguments.
pub record Call : Type 0 where
  pub num_threads : ℕ
  pub tid : ℕ
  pub control : ℕ
  pub ptr : ℕ
  pub size : ℕ

-- REOMP_WITH_LOCK and REOMP_WITHOUT_LOCK
abbrev pub with_lock : ℕ
with_lock = 1

abbrev pub without_lock : ℕ
without_lock = 2

-- reomp_gate_t. `ok none`: the thread waits. The settings are a global that the gates read.
pub record ReompGate {ℓ} (S : Type ℓ) : Type ℓ where
  pub init : ReompConfig → Call → S → Result (Option S)
  pub finalize : ReompConfig → Call → S → Result (Option S)
  pub enter : (lock : ℕ) → ReompConfig → Call → S → Result (Option S)
  pub exit : (lock : ℕ) → ReompConfig → Call → S → Result (Option S)
  pub in_brb : ReompConfig → Call → S → Result (Option S)
  pub in_arb : ReompConfig → Call → S → Result (Option S)
  pub out_bre : ReompConfig → Call → S → Result (Option S)
  pub out_are : ReompConfig → Call → S → Result (Option S)

-- the four gates of src/reomp/reomp_gate.h
pub record Gates {ℓ} (S : Type ℓ) : Type ℓ where
  pub cclock : ReompGate S
  pub clock : ReompGate S
  pub sclock : ReompGate S
  pub tid : ReompGate S

-- reomp_gate_get; `none` is NULL
unfoldable pub gate_get {ℓ} : {S : Type ℓ} → Gates S → ℕ → Option (ReompGate S)
gate_get gates method =
    if method == 0
    then some (gates.cclock)
    else if method == 1
    then some (gates.clock)
    else if method == 3
    then some (gates.sclock)
    else if method == 2
    then some (gates.tid)
    else none

-- The globals: the settings, the gate, what the gates keep, and the rank of reomp_util_init.
pub record Session {ℓ} (S : Type ℓ) : Type ℓ where
  pub config : ReompConfig
  pub gate : Option (ReompGate S)
  pub state : S
  pub rank : Option ℕ

-- Static storage is zero: the mode is REOMP_ENV_MODE_RECORD, and there is no gate.
unfoldable pub unstarted {ℓ} : {S : Type ℓ} → S → Session S
unstarted s = record {
  config = record {
    mode = recording;
    method = 0;
    profile_level = 0;
    record_dir = [];
    multi_clock = 0;
  };
  gate = none;
  state = s;
  rank = none;
}

abbrev pub Operation {ℓ} : Type ℓ → Type ℓ
Operation S = ReompGate S → ReompConfig → Call → S → Result (Option S)

module _ {ℓ} {S : Type ℓ} where
  -- the state with what an operation made of it
  abbrev pub keep : Session S → Result (Option S) → Result (Option (Session S))
  keep s (ok (some t)) = ok (some (record s { state = t }))
  keep s (ok none) = ok none
  keep s (err e) = err e

  -- what follows, unless the thread waits or the process has ended
  abbrev pub and_then :
      Result (Option (Session S))
      → (Session S → Result (Option (Session S)))
      → Result (Option (Session S))
  and_then (ok (some t)) f = f t
  and_then (ok none) f = ok none
  and_then (err e) f = err e

  -- `reomp_gate->f(...)`
  abbrev pub through_gate :
      Operation S → Option (ReompGate S) → Call → Session S → Result (Option (Session S))
  through_gate f none call s = err null_gate
  through_gate f (some g) call s = keep s (f g s.config call s.state)

  unfoldable pub through : Operation S → Call → Session S → Result (Option (Session S))
  through f call s = through_gate f s.gate call s

  -- reomp_util_init, after MPI_Initialized
  unfoldable pub util_init : Option ℕ → Session S → Result (Option (Session S))
  util_init none s = err Error.mpi_not_initialised
  util_init (some rank) s = ok (some (record s { rank = some rank }))

  abbrev pub unless_disabled :
      Mode → Session S → Result (Option (Session S)) → Result (Option (Session S))
  unless_disabled disabled s r = ok (some s)
  unless_disabled _ s r = r

  -- without REOMP_MULTI_CLOCK, the gates use clock 0
  unfoldable pub one_clock : Session S → Call → Call
  one_clock s call =
      if ((call.control == 10) || (call.control == 11)) && (s.config.multi_clock == 0)
      then record call { size = 0 }
      else call

  module _ (libc : Libc) (mpi_rank : Option ℕ) (gates : Gates S) where
    -- reomp_init
    unfoldable pub reomp_init : Call → Session S → Result (Option (Session S))
    unfolding through gate_get
    reomp_init call s = do
      (config, _) ← config_init libc
      through ReompGate.init call
          (record s { config = config; gate = gate_get gates config.method })

    -- reomp_finalize
    unfoldable pub reomp_finalize : Call → Session S → Result (Option (Session S))
    unfolding through
    reomp_finalize call s = through ReompGate.finalize call s

    -- the case REOMP_AFT_MPI_INIT
    unfoldable pub aft_mpi_init : Call → Session S → Result (Option (Session S))
    unfolding through util_init
    aft_mpi_init call s =
        if s.config.method == 2
        then and_then (through ReompGate.init call s) (util_init mpi_rank)
        else util_init mpi_rank s

    -- the switch of REOMP_CONTROL
    unfoldable pub switch : Call → Session S → Result (Option (Session S))
    unfolding through reomp_init reomp_finalize aft_mpi_init
    switch call s =
        let c : ℕ = call.control in
        if c == 0
        then reomp_init call s
        else if c == 1
        then reomp_finalize call s
        else if c == 2
        then aft_mpi_init call s
        else if c == 10
        then through (λ g. g.enter with_lock) call s
        else if c == 11
        then through (λ g. g.exit with_lock) call s
        else if c == 12
        then ok (some s)
        else if c == 13
        then through (λ g. g.enter without_lock) call s
        else if c == 14
        then ok (some s)
        else if c == 15
        then through (λ g. g.exit without_lock) call s
        else if c == 16
        then through ReompGate.in_brb call s
        else if c == 17
        then through ReompGate.in_arb call s
        else if c == 18
        then through ReompGate.out_bre call s
        else if c == 19
        then through ReompGate.out_are call s
        else if c == 50
        then ok (some s)
        else err no_such_control

    -- REOMP_CONTROL
    unfoldable pub reomp_control : Call → Session S → Result (Option (Session S))
    unfolding switch one_clock
    reomp_control call s = unless_disabled s.config.mode s (switch (one_clock s call) s)

    -- the calls of a program, as long as no thread has to wait
    unfoldable pub controls : List Call → Session S → Result (Option (Session S))
    unfolding reomp_control
    controls [] s = ok (some s)
    controls (call ∷ calls) s = and_then (reomp_control call s) (controls calls)
