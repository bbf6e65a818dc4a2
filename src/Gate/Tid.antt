-- ===== src/Gate/Tid.antt =====
-- The thread-id gate (src/reomp/reomp_gate_tid.cpp): all threads write their ids to one file, and a
-- replay lets in the thread that the file names next.
pub mod Replay
mod Tests
use re_omp_llvm.Common.{
  ℕ, zero, suc, ◌+◌, ◌-◌, ◌%◌, ◌^◌, Bool, true, false, Option, none, some, List, [], ◌∷◌, ◌++◌,
  get_elem?, length, update, ◌==◌, if◌then◌else◌,
}
use re_omp_llvm.Gate.Defs.{Mode, recording, replaying, disabled, Error, Result, ok, err, incr32}
use re_omp_llvm.Gate.File.{Stream, put_words}

-- The static variables of the file; `none` stands for the id -1.
pub record Tgate : Type 0 where
  pub current_tid : Option ℕ
  pub nest_num : ℕ
  pub record_locks : ℕ → Option ℕ
  pub file_read_mutex : Bool
  pub replay_thread_num : Option ℕ
  pub fp : Stream

unfoldable pub tgate_init : List ℕ → Tgate
tgate_init words = record {
  current_tid = none;
  nest_num = 0;
  record_locks = λ _. none;
  file_read_mutex = false;
  replay_thread_num = none;
  fp = record { words = words; pos = 0 };
}

abbrev pub is_thread : Option ℕ → ℕ → Bool
is_thread none tid = false
is_thread (some t) tid = t == tid

-- What one round of reomp_tgate_in comes to.
pub data In : Type 0 where
  nested : Tgate → In
  entered : Tgate → In
  again : Tgate → In
  in_error : Error → In

-- one round of the loop in replay mode: a thread that gets the mutex reads the next id, and keeps the
-- mutex until the thread of that id leaves
unfoldable pub replay_round : ℕ → Tgate → In
replay_round tid g =
    if is_thread g.replay_thread_num tid
    then entered (record g { current_tid = some tid })
    else if g.file_read_mutex
    then again g
    else elim (get_elem? g.fp.words g.fp.pos) [
      | none ↦ in_error Error.end_of_record
      | some t ↦ again (record g {
        file_read_mutex = true;
        replay_thread_num = some t;
        fp = record (g.fp) { pos = g.fp.pos + 1 };
      })
    ]

unfoldable pub tgate_in : Mode → (tid lock_id : ℕ) → Tgate → In
unfolding replay_round
tgate_in mode tid lock_id g =
    if is_thread g.current_tid tid
    then nested (record g { nest_num = incr32 g.nest_num })
    else elim mode [
      | recording ↦ elim (g.record_locks lock_id) [
        | some _ ↦ again g
        | none ↦ entered (record g {
          record_locks = update g.record_locks lock_id (some tid);
          current_tid = some tid;
        })
      ]
      | _ ↦ replay_round tid g
    ]

-- the end of reomp_tgate_out: what is undone when a thread is not nested
unfoldable pub tgate_leave : Mode → (tid lock_id : ℕ) → Tgate → Tgate
tgate_leave recording tid lock_id g = record g {
  current_tid = none;
  fp = put_words g.fp (tid ∷ []);
  record_locks = update g.record_locks lock_id none;
}
tgate_leave _ tid lock_id g = record g {
  current_tid = none;
  replay_thread_num = none;
  file_read_mutex = false;
}

unfoldable pub tgate_out : Mode → (tid lock_id : ℕ) → Tgate → Tgate
unfolding tgate_leave
tgate_out mode tid lock_id g =
    if g.nest_num == 0
    then tgate_leave mode tid lock_id g
    else record g { nest_num = (g.nest_num + 2 ^ 32 - 1) % 2 ^ 32 }
