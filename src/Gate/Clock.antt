-- ===== src/Gate/Clock.antt =====
-- The clock gate of src/reomp/reomp_gate_clock.cpp (reomp_cgate_in, reomp_cgate_out and what they
-- call). An operation is split where another thread can run: before a lock is granted or a clock
-- value is reached, and between the release of a lock and the write of the ticket.
pub mod Nesting
mod Tests
pub mod Machine
pub mod Record
pub mod Replay
pub mod Order
use re_omp_llvm.Common.{
  ℕ, ◌+◌, ◌-◌, ◌%◌, ◌^◌, Bool, true, false, ◌&&◌, Option, none, some, List, [], ◌∷◌, update, ltb,
  ◌==◌, if◌then◌else◌,
}
use re_omp_llvm.Gate.Defs.{
  Mode, recording, replaying, disabled, Error, Result, ok, err, ◌>>=◌, incr32,
}
use re_omp_llvm.Gate.File.{ReompFd, closed_fd, fwrite, fread}

-- What a run is given: the mode, and the record files that exist on disk, by thread.
pub record Config : Type 0 where
  pub mode : Mode
  pub disk : ℕ → Option (List ℕ)

-- reomp_cgate_t with the table reomp_fds. `omp_locks l` is the thread that holds lock `l`, and
-- `none` in `current_tid` stands for -1. An `int` is its 32-bit pattern.
pub record Cgate : Type 0 where
  pub omp_locks : ℕ → Option ℕ
  pub current_tid : Option ℕ
  pub scheduling_clocks : ℕ → ℕ
  pub current_clocks : ℕ → ℕ
  pub nest_num : ℕ → ℕ
  pub fds : ℕ → ReompFd

-- reomp_cgate_init
unfoldable pub cgate_init : Cgate
cgate_init = record {
  omp_locks = λ _. none;
  current_tid = none;
  scheduling_clocks = λ _. 0;
  current_clocks = λ _. 0;
  nest_num = λ _. 0;
  fds = λ _. closed_fd;
}

-- `n > 0` for the pattern of an `int`
abbrev pub is_pos32 : ℕ → Bool
is_pos32 n = ltb 0 n && ltb n (2 ^ 31)

unfoldable pub filter_reentry_in : ℕ → Cgate → Bool × Cgate
filter_reentry_in tid g = (
  is_pos32 (g.nest_num tid),
  record g { nest_num = update g.nest_num tid (incr32 (g.nest_num tid)) },
)

unfoldable pub filter_reentry_out : ℕ → Cgate → Bool × Cgate
filter_reentry_out tid g =
    let n : ℕ = (g.nest_num tid + 2 ^ 32 - 1) % 2 ^ 32 in
    (is_pos32 n, record g { nest_num = update g.nest_num tid n })

-- reomp_fwrite and reomp_fread on the file of a thread
unfoldable pub write_words : Config → ℕ → List ℕ → Cgate → Result Cgate
write_words c tid ws g = do
  f ← fwrite c.mode (c.disk tid) (g.fds tid) ws
  ok (record g { fds = update g.fds tid f })

unfoldable pub read_words : Config → ℕ → ℕ → Cgate → Result (List ℕ × Cgate)
read_words c tid n g = do
  (ws, f) ← fread c.mode (c.disk tid) (g.fds tid) n
  ok (ws, record g { fds = update g.fds tid f })

-- the value of an `int` that was read
abbrev pub int_value : List ℕ → ℕ
int_value [] = 0
int_value (w ∷ _) = w

-- reomp_cgate_get_clock_replay
unfoldable pub get_clock_replay : Config → ℕ → Cgate → Result (ℕ × Cgate)
unfolding read_words
get_clock_replay c tid g = do (ws, g') ← read_words c tid 1 g; ok (int_value ws, g')

-- reomp_cgate_record_ticket_number
unfoldable pub record_ticket_number : Config → ℕ → ℕ → Cgate → Result Cgate
unfolding write_words
record_ticket_number c tid clock g = write_words c tid (clock ∷ []) g

-- Where reomp_cgate_ticket_wait stands after its first part.
pub data Wait : Type 0 where
  reentered : Wait
  locking : Wait
  spinning : (clock : ℕ) → Wait

-- after the reentry test: by mode, ask for the lock or read the ticket
unfoldable pub ticket_read : Config → ℕ → Cgate → Result (Wait × Cgate)
unfolding get_clock_replay
ticket_read c tid g = elim (c.mode) [
  | recording ↦ ok (locking, g)
  | _ ↦ do (clock, g') ← get_clock_replay c tid g; ok (spinning clock, g')
]

unfoldable pub ticket_wait_begin : Config → ℕ → Cgate → Result (Wait × Cgate)
unfolding filter_reentry_in ticket_read
ticket_wait_begin c tid g =
    let (reentry, g') = filter_reentry_in tid g in
    if reentry then ok (reentered, g') else ticket_read c tid g'

-- `none`: the thread waits on.
unfoldable pub ticket_wait_pass : ℕ → ℕ → Wait → Cgate → Option Cgate
ticket_wait_pass tid lock_id reentered g = some g
ticket_wait_pass tid lock_id locking g = elim (g.omp_locks lock_id) [
  | none ↦
      some (record g { omp_locks = update g.omp_locks lock_id (some tid); current_tid = some tid })
  | some _ ↦ none
]
ticket_wait_pass tid lock_id (spinning clock) g =
    if clock == g.current_clocks lock_id then some (record g { current_tid = some tid }) else none

-- What reomp_cgate_leave has still to do after its first part.
pub data Leave : Type 0 where
  nested : Leave
  ticket : (clock : ℕ) → Leave
  passed : Leave

-- after the reentry test: the clock ticks, and in record mode the lock is released
unfoldable pub leave_release : Mode → ℕ → Cgate → Leave × Cgate
leave_release recording lock_id g = (
  ticket (g.current_clocks lock_id),
  record g {
    current_tid = none;
    current_clocks = update g.current_clocks lock_id (incr32 (g.current_clocks lock_id));
    omp_locks = update g.omp_locks lock_id none;
  },
)
leave_release _ lock_id g = (
  passed,
  record g {
    current_tid = none;
    current_clocks = update g.current_clocks lock_id (incr32 (g.current_clocks lock_id));
  },
)

unfoldable pub leave_begin : Mode → ℕ → ℕ → Cgate → Leave × Cgate
unfolding filter_reentry_out leave_release
leave_begin mode tid lock_id g =
    let (reentry, g') = filter_reentry_out tid g in
    if reentry then (nested, g') else leave_release mode lock_id g'

unfoldable pub leave_end : Config → ℕ → Leave → Cgate → Result Cgate
unfolding record_ticket_number
leave_end c tid (ticket clock) g = record_ticket_number c tid clock g
leave_end c tid nested g = ok g
leave_end c tid passed g = ok g

-- reomp_cgate_ticket_wait and reomp_cgate_leave with no other thread between their parts; `none`
-- if the thread would wait.
unfoldable pub ticket_wait : Config → ℕ → ℕ → Cgate → Result (Option Cgate)
unfolding ticket_wait_begin ticket_wait_pass
ticket_wait c tid lock_id g = do
  (w, g') ← ticket_wait_begin c tid g
  ok (ticket_wait_pass tid lock_id w g')

unfoldable pub leave : Config → ℕ → ℕ → Cgate → Result Cgate
unfolding leave_begin leave_end
leave c tid lock_id g = let (l, g') = leave_begin c.mode tid lock_id g in leave_end c tid l g'

-- reomp_cgate_in and reomp_cgate_out: nothing happens in a serial region.
unfoldable pub cgate_in : Config → (num_threads tid lock_id : ℕ) → Cgate → Result (Option Cgate)
unfolding ticket_wait
cgate_in c num_threads tid lock_id g =
    if num_threads == 1 then ok (some g) else ticket_wait c tid lock_id g

unfoldable pub cgate_out : Config → (num_threads tid lock_id : ℕ) → Cgate → Result Cgate
unfolding leave
cgate_out c num_threads tid lock_id g = if num_threads == 1 then ok g else leave c tid lock_id g
