-- ===== src/Gate/Speculative.antt =====
-- The speculative gate of src/reomp/reomp_gate_clock.cpp (reomp_scgate_in, reomp_scgate_out): in
-- record mode a thread draws a ticket by a fetch-and-add, and waits until the clock reaches it; a
-- replay goes through the clock gate. Threads pass it under a schedule, as in Gate/Clock/Machine.
pub mod Replay
pub mod Record
pub mod RoundTrip
pub mod Others
mod Tests
use re_omp_llvm.Common.{
  ℕ, ◌+◌, ◌%◌, ◌^◌, Option, none, some, List, [], ◌∷◌, update, ◌==◌, if◌then◌else◌,
}
use re_omp_llvm.Gate.Defs.{
  Mode, recording, replaying, disabled, Error, Result, ok, err, ◌>>=◌, incr32,
}
use re_omp_llvm.Gate.Clock.{
  Config, Cgate, cgate_init, Wait, Leave, ticket_wait_begin, ticket_wait_pass, leave_begin,
  leave_end, record_ticket_number,
}
use re_omp_llvm.Gate.Clock.Machine.{Passage}

-- the shared gate, and speculative_clock of reomp_scgate_t by thread
pub record Scgate : Type 0 where
  pub gate : Cgate
  pub speculative_clock : ℕ → ℕ

-- Where reomp_scgate_in and reomp_scgate_out stand after their first parts.
pub data Entry : Type 0 where
  speculating : Entry
  replay_entry : Wait → Entry

pub data Exit : Type 0 where
  recording_exit : Exit
  replay_exit : Leave → Exit

-- `__sync_fetch_and_add(&scheduling_clocks[lock_id], 1)`
abbrev pub draw : (tid lock_id : ℕ) → Scgate → Scgate
draw tid lock_id s = record s {
  gate = record (s.gate) {
    scheduling_clocks =
        update s.gate.scheduling_clocks lock_id (incr32 (s.gate.scheduling_clocks lock_id));
  };
  speculative_clock = update s.speculative_clock tid (s.gate.scheduling_clocks lock_id);
}

abbrev pub entry_of : Scgate → Result (Wait × Cgate) → Result (Entry × Scgate)
entry_of s (ok (w, g)) = ok (replay_entry w, record s { gate = g })
entry_of s (err e) = err e

-- The guard on a serial region aside, reomp_scgate_in is scgate_draw followed by scgate_pass.
unfoldable pub scgate_draw : Config → (tid lock_id : ℕ) → Scgate → Result (Entry × Scgate)
unfolding ticket_wait_begin
scgate_draw c tid lock_id s = elim (c.mode) [
  | recording ↦ ok (speculating, draw tid lock_id s)
  | _ ↦ entry_of s (ticket_wait_begin c tid s.gate)
]

abbrev pub with_gate : Scgate → Option Cgate → Option Scgate
with_gate s none = none
with_gate s (some g) = some (record s { gate = g })

-- `none`: the thread waits on.
unfoldable pub scgate_pass : (tid lock_id : ℕ) → Entry → Scgate → Option Scgate
unfolding ticket_wait_pass
scgate_pass tid lock_id speculating s =
    if s.speculative_clock tid == s.gate.current_clocks lock_id then some s else none
scgate_pass tid lock_id (replay_entry w) s = with_gate s (ticket_wait_pass tid lock_id w s.gate)

-- `current_clocks[lock_id]++`
abbrev pub tick : ℕ → Scgate → Scgate
tick lock_id s = record s {
  gate = record (s.gate) {
    current_clocks = update s.gate.current_clocks lock_id (incr32 (s.gate.current_clocks lock_id));
  };
}

abbrev pub exit_of : Scgate → (Leave × Cgate) → Exit × Scgate
exit_of s (l, g) = (replay_exit l, record s { gate = g })

-- reomp_scgate_out is scgate_tick followed by scgate_log.
unfoldable pub scgate_tick : Mode → (tid lock_id : ℕ) → Scgate → Exit × Scgate
unfolding leave_begin
scgate_tick recording tid lock_id s = (recording_exit, tick lock_id s)
scgate_tick replaying tid lock_id s = exit_of s (leave_begin replaying tid lock_id s.gate)
scgate_tick disabled tid lock_id s = exit_of s (leave_begin disabled tid lock_id s.gate)

abbrev pub logged_in : Scgate → Result Cgate → Result Scgate
logged_in s (ok g) = ok (record s { gate = g })
logged_in s (err e) = err e

unfoldable pub scgate_log : Config → ℕ → Exit → Scgate → Result Scgate
unfolding record_ticket_number leave_end
scgate_log c tid recording_exit s =
    logged_in s (record_ticket_number c tid (s.speculative_clock tid) s.gate)
scgate_log c tid (replay_exit l) s = logged_in s (leave_end c tid l s.gate)

-- Where a thread stands between two of its steps.
pub data Place : Type 0 where
  outside : Place
  entering : (lock_id : ℕ) → Entry → Place
  within : (lock_id : ℕ) → Place
  exiting : Exit → Place

-- `trace` holds the passages in the order in which the threads left the gate, the newest first.
pub record Speculation : Type 0 where
  pub gate : Scgate
  pub place : ℕ → Place
  pub todo : ℕ → List ℕ
  pub trace : List Passage
  pub failed : Option Error

abbrev pub drew :
    (tid lock_id : ℕ) (locks : List ℕ) → Speculation → Result (Entry × Scgate) → Speculation
drew tid l ls m (err e) = record m { failed = some e }
drew tid l ls m (ok (w, s)) = record m {
  gate = s;
  place = update m.place tid (entering l w);
  todo = update m.todo tid ls;
}

abbrev pub passed : (tid lock_id : ℕ) → Speculation → Option Scgate → Speculation
passed tid l m none = m
passed tid l m (some s) = record m { gate = s; place = update m.place tid (within l) }

abbrev pub ticked : (tid lock_id : ℕ) → Speculation → (Exit × Scgate) → Speculation
ticked tid l m (x, s) = record m {
  gate = s;
  place = update m.place tid (exiting x);
  trace = (l, tid) ∷ m.trace;
}

abbrev pub wrote : ℕ → Speculation → Result Scgate → Speculation
wrote tid m (err e) = record m { failed = some e }
wrote tid m (ok s) = record m { gate = s; place = update m.place tid outside }

abbrev pub next_passage : Config → ℕ → List ℕ → Speculation → Speculation
unfolding scgate_draw
next_passage c tid [] m = m
next_passage c tid (l ∷ ls) m = drew tid l ls m (scgate_draw c tid l m.gate)

-- one step of a thread at a place
unfoldable pub speculate : Config → ℕ → Place → Speculation → Speculation
unfolding scgate_draw scgate_pass scgate_tick scgate_log next_passage
speculate c tid outside m = next_passage c tid (m.todo tid) m
speculate c tid (entering l w) m = passed tid l m (scgate_pass tid l w m.gate)
speculate c tid (within l) m = ticked tid l m (scgate_tick c.mode tid l m.gate)
speculate c tid (exiting x) m = wrote tid m (scgate_log c tid x m.gate)

abbrev pub unless_failed : Option Error → Speculation → Speculation → Speculation
unless_failed none m n = n
unless_failed (some e) m n = m

unfoldable pub speculate_step : Config → ℕ → Speculation → Speculation
unfolding speculate
speculate_step c tid m = unless_failed m.failed m (speculate c tid (m.place tid) m)

unfoldable pub speculate_run : Config → List ℕ → Speculation → Speculation
unfolding speculate_step
speculate_run c [] m = m
speculate_run c (tid ∷ sched) m = speculate_run c sched (speculate_step c tid m)

unfoldable pub speculation : (ℕ → List ℕ) → Speculation
unfolding cgate_init
speculation prog = record {
  gate = record { gate = cgate_init; speculative_clock = λ _. 0 };
  place = λ _. outside;
  todo = prog;
  trace = [];
  failed = none;
}
