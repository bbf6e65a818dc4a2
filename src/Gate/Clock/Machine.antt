-- ===== src/Gate/Clock/Machine.antt =====
-- Threads that pass the clock gate of src/reomp/reomp_gate_clock.cpp in any order: thread `i` runs
-- `in(l); out(l)` for each lock `l` of its program, and a schedule names the thread that moves next.
pub mod Trace
pub mod Step
use re_omp_llvm.Common.{
  ℕ, suc, ◌+◌, ◌%◌, ◌^◌, Option, none, some, List, [], ◌∷◌, ◌++◌, update, ◌==◌, if◌then◌else◌,
}
use re_omp_llvm.Gate.Defs.{Error, ok, err}
use re_omp_llvm.Gate.File.{ReompFd}
use re_omp_llvm.Gate.Clock.{
  Config, Cgate, cgate_init, Wait, Leave, ticket_wait_begin, ticket_wait_pass, leave_begin,
  leave_end,
}

-- Where a thread stands between two of its steps.
pub data Pc : Type 0 where
  ready : Pc
  waiting : (lock_id : ℕ) → Wait → Pc
  inside : (lock_id : ℕ) → Pc
  leaving : Leave → Pc

-- A passage: the lock, and the thread that passed it.
abbrev pub Passage : Type 0
Passage = ℕ × ℕ

-- `trace` holds the passages in the order in which the threads left the gate, the newest first.
pub record Machine : Type 0 where
  pub gate : Cgate
  pub pc : ℕ → Pc
  pub todo : ℕ → List ℕ
  pub trace : List Passage
  pub failed : Option Error

unfoldable pub start : Config → ℕ → List ℕ → Machine → Machine
start c tid [] m = m
start c tid (l ∷ ls) m = elim (ticket_wait_begin c tid m.gate) [
  | err e ↦ record m { failed = some e }
  | ok (w, g) ↦ record m {
    gate = g;
    pc = update m.pc tid (waiting l w);
    todo = update m.todo tid ls;
  }
]

-- one step of a thread at a place
unfoldable pub move : Config → ℕ → Pc → Machine → Machine
move c tid ready m = start c tid (m.todo tid) m
move c tid (waiting l w) m = elim (ticket_wait_pass tid l w m.gate) [
  | none ↦ m
  | some g ↦ record m { gate = g; pc = update m.pc tid (inside l) }
]
move c tid (inside l) m =
    let (lv, g) = leave_begin c.mode tid l m.gate in
    record m { gate = g; pc = update m.pc tid (leaving lv); trace = (l, tid) ∷ m.trace }
move c tid (leaving lv) m = elim (leave_end c tid lv m.gate) [
  | err e ↦ record m { failed = some e }
  | ok g ↦ record m { gate = g; pc = update m.pc tid ready }
]

-- An error has ended the process.
unfoldable pub step : Config → ℕ → Machine → Machine
step c tid m = elim (m.failed) [ some _ ↦ m | none ↦ move c tid (m.pc tid) m ]

unfoldable pub initial : (ℕ → List ℕ) → Machine
initial prog = record { gate = cgate_init; pc = λ _. ready; todo = prog; trace = []; failed = none }

unfoldable pub run : Config → List ℕ → Machine → Machine
run c [] m = m
run c (tid ∷ sched) m = run c sched (step c tid m)

-- What a trace says: how often a lock was passed, by whom in order, and for a thread its locks and
-- its clock values in order. The clock of a passage is the number of those before it on its lock.
unfoldable pub count : ℕ → List Passage → ℕ
count l [] = 0
count l ((k, j) ∷ t) = if k == l then suc (count l t) else count l t

unfoldable pub order : ℕ → List Passage → List ℕ
order l [] = []
order l ((k, j) ∷ t) = if k == l then order l t ++ (j ∷ []) else order l t

unfoldable pub locks : ℕ → List Passage → List ℕ
locks i [] = []
locks i ((k, j) ∷ t) = if j == i then locks i t ++ (k ∷ []) else locks i t

unfoldable pub clocks : ℕ → List Passage → List ℕ
clocks i [] = []
clocks i ((k, j) ∷ t) = if j == i then clocks i t ++ ((count k t % 2 ^ 32) ∷ []) else clocks i t

-- What belongs to one thread.
pub record Local : Type 0 where
  pub place : Pc
  pub nest : ℕ
  pub fd : ReompFd
  pub rest : List ℕ
  pub done : List ℕ
  pub made : List ℕ

abbrev pub local : Machine → ℕ → Local
local m i = record {
  place = m.pc i;
  nest = m.gate.nest_num i;
  fd = m.gate.fds i;
  rest = m.todo i;
  done = locks i m.trace;
  made = clocks i m.trace;
}
