-- ===== src/Gate/Clock/Tests.antt =====
-- Runs of the clock gate at concrete schedules, and the theorems about it at those.
use re_omp_llvm.Common.{
  ℕ, zero, suc, ◌<◌, ◌^◌, ◌≡◌, refl, Option, none, some, List, [], ◌∷◌, ◌++◌, take, length, arith,
}
use re_omp_llvm.Gate.Defs.{ok}
use re_omp_llvm.Gate.File.Transfer.{Logs}
use re_omp_llvm.Gate.File.{fwrite, fread, put_words}
use re_omp_llvm.Gate.Clock.{
  Config, Cgate, cgate_init, ticket_wait, leave, ticket_wait_begin, ticket_wait_pass, leave_begin,
  leave_end,
}
use re_omp_llvm.Gate.Clock.Nesting.{nested_passage}
use re_omp_llvm.Gate.Clock.Machine.{
  Machine, run, initial, count, order, clocks, locks, step, move, start,
}
use re_omp_llvm.Gate.Clock.Record.{rec_config, record_exclusion, record_files}
use re_omp_llvm.Gate.Clock.Machine.Step.{run_other}
use re_omp_llvm.Gate.Clock.Replay.{replay_config}
use re_omp_llvm.Gate.Clock.Order.{
  Finished, files, recorded, replayed, replay_order, replay_exclusion, replay_complete,
}

-- thread 0 passes locks 0 and 1, thread 1 passes lock 0
abbrev prog : ℕ → List ℕ
prog zero = 0 ∷ 1 ∷ []
prog (suc zero) = 0 ∷ []
prog (suc (suc _)) = []

abbrev no_files : ℕ → Option (List ℕ)
no_files _ = none

-- thread 1 is first on lock 0
abbrev sched : List ℕ
sched = 1 ∷ 1 ∷ 0 ∷ 0 ∷ 1 ∷ 0 ∷ 1 ∷ 0 ∷ 0 ∷ 0 ∷ 0 ∷ 0 ∷ 0 ∷ []

abbrev thread_first : List ℕ
thread_first = 0 ∷ 0 ∷ 0 ∷ 1 ∷ 1 ∷ 0 ∷ 1 ∷ 0 ∷ 1 ∷ 0 ∷ 0 ∷ 0 ∷ 0 ∷ 0 ∷ 0 ∷ []

-- A schedule runs where the steps of the machine and the file operations compute.
test_run : Config → List ℕ → Machine → Machine
unfolding run step move start initial ticket_wait_begin cgate_init ticket_wait_pass leave_begin
    leave_end fwrite fread put_words
test_run = run

recorded_trace : (recorded no_files prog sched).trace ≡ (1, 0) ∷ (0, 0) ∷ (0, 1) ∷ []
unfolding test_run
recorded_trace = refl

-- The replay is scheduled with thread 0 first, which waits for thread 1 on lock 0.
replayed_trace : (replayed no_files prog sched thread_first).trace ≡ (1, 0) ∷ (0, 0) ∷ (0, 1) ∷ []
unfolding test_run
replayed_trace = refl

over : Finished (recorded no_files prog sched)
unfolding test_run
over zero = (refl, refl)
over (suc zero) = (refl, refl)
over (suc (suc i)) =
    run_other (rec_config no_files) 2 (suc (suc i)) sched (initial prog) (omega arith) (omega arith)

over' : Finished (replayed no_files prog sched thread_first)
unfolding test_run
over' zero = (refl, refl)
over' (suc zero) = (refl, refl)
over' (suc (suc i)) =
    run_other (replay_config (files (recorded no_files prog sched))) 2 (suc (suc i)) thread_first
      (initial prog) (omega arith) (omega arith)

few : length (recorded no_files prog sched).trace < 2 ^ 32
unfolding test_run
few = omega arith

record_exclusion_example : ◌≡◌ {A = ℕ} 1 1
unfolding test_run
record_exclusion_example = record_exclusion no_files prog (1 ∷ 1 ∷ 0 ∷ 0 ∷ []) 1 1 0 refl refl

record_files_example :
    let m = recorded no_files prog sched in
    (m.failed ≡ none)
    × Logs (m.gate.fds 0).fd (clocks 0 m.trace)
    × (locks 0 m.trace ++ m.todo 0 ≡ prog 0)
record_files_example = record_files no_files prog sched 0 (over 0).0

replay_order_example :
    ((replayed no_files prog sched thread_first).failed ≡ none)
    × ((l : ℕ)
        → order l (replayed no_files prog sched thread_first).trace
          ≡ take
              (count l (replayed no_files prog sched thread_first).trace)
              (order l (recorded no_files prog sched).trace))
replay_order_example = replay_order no_files prog sched thread_first over few

replay_exclusion_example : ◌≡◌ {A = ℕ} 1 1
unfolding test_run
replay_exclusion_example =
    replay_exclusion no_files prog sched (0 ∷ 0 ∷ 1 ∷ 1 ∷ []) 1 1 0 over few refl refl

replay_complete_example :
    order 0 (replayed no_files prog sched thread_first).trace
    ≡ order 0 (recorded no_files prog sched).trace
replay_complete_example = replay_complete no_files prog sched thread_first over few over' 0

abbrev once_inside : Cgate
once_inside = record cgate_init { nest_num = λ _. 1 }

nested_passage_example :
    (g' : Cgate) × (ticket_wait (rec_config no_files) 3 5 once_inside ≡ ok (some g'))
    × (leave (rec_config no_files) 3 6 g' ≡ ok once_inside)
nested_passage_example =
    nested_passage (rec_config no_files) 3 5 6 once_inside (omega arith) (omega arith)
