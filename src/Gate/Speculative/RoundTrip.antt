-- ===== src/Gate/Speculative/RoundTrip.antt =====
-- A record run of the speculative gate, and its replay (src/reomp/reomp_gate_clock.cpp).
use re_omp_llvm.Common.{
  ℕ, ◌^◌, ◌<◌, ◌≡◌, refl, sym, ap, subst, ◌∙◌, Option, List, [], ◌++◌, length, append-nil, arith,
}
use re_omp_llvm.Gate.File.Transfer.{Logs}
use re_omp_llvm.Gate.Clock.Record.{rec_config}
use re_omp_llvm.Gate.Clock.Replay.{replay_config, Recorded, run-Inv, initial-Inv}
use re_omp_llvm.Gate.Clock.Machine.{
  Pc, ready, waiting, inside, leaving, Machine, initial, run, locks, clocks, order,
}
use re_omp_llvm.Gate.Clock.Order.{file_words, Logs-words, Finished-order}
use re_omp_llvm.Gate.Speculative.{outside, within, Speculation, speculate_run, speculation}
use re_omp_llvm.Gate.Speculative.Replay.{seen_as, speculative_replay, place_of}
use re_omp_llvm.Gate.Speculative.Record.{speculated-Inv, Stands, thread_of}

abbrev pub Over : Speculation → Type 0
Over m = (i : ℕ) → (m.place i ≡ outside) × (m.todo i ≡ [])

-- what a run leaves on disk
abbrev pub files_of : Speculation → ℕ → Option (List ℕ)
files_of m i = file_words (m.gate.gate.fds i).fd

place_of-ready : (p : Pc) → place_of p ≡ outside → p ≡ ready
place_of-ready ready e = refl
place_of-ready (waiting l w) e = absurd cc
place_of-ready (inside l) e = absurd cc
place_of-ready (leaving lv) e = absurd cc

module _ (disk : ℕ → Option (List ℕ)) (prog : ℕ → List ℕ) (sched : List ℕ)
    (few : length sched < 2 ^ 32) where
  abbrev pub speculated : Speculation
  speculated = speculate_run (rec_config disk) sched (speculation prog)

  -- No two threads are inside one lock of the speculative gate in record mode, under any schedule of
  -- fewer than 2 ^ 32 steps.
  pub speculative_exclusion :
      (i j l : ℕ) → speculated.place i ≡ within l → speculated.place j ≡ within l → i ≡ j
  speculative_exclusion i j l hi hj =
      let inv = speculated-Inv disk prog sched few in
      ground (arith, inv.turn i l, inv.turn j l, inv.distinct i j l, hi, hj)

  thread-Over :
      Over speculated
      → (i : ℕ)
      → Logs (speculated.gate.gate.fds i).fd (clocks i speculated.trace)
        × (locks i speculated.trace ++ speculated.todo i ≡ prog i)
  thread-Over over i =
      subst (Stands (prog i) (thread_of speculated i)) (over i).0
        ((speculated-Inv disk prog sched few).thread i)

  speculated-Recorded : Over speculated → Recorded speculated.trace (files_of speculated)
  speculated-Recorded over i =
      Logs-words (speculated.gate.gate.fds i).fd (clocks i speculated.trace) (thread-Over over i).0

  speculated_program : Over speculated → (i : ℕ) → prog i ≡ locks i speculated.trace
  speculated_program over i =
      sym (thread-Over over i).1
      ∙ ap (λ ls. locks i speculated.trace ++ ls) (over i).1
      ∙ append-nil (locks i speculated.trace)

  -- A record run through the speculative gate that is over, of fewer than 2 ^ 32 steps, has left files
  -- from which a finished replay through the speculative gate passes every lock in the order of the
  -- record run, whatever the two schedules.
  pub speculative_replayed :
      (sched' : List ℕ)
      → let replayed =
          speculate_run (replay_config (files_of speculated)) sched' (speculation prog) in
        Over speculated
        → Over replayed
        → (l : ℕ) → order l replayed.trace ≡ order l speculated.trace
  speculative_replayed sched' over over' l =
      ap (λ m. order l m.trace) (speculative_replay (files_of speculated) prog sched')
      ∙ Finished-order speculated.trace (files_of speculated)
          (run (replay_config (files_of speculated)) sched' (initial prog))
          (run-Inv speculated.trace (files_of speculated)
            (omega (arith, (speculated-Inv disk prog sched few).small, few)) sched' (initial prog)
            (initial-Inv speculated.trace (files_of speculated) prog (speculated-Recorded over)
              (speculated_program over)))
          (λ i. (
            place_of-ready (r.pc i) (ap (λ m. m.place i) (sym same) ∙ (over' i).0),
            ap (λ m. m.todo i) (sym same) ∙ (over' i).1,
          ))
          l
    where
      r : Machine
      r = run (replay_config (files_of speculated)) sched' (initial prog)

      same :
          speculate_run (replay_config (files_of speculated)) sched' (speculation prog)
          ≡ seen_as (λ i. 0) r
      same = speculative_replay (files_of speculated) prog sched'
