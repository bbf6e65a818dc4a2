-- ===== src/Gate/Speculative/Tests.antt =====
-- Two threads at the speculative gate, recorded and replayed, and the theorems about them at those.
use re_omp_llvm.Common.{
  ℕ, ◌≡◌, refl, Option, none, List, [], ◌∷◌, zero, suc, arith, length, ◌<◌, ◌^◌,
}
use re_omp_llvm.Gate.Clock.{
  Config, cgate_init, ticket_wait_begin, ticket_wait_pass, leave_begin, leave_end,
  record_ticket_number,
}
use re_omp_llvm.Gate.Clock.Record.{rec_config}
use re_omp_llvm.Gate.Clock.Replay.{replay_config}
use re_omp_llvm.Gate.Clock.Machine.{order}
use re_omp_llvm.Gate.File.{fread, fwrite, put_words}
use re_omp_llvm.Gate.Speculative.{
  Speculation, speculate_run, speculation, speculate_step, speculate, scgate_draw, scgate_pass,
  scgate_tick, scgate_log, next_passage,
}
use re_omp_llvm.Gate.Speculative.Others.{speculate_run_other}
use re_omp_llvm.Gate.Speculative.RoundTrip.{
  Over, files_of, speculated, speculative_exclusion, speculative_replayed,
}

-- thread 0 passes locks 0 and 1, thread 1 passes lock 0
abbrev program : ℕ → List ℕ
program zero = 0 ∷ 1 ∷ []
program (suc zero) = 0 ∷ []
program (suc (suc _)) = []

abbrev nothing_recorded : ℕ → Option (List ℕ)
nothing_recorded _ = none

-- thread 1 draws the first ticket of lock 0
abbrev one_first : List ℕ
one_first = 1 ∷ 0 ∷ 0 ∷ 1 ∷ 1 ∷ 0 ∷ 1 ∷ 0 ∷ 0 ∷ 0 ∷ 0 ∷ 0 ∷ 0 ∷ []

abbrev zero_first : List ℕ
zero_first = 0 ∷ 0 ∷ 0 ∷ 1 ∷ 1 ∷ 0 ∷ 1 ∷ 0 ∷ 1 ∷ 0 ∷ 0 ∷ 0 ∷ 0 ∷ 0 ∷ 0 ∷ []

abbrev few : length one_first < 2 ^ 32
few = omega arith

-- A schedule runs where the steps and the file operations compute.
test_speculation : Config → List ℕ → Speculation → Speculation
unfolding speculate_run speculate_step speculate next_passage scgate_draw scgate_pass scgate_tick
    scgate_log speculation ticket_wait_begin cgate_init ticket_wait_pass leave_begin leave_end
    record_ticket_number fwrite fread put_words
test_speculation = speculate_run

speculated_trace :
    (speculated nothing_recorded program one_first few).trace ≡ (1, 0) ∷ (0, 0) ∷ (0, 1) ∷ []
unfolding test_speculation
speculated_trace = refl

abbrev again : Speculation
again =
    speculate_run (replay_config (files_of (speculated nothing_recorded program one_first few)))
      zero_first (speculation program)

over : Over (speculated nothing_recorded program one_first few)
unfolding test_speculation
over zero = (refl, refl)
over (suc zero) = (refl, refl)
over (suc (suc i)) =
    speculate_run_other (rec_config nothing_recorded) 2 (suc (suc i)) one_first
      (speculation program) (omega arith) (omega arith)

Over-again : Over again
unfolding test_speculation
Over-again zero = (refl, refl)
Over-again (suc zero) = (refl, refl)
Over-again (suc (suc i)) =
    speculate_run_other
      (replay_config (files_of (speculated nothing_recorded program one_first few))) 2 (suc (suc i))
      zero_first (speculation program) (omega arith) (omega arith)

speculative_replayed_example :
    order 0 again.trace ≡ order 0 (speculated nothing_recorded program one_first few).trace
speculative_replayed_example =
    speculative_replayed nothing_recorded program one_first few zero_first over Over-again 0

speculative_exclusion_example : ◌≡◌ {A = ℕ} 1 1
unfolding test_speculation
speculative_exclusion_example =
    speculative_exclusion nothing_recorded program (1 ∷ 0 ∷ 0 ∷ 1 ∷ []) (omega arith) 1 1 0 refl
      refl
