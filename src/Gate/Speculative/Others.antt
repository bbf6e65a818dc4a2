-- ===== src/Gate/Speculative/Others.antt =====
-- A thread that the schedule does not name stays where it is (src/reomp/reomp_gate_clock.cpp).
use re_omp_llvm.Common.{ℕ, ◌≤◌, ◌≡◌, ◌≢◌, refl, ◌∙◌, Option, none, some, List, [], ◌∷◌, arith}
use re_omp_llvm.Gate.Defs.{Error, Result, ok, err}
use re_omp_llvm.Gate.Clock.{Config}
use re_omp_llvm.Gate.Clock.Machine.Step.{Below}
use re_omp_llvm.Gate.Speculative.{
  Scgate, Entry, Place, outside, entering, within, exiting, Speculation, scgate_draw, scgate_pass,
  scgate_log, drew, passed, wrote, next_passage, speculate, unless_failed, speculate_step,
  speculate_run,
}

-- thread `i` stands in `n` as it stood in `m`
abbrev Same : ℕ → Speculation → Speculation → Type 0
Same i m n = (n.place i ≡ m.place i) × (n.todo i ≡ m.todo i)

module _ (c : Config) (tid i : ℕ) (ne : tid ≢ i) (m : Speculation) where
  drew-Same : (l : ℕ) (ls : List ℕ) (r : Result (Entry × Scgate)) → Same i m (drew tid l ls m r)
  drew-Same l ls (err e) = (refl, refl)
  drew-Same l ls (ok (w, s)) = (ground arith, ground arith)

  next_passage-Same : (ls : List ℕ) → Same i m (next_passage c tid ls m)
  unfolding next_passage
  next_passage-Same [] = (refl, refl)
  next_passage-Same (l ∷ ls) = drew-Same l ls (scgate_draw c tid l m.gate)

  passed-Same : (l : ℕ) (o : Option Scgate) → Same i m (passed tid l m o)
  passed-Same l none = (refl, refl)
  passed-Same l (some s) = (ground arith, refl)

  wrote-Same : (r : Result Scgate) → Same i m (wrote tid m r)
  wrote-Same (err e) = (refl, refl)
  wrote-Same (ok s) = (ground arith, refl)

  speculate-Same : (p : Place) → Same i m (speculate c tid p m)
  unfolding speculate
  speculate-Same outside = next_passage-Same (m.todo tid)
  speculate-Same (entering l w) = passed-Same l (scgate_pass tid l w m.gate)
  speculate-Same (within l) = (ground arith, refl)
  speculate-Same (exiting x) = wrote-Same (scgate_log c tid x m.gate)

  speculate_step-Same : Same i m (speculate_step c tid m)
  unfolding speculate_step
  speculate_step-Same = by_failed m.failed
    where
      by_failed :
          (f : Option Error) → Same i m (unless_failed f m (speculate c tid (m.place tid) m))
      by_failed none = speculate-Same (m.place tid)
      by_failed (some e) = (refl, refl)

pub speculate_run_other :
    (c : Config) (n i : ℕ) (sched : List ℕ) (m : Speculation)
    → Below n sched
    → n ≤ i
    → ((speculate_run c sched m).place i ≡ m.place i)
      × ((speculate_run c sched m).todo i ≡ m.todo i)
unfolding speculate_run
speculate_run_other c n i [] m b h = (refl, refl)
speculate_run_other c n i (tid ∷ sched) m b h =
    let (p, q) = speculate_run_other c n i sched (speculate_step c tid m) b.1 h in
    let (p', q') = speculate_step-Same c tid i (omega (arith, b.0, h)) m in (p ∙ p', q ∙ q')
