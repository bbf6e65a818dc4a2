-- ===== src/Gate/Clock/Machine/Step.antt =====
-- Two facts for invariants of the machine: what a step of one thread is, and how to show a property
-- of every thread after it.
use native.Mathlib.Decide.{ℕ_discrete}
use re_omp_llvm.Common.{ℕ, ◌<◌, ◌≤◌, ◌≡◌, ◌≢◌, refl, ◌∙◌, sym, subst, none, List, [], ◌∷◌, arith}
use re_omp_llvm.Gate.Clock.{Config}
use re_omp_llvm.Gate.Clock.Machine.{
  Pc, ready, waiting, inside, leaving, Machine, start, move, step, run,
}

-- To show a property of every thread after a step of thread `tid`.
pub each_thread {ℓ κ} :
    {A : Type ℓ} (P : ℕ → A → Type κ) (f g : ℕ → A) (tid : ℕ)
    → ((j : ℕ) → tid ≢ j → g j ≡ f j)
    → P tid (g tid)
    → ((j : ℕ) → P j (f j))
    → (j : ℕ) → P j (g j)
each_thread P f g tid others own all j = elim (ℕ_discrete tid j) [
  | yes e ↦ subst (λ k. P k (g k)) e own
  | no ne ↦ subst (P j) (sym (others j ne)) (all j)
]

pub step_alive :
    (c : Config) (tid : ℕ) (m : Machine) → m.failed ≡ none → step c tid m ≡ move c tid (m.pc tid) m
unfolding step
step_alive c tid m h = ground arith

-- A thread that the schedule does not name stays where it is.
move_other :
    (c : Config) (tid i : ℕ) (p : Pc) (m : Machine)
    → tid ≢ i
    → ((move c tid p m).pc i ≡ m.pc i) × ((move c tid p m).todo i ≡ m.todo i)
unfolding move start
move_other c tid i ready m ne = start_other (m.todo tid)
  where
    start_other :
        (ls : List ℕ) → ((start c tid ls m).pc i ≡ m.pc i) × ((start c tid ls m).todo i ≡ m.todo i)
    start_other [] = (refl, refl)
    start_other (l ∷ ls) = (ground arith, ground arith)
move_other c tid i (waiting l w) m ne = (ground arith, ground arith)
move_other c tid i (inside l) m ne = (ground arith, ground arith)
move_other c tid i (leaving lv) m ne = (ground arith, ground arith)

step_other :
    (c : Config) (tid i : ℕ) (m : Machine)
    → tid ≢ i
    → ((step c tid m).pc i ≡ m.pc i) × ((step c tid m).todo i ≡ m.todo i)
unfolding step
step_other c tid i m ne = (
  ground (arith, move_other c tid i (m.pc tid) m),
  ground (arith, move_other c tid i (m.pc tid) m),
)

abbrev pub Below : ℕ → List ℕ → Type 0
Below n [] = Unit {0}
Below n (tid ∷ sched) = (tid < n) × Below n sched

pub run_other :
    (c : Config) (n i : ℕ) (sched : List ℕ) (m : Machine)
    → Below n sched
    → n ≤ i
    → ((run c sched m).pc i ≡ m.pc i) × ((run c sched m).todo i ≡ m.todo i)
unfolding run
run_other c n i [] m b h = (refl, refl)
run_other c n i (tid ∷ sched) m b h =
    let (p, q) = run_other c n i sched (step c tid m) b.1 h in
    let (p', q') = step_other c tid i m (omega (arith, b.0)) in (p ∙ p', q ∙ q')
