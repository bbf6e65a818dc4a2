-- ===== src/Gate/Clock/Replay.antt =====
-- The replay mode of the clock gate (src/reomp/reomp_gate_clock.cpp), under every schedule: the
-- threads pass each lock in the order of the recorded trace.
mod Moves
pub use Moves.{Inv, replay_config}
use re_omp_llvm.Common.{
  ℕ, suc, ◌^◌, ◌<◌, ◌⊎◌, inl, inr, ◌≡◌, refl, sym, ap, ◌∙◌, Option, none, some, List, [], ◌∷◌, ◌++◌,
  take, length, get_elem?, arith, subst, append-nil,
}
use re_omp_llvm.Gate.File.{Stream, ReompFd}
use re_omp_llvm.Gate.File.Transfer.{Logs}
use re_omp_llvm.Gate.Clock.{Config, cgate_init, spinning, passed}
use re_omp_llvm.Gate.Clock.Machine.Step.{step_alive}
use re_omp_llvm.Gate.Clock.Machine.{
  Passage, Pc, ready, waiting, inside, leaving, Machine, start, move, step, initial, run, count,
  order, locks, clocks, local,
}
use re_omp_llvm.Gate.Clock.Record.{rec_config, record_files}
use Moves.{
  Inv, replay_config, pass_eq, release_eq, finish_eq, invariant_here, asking-Inv, entered-Inv,
  released-Inv, finished-Inv,
}

module _ (t : List Passage) (disk : ℕ → Option (List ℕ)) (few : length t < 2 ^ 32) (tid : ℕ)
    (m : Machine) where
  start-Inv :
      (ls : List ℕ)
      → m.pc tid ≡ ready
      → m.todo tid ≡ ls
      → Inv t disk m
      → Inv t disk (start (replay_config disk) tid ls m)
  unfolding start
  start-Inv [] at e inv = inv
  start-Inv (l ∷ ls) at e inv =
      let (f, c, goes, next) = asking-Inv t disk tid m inv l ls at e in
      subst (Inv t disk) (sym goes) next

  move-Inv : (p : Pc) → m.pc tid ≡ p → Inv t disk m → Inv t disk (move (replay_config disk) tid p m)
  move-Inv ready at inv = unfold move in start-Inv (m.todo tid) at refl inv
  move-Inv (waiting l w) at inv =
      let (c, e, n, hc, src, d) = invariant_here t disk tid m inv (waiting l w) at in
      rw e (elim (pass_eq disk tid m l c) [
        | inl stays ↦ subst (Inv t disk) (sym stays) inv
        | inr (now, goes) ↦
            subst (Inv t disk) (sym goes)
              (entered-Inv t disk tid m inv l c few (at ∙ ap (waiting l) e) now)
      ])
  move-Inv (inside l) at inv =
      subst (Inv t disk)
        (sym (release_eq disk tid m l (invariant_here t disk tid m inv (inside l) at).0))
        (released-Inv t disk tid m inv l few at)
  move-Inv (leaving lv) at inv =
      let (e, n, src, d) = invariant_here t disk tid m inv (leaving lv) at in
      rw e (
        subst (Inv t disk) (sym (finish_eq disk tid m))
          (finished-Inv t disk tid m inv (at ∙ ap leaving e)))

  step-Inv : Inv t disk m → Inv t disk (step (replay_config disk) tid m)
  step-Inv inv =
      subst (Inv t disk) (sym (step_alive (replay_config disk) tid m inv.alive))
        (move-Inv (m.pc tid) refl inv)

pub run-Inv :
    (t : List Passage) (disk : ℕ → Option (List ℕ))
    → length t < 2 ^ 32
    → (sched : List ℕ) (m : Machine) → Inv t disk m
    → Inv t disk (run (replay_config disk) sched m)
unfolding run
run-Inv t disk few [] m inv = inv
run-Inv t disk few (tid ∷ sched) m inv =
    run-Inv t disk few sched (step (replay_config disk) tid m) (step-Inv t disk few tid m inv)

-- The files of the disk hold the clock values of a trace.
abbrev pub Recorded : List Passage → (ℕ → Option (List ℕ)) → Type 0
Recorded t disk = (i : ℕ) → (clocks i t ≡ []) ⊎ (disk i ≡ some (clocks i t))

pub initial-Inv :
    (t : List Passage) (disk : ℕ → Option (List ℕ)) (prog : ℕ → List ℕ)
    → Recorded t disk
    → ((i : ℕ) → prog i ≡ locks i t)
    → Inv t disk (initial prog)
unfolding initial cgate_init count order locks clocks
initial-Inv t disk prog files same = record {
  alive = refl;
  thread = λ i. (refl, elim (files i) [ inl e ↦ inl e | inr e ↦ inr (e, refl) ], same i);
  turn = λ i l h. cc;
  prefix = λ l. refl;
  clock = λ l. refl;
}

-- A thread that has run its program has passed its recorded locks.
pub finished_parts :
    (t : List Passage) (disk : ℕ → Option (List ℕ)) (m : Machine)
    → Inv t disk m
    → (i : ℕ) → m.pc i ≡ ready
    → m.todo i ≡ []
    → locks i m.trace ≡ locks i t
finished_parts t disk m inv i at e =
    let (n, src, d) = invariant_here t disk i m inv ready at in
    sym (append-nil (locks i m.trace)) ∙ ap (λ ls. locks i m.trace ++ ls) (sym e) ∙ d
