-- ===== src/Gate/Clock/Record.antt =====
-- The record mode of the clock gate, under every schedule: who is inside, and what the files hold.
mod Moves
pub use Moves.{rec_config}
use re_omp_llvm.Common.{
  ℕ, suc, ◌⊎◌, ◌+◌, ◌%◌, ◌^◌, ◌≡◌, refl, sym, ◌≢◌, Option, none, some, List, [], ◌∷◌, ◌++◌, update,
  ◌==◌, if◌then◌else◌, arith, subst, update_self, update_ne, append_assoc, length-append, ap, ◌∙◌,
  inl, inr,
}
use re_omp_llvm.Gate.Defs.{recording, Error, ok, err, incr32}
use re_omp_llvm.Gate.File.{ReompFd}
use re_omp_llvm.Gate.File.Transfer.{Logs, fwrite_end, written}
use re_omp_llvm.Gate.Clock.{
  Config, Cgate, cgate_init, Wait, locking, Leave, ticket, ticket_wait_begin, ticket_wait_pass,
  leave_begin, leave_end,
}
use re_omp_llvm.Gate.Clock.Machine.Step.{step_alive}
use re_omp_llvm.Gate.Clock.Record.Moves.{
  At, Inv, rec_config, start_eq, pass_eq, release_eq, log_eq, invariant_here, asking-Inv,
  entered-Inv, released-Inv, logged-Inv,
}
use re_omp_llvm.Gate.Clock.Machine.{
  Pc, ready, waiting, inside, leaving, Machine, start, move, step, initial, run, count, locks,
  clocks, Local, local,
}

module _ (disk : ℕ → Option (List ℕ)) (prog : ℕ → List ℕ) (tid : ℕ) (m : Machine) where
  start-Inv :
      (ls : List ℕ)
      → m.pc tid ≡ ready
      → m.todo tid ≡ ls
      → Inv prog m
      → Inv prog (start (rec_config disk) tid ls m)
  unfolding start
  start-Inv [] at e inv = inv
  start-Inv (l ∷ ls) at e inv =
      subst (Inv prog) (sym (start_eq disk tid m l ls (invariant_here prog tid m inv ready at).0))
        (asking-Inv prog tid m inv l ls at e)

  move-Inv : (p : Pc) → m.pc tid ≡ p → Inv prog m → Inv prog (move (rec_config disk) tid p m)
  move-Inv ready at inv = unfold move in start-Inv (m.todo tid) at refl inv
  move-Inv (waiting l w) at inv =
      let (e, n, f, d) = invariant_here prog tid m inv (waiting l w) at in
      rw e (elim (pass_eq disk tid m l) [
        | inl stays ↦ subst (Inv prog) (sym stays) inv
        | inr (free, goes) ↦
            subst (Inv prog) (sym goes) (entered-Inv prog tid m inv l (at ∙ ap (waiting l) e) free)
      ])
  move-Inv (inside l) at inv =
      subst (Inv prog)
        (sym (release_eq disk tid m l (invariant_here prog tid m inv (inside l) at).0))
        (released-Inv prog tid m inv l at)
  move-Inv (leaving lv) at inv =
      let (ws, v, e, n, f, k, d) = invariant_here prog tid m inv (leaving lv) at in
      rw e (
        subst (Inv prog) (sym (log_eq disk tid m ws v f))
          (logged-Inv prog tid m inv ws v (at ∙ ap leaving e) n f k d))

  step-Inv : Inv prog m → Inv prog (step (rec_config disk) tid m)
  step-Inv inv =
      subst (Inv prog) (sym (step_alive (rec_config disk) tid m inv.alive))
        (move-Inv (m.pc tid) refl inv)

initial-Inv : (prog : ℕ → List ℕ) → Inv prog (initial prog)
unfolding initial cgate_init count locks clocks
initial-Inv prog = record {
  alive = refl;
  thread = λ i. (refl, refl, refl);
  owner = λ i l h. cc;
  clock = λ l. refl;
}

run-Inv :
    (disk : ℕ → Option (List ℕ)) (prog : ℕ → List ℕ) (sched : List ℕ) (m : Machine)
    → Inv prog m
    → Inv prog (run (rec_config disk) sched m)
unfolding run
run-Inv disk prog [] m inv = inv
run-Inv disk prog (tid ∷ sched) m inv =
    run-Inv disk prog sched (step (rec_config disk) tid m) (step-Inv disk prog tid m inv)

-- No two threads are inside one lock in record mode, whatever the schedule.
pub record_exclusion :
    (disk : ℕ → Option (List ℕ)) (prog : ℕ → List ℕ) (sched : List ℕ) (i j l : ℕ)
    → (run (rec_config disk) sched (initial prog)).pc i ≡ inside l
    → (run (rec_config disk) sched (initial prog)).pc j ≡ inside l
    → i ≡ j
record_exclusion disk prog sched i j l hi hj =
    let inv = run-Inv disk prog sched (initial prog) (initial-Inv prog) in
    ground (arith, inv.owner i l hi, inv.owner j l hj)

-- Under every schedule the record run meets no error, the file of a thread that is between two
-- passages holds the clock values of its passages in order, and its passages are the part of its
-- program that it has run.
pub record_files :
    (disk : ℕ → Option (List ℕ)) (prog : ℕ → List ℕ) (sched : List ℕ) (i : ℕ)
    → let m = run (rec_config disk) sched (initial prog) in
      m.pc i ≡ ready
      → (m.failed ≡ none)
        × Logs (m.gate.fds i).fd (clocks i m.trace)
        × (locks i m.trace ++ m.todo i ≡ prog i)
record_files disk prog sched i at =
    let m = run (rec_config disk) sched (initial prog) in
    let inv = run-Inv disk prog sched (initial prog) (initial-Inv prog) in
    let (n, f, d) = invariant_here prog i m inv ready at in (inv.alive, f, d)
