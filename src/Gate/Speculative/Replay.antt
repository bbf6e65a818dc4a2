-- ===== src/Gate/Speculative/Replay.antt =====
-- The replay mode of the speculative gate beside that of the clock gate (reomp_scgate_in and
-- reomp_scgate_out of src/reomp/reomp_gate_clock.cpp call reomp_cgate_ticket_wait and
-- reomp_cgate_leave).
use mathlib.Core.Path.{fun_ext}
use re_omp_llvm.Common.{ℕ, ◌≡◌, refl, ap, ◌∙◌, Option, none, some, List, [], ◌∷◌, update, arith}
use re_omp_llvm.Gate.Defs.{replaying, Error, Result, ok, err}
use re_omp_llvm.Gate.Clock.{
  Config, Cgate, Wait, ticket_wait_begin, ticket_wait_pass, leave_begin, leave_end,
}
use re_omp_llvm.Gate.Clock.Replay.{replay_config}
use re_omp_llvm.Gate.Clock.Machine.{
  Pc, ready, waiting, inside, leaving, Machine, start, move, step, initial, run,
}
use re_omp_llvm.Gate.Speculative.{
  Scgate, replay_entry, replay_exit, Place, outside, entering, within, exiting, Speculation,
  scgate_draw, scgate_pass, scgate_tick, scgate_log, drew, passed, wrote, next_passage, speculate,
  unless_failed, speculate_step, speculate_run, speculation, entry_of, with_gate, logged_in,
}

abbrev pub place_of : Pc → Place
place_of ready = outside
place_of (waiting l w) = entering l (replay_entry w)
place_of (inside l) = within l
place_of (leaving lv) = exiting (replay_exit lv)

-- The threads of the clock gate, as threads of the speculative gate with these tickets.
abbrev pub seen_as : (ℕ → ℕ) → Machine → Speculation
seen_as tickets m = record {
  gate = record { gate = m.gate; speculative_clock = tickets };
  place = λ i. place_of (m.pc i);
  todo = m.todo;
  trace = m.trace;
  failed = m.failed;
}

place_of-update :
    (pc : ℕ → Pc) (tid : ℕ) (p : Pc)
    → update (λ i. place_of (pc i)) tid (place_of p) ≡ (λ i. place_of (update pc tid p i))
place_of-update pc tid p = fun_ext (λ i. ground arith)

module _ (disk : ℕ → Option (List ℕ)) (tickets : ℕ → ℕ) (tid : ℕ) (m : Machine) where
  abbrev config : Config
  config = replay_config disk

  abbrev here : Scgate
  here = (seen_as tickets m).gate

  -- Each kind of step leads to states that correspond.
  begun_as :
      (l : ℕ) (ls : List ℕ) (r : Result (Wait × Cgate))
      → drew tid l ls (seen_as tickets m) (entry_of here r)
        ≡ seen_as tickets (elim r [
          | err e ↦ record m { failed = some e }
          | ok (w, g) ↦ record m {
            gate = g;
            pc = update m.pc tid (waiting l w);
            todo = update m.todo tid ls;
          }
        ])
  begun_as l ls (err e) = refl
  begun_as l ls (ok (w, g)) =
      ap
        (λ f. record {
          gate = record { gate = g; speculative_clock = tickets };
          place = f;
          todo = update m.todo tid ls;
          trace = m.trace;
          failed = m.failed;
        })
        (place_of-update m.pc tid (waiting l w))

  passed_as :
      (l : ℕ) (o : Option Cgate)
      → passed tid l (seen_as tickets m) (with_gate here o)
        ≡ seen_as tickets
            (elim o [ none ↦ m | some g ↦ record m { gate = g; pc = update m.pc tid (inside l) } ])
  passed_as l none = refl
  passed_as l (some g) =
      ap
        (λ f. record {
          gate = record { gate = g; speculative_clock = tickets };
          place = f;
          todo = m.todo;
          trace = m.trace;
          failed = m.failed;
        })
        (place_of-update m.pc tid (inside l))

  wrote_as :
      (r : Result Cgate)
      → wrote tid (seen_as tickets m) (logged_in here r)
        ≡ seen_as tickets (elim r [
          | err e ↦ record m { failed = some e }
          | ok g ↦ record m { gate = g; pc = update m.pc tid ready }
        ])
  wrote_as (err e) = refl
  wrote_as (ok g) =
      ap
        (λ f. record {
          gate = record { gate = g; speculative_clock = tickets };
          place = f;
          todo = m.todo;
          trace = m.trace;
          failed = m.failed;
        })
        (place_of-update m.pc tid ready)

  begin_as :
      (ls : List ℕ)
      → next_passage config tid ls (seen_as tickets m) ≡ seen_as tickets (start config tid ls m)
  unfolding next_passage scgate_draw start
  begin_as [] = refl
  begin_as (l ∷ ls) = begun_as l ls (ticket_wait_begin config tid m.gate)

  speculate-seen_as :
      (p : Pc)
      → speculate config tid (place_of p) (seen_as tickets m)
        ≡ seen_as tickets (move config tid p m)
  unfolding speculate move scgate_pass scgate_tick scgate_log
  speculate-seen_as ready = begin_as (m.todo tid)
  speculate-seen_as (waiting l w) = passed_as l (ticket_wait_pass tid l w m.gate)
  speculate-seen_as (inside l) =
      let (lv, g) = leave_begin replaying tid l m.gate in
      ap
        (λ f. record {
          gate = record { gate = g; speculative_clock = tickets };
          place = f;
          todo = m.todo;
          trace = (l, tid) ∷ m.trace;
          failed = m.failed;
        })
        (place_of-update m.pc tid (leaving lv))
  speculate-seen_as (leaving lv) = wrote_as (leave_end config tid lv m.gate)

  speculate_step-seen_as :
      speculate_step config tid (seen_as tickets m) ≡ seen_as tickets (step config tid m)
  unfolding speculate_step step
  speculate_step-seen_as = by_failed m.failed refl
    where
      by_failed :
          (f : Option Error)
          → m.failed ≡ f
          → unless_failed f
              (seen_as tickets m)
              (speculate config tid (place_of (m.pc tid)) (seen_as tickets m))
            ≡ seen_as tickets (elim f [ some e ↦ m | none ↦ move config tid (m.pc tid) m ])
      by_failed none e = speculate-seen_as (m.pc tid)
      by_failed (some x) e = refl

run-seen_as :
    (disk : ℕ → Option (List ℕ)) (tickets : ℕ → ℕ) (sched : List ℕ) (m : Machine)
    → speculate_run (replay_config disk) sched (seen_as tickets m)
      ≡ seen_as tickets (run (replay_config disk) sched m)
unfolding speculate_run run
run-seen_as disk tickets [] m = refl
run-seen_as disk tickets (tid ∷ sched) m =
    ap (speculate_run (replay_config disk) sched) (speculate_step-seen_as disk tickets tid m)
    ∙ run-seen_as disk tickets sched (step (replay_config disk) tid m)

-- A replay through the speculative gate is the replay through the clock gate: from any record files and
-- under any schedule, the threads stand at the same places and have passed the same locks in the same
-- order, with the same error if there is one.
pub speculative_replay :
    (disk : ℕ → Option (List ℕ)) (prog : ℕ → List ℕ) (sched : List ℕ)
    → speculate_run (replay_config disk) sched (speculation prog)
      ≡ seen_as (λ i. 0) (run (replay_config disk) sched (initial prog))
unfolding speculation initial
speculative_replay disk prog sched = run-seen_as disk (λ i. 0) sched (initial prog)
