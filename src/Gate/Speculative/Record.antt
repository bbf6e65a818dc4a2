-- ===== src/Gate/Speculative/Record.antt =====
-- The record mode of the speculative gate (src/reomp/reomp_gate_clock.cpp) under a schedule: its
-- invariant, and the steps that keep it.
use re_omp_llvm.Common.{
  ℕ, ◌+◌, ◌^◌, ◌<◌, ◌≤◌, ◌≡◌, ◌≢◌, refl, sym, ap, subst, ◌∙◌, Bool, true, false, Option, none, some,
  List, [], ◌∷◌, ◌++◌, update, update_self, append_assoc, length-append, ◌==◌, if◌then◌else◌, arith,
  Bool-cases, length, inl, inr,
}
use re_omp_llvm.Gate.File.{ReompFd}
use re_omp_llvm.Gate.File.Transfer.{Logs, fwrite_end, written}
use re_omp_llvm.Gate.Clock.Machine.Step.{each_thread}
use re_omp_llvm.Gate.Clock.Record.{rec_config}
use re_omp_llvm.Gate.Clock.Machine.{count, locks, clocks}
use re_omp_llvm.Gate.Speculative.{
  speculating, recording_exit, Place, outside, entering, within, exiting, Speculation, scgate_draw,
  scgate_pass, scgate_tick, scgate_log, passed, wrote, next_passage, speculate, unless_failed,
  speculate_step, speculate_run, speculation, draw, tick,
}

-- What belongs to one thread.
pub record Thread : Type 0 where
  pub at : Place
  pub speculative : ℕ
  pub fd : ReompFd
  pub rest : List ℕ
  pub done : List ℕ
  pub made : List ℕ

abbrev pub thread_of : Speculation → ℕ → Thread
thread_of m i = record {
  at = m.place i;
  speculative = m.gate.speculative_clock i;
  fd = m.gate.gate.fds i;
  rest = m.todo i;
  done = locks i m.trace;
  made = clocks i m.trace;
}

-- A thread between its steps: what its file holds, and its program as the locks passed so far and
-- those to come.
abbrev pub Stands : List ℕ → Thread → Place → Type 0
Stands prog t outside = Logs t.fd.fd t.made × (t.done ++ t.rest ≡ prog)
Stands prog t (entering l w) =
    (w ≡ speculating) × Logs t.fd.fd t.made × (t.done ++ l ∷ t.rest ≡ prog)
Stands prog t (within l) = Logs t.fd.fd t.made × (t.done ++ l ∷ t.rest ≡ prog)
Stands prog t (exiting x) =
    (ws : List ℕ) × (x ≡ recording_exit)
    × Logs t.fd.fd ws
    × (t.made ≡ ws ++ t.speculative ∷ [])
    × (t.done ++ t.rest ≡ prog)

-- the thread has a ticket for the lock
abbrev pub holds : Place → ℕ → Bool
holds outside l = false
holds (entering k w) l = k == l
holds (within k) l = k == l
holds (exiting x) l = false

abbrev pub is_within : Place → ℕ → Bool
is_within (within k) l = k == l
is_within _ l = false

-- The invariant after `n` steps.
pub record Inv (prog : ℕ → List ℕ) (n : ℕ) (m : Speculation) : Type 0 where
  pub alive : m.failed ≡ none
  pub thread : (i : ℕ) → Stands (prog i) (thread_of m i) (m.place i)
  pub clock : (l : ℕ) → m.gate.gate.current_clocks l ≡ count l m.trace
  pub small : length m.trace ≤ n
  pub tickets :
      (l : ℕ)
      → (count l m.trace ≤ m.gate.gate.scheduling_clocks l) × (m.gate.gate.scheduling_clocks l ≤ n)
  pub held :
      (i l : ℕ)
      → holds (m.place i) l ≡ true
      → (count l m.trace ≤ m.gate.speculative_clock i)
        × (m.gate.speculative_clock i < m.gate.gate.scheduling_clocks l)
  pub turn :
      (i l : ℕ) → is_within (m.place i) l ≡ true → m.gate.speculative_clock i ≡ count l m.trace
  pub distinct :
      (i j l : ℕ)
      → holds (m.place i) l ≡ true
      → holds (m.place j) l ≡ true
      → m.gate.speculative_clock i ≡ m.gate.speculative_clock j
      → i ≡ j

-- The four steps of a thread, as the states that they lead to.
abbrev pub drawn : ℕ → ℕ → List ℕ → Speculation → Speculation
drawn tid l ls m = record m {
  gate = draw tid l m.gate;
  place = update m.place tid (entering l speculating);
  todo = update m.todo tid ls;
}

abbrev pub let_in : ℕ → ℕ → Speculation → Speculation
let_in tid l m = record m { place = update m.place tid (within l) }

abbrev pub let_out : ℕ → ℕ → Speculation → Speculation
let_out tid l m = record m {
  gate = tick l m.gate;
  place = update m.place tid (exiting recording_exit);
  trace = (l, tid) ∷ m.trace;
}

abbrev pub logged : ℕ → List ℕ → Speculation → Speculation
logged tid ws m = record m {
  gate = record (m.gate) {
    gate = record (m.gate.gate) {
      fds =
          update m.gate.gate.fds tid
            (written (m.gate.gate.fds tid) ws (m.gate.speculative_clock tid ∷ []));
    };
  };
  place = update m.place tid outside;
}

module _ (prog : ℕ → List ℕ) (n tid : ℕ) (m : Speculation) (inv : Inv prog n m)
    (few : n + 1 < 2 ^ 32) where
  Stands-here : (p : Place) → m.place tid ≡ p → Stands (prog tid) (thread_of m tid) p
  Stands-here p e = subst (Stands (prog tid) (thread_of m tid)) e (inv.thread tid)

  every :
      (t : Speculation)
      → ((j : ℕ) → tid ≢ j → thread_of t j ≡ thread_of m j)
      → Stands (prog tid) (thread_of t tid) (t.place tid)
      → (i : ℕ) → Stands (prog i) (thread_of t i) (t.place i)
  every t others own =
      each_thread (λ j x. Stands (prog j) x x.at) (thread_of m) (thread_of t) tid others own
        inv.thread

  drawn-Inv :
      (l : ℕ) (ls : List ℕ)
      → m.place tid ≡ outside
      → m.todo tid ≡ l ∷ ls
      → Inv prog (n + 1) (drawn tid l ls m)
  drawn-Inv l ls at e = record {
    alive = inv.alive;
    thread =
        every (drawn tid l ls m) (λ j ne. ground arith)
          (subst (Stands (prog tid) (thread_of (drawn tid l ls m) tid))
            (sym (update_self m.place tid (entering l speculating)))
            (refl, (Stands-here outside at).0, ground (arith, (Stands-here outside at).1)));
    clock = inv.clock;
    small = omega (arith, inv.small);
    tickets = λ k. ground (arith, inv.tickets k, few);
    held = λ i k h. ground (arith, inv.tickets k, inv.held i k, few);
    turn = λ i k h. ground (arith, inv.turn i k, at);
    distinct = λ i j k h g e. ground (arith, inv.distinct i j k, inv.held i k, inv.held j k);
  }

  let_in-Inv :
      (l : ℕ)
      → m.place tid ≡ entering l speculating
      → m.gate.speculative_clock tid ≡ m.gate.gate.current_clocks l
      → Inv prog (n + 1) (let_in tid l m)
  let_in-Inv l at e = record {
    alive = inv.alive;
    thread =
        every (let_in tid l m) (λ j ne. ground arith)
          (subst (Stands (prog tid) (thread_of (let_in tid l m) tid))
            (sym (update_self m.place tid (within l)))
            (let (w, f, d) = Stands-here (entering l speculating) at in (f, d)));
    clock = inv.clock;
    small = omega (arith, inv.small);
    tickets = λ k. ground (arith, inv.tickets k);
    held = λ i k h. ground (arith, inv.held i k, at);
    turn = λ i k h. ground (arith, inv.turn i k, inv.clock k, e);
    distinct = λ i j k h g e. ground (arith, inv.distinct i j k, at);
  }

  let_out-Inv : (l : ℕ) → m.place tid ≡ within l → Inv prog (n + 1) (let_out tid l m)
  unfolding count locks clocks
  let_out-Inv l at = record {
    alive = inv.alive;
    thread =
        every (let_out tid l m) (λ j ne. ground arith)
          (subst (Stands (prog tid) (thread_of (let_out tid l m) tid))
            (sym (update_self m.place tid (exiting recording_exit)))
            (
              clocks tid m.trace,
              refl,
              (Stands-here (within l) at).0,
              ground (arith, inv.turn tid l, inv.held tid l, inv.tickets l, few, at),
              ground (
                arith,
                (Stands-here (within l) at).1,
                append_assoc (locks tid m.trace) (l ∷ []) (m.todo tid),
              ),
            ));
    clock = λ k. ground (arith, inv.clock k, inv.tickets k, few);
    small = omega (arith, inv.small);
    tickets = λ k. ground (arith, inv.tickets k, inv.held tid l, at);
    held = λ i k h. ground (arith, inv.held i k, inv.turn tid l, inv.distinct i tid l, at);
    turn = λ i k h. ground (arith, inv.turn i k, inv.turn tid l, inv.distinct i tid l, at);
    distinct = λ i j k h g e. ground (arith, inv.distinct i j k, at);
  }

  logged-Inv :
      (ws : List ℕ)
      → m.place tid ≡ exiting recording_exit
      → Logs (m.gate.gate.fds tid).fd ws
      → clocks tid m.trace ≡ ws ++ m.gate.speculative_clock tid ∷ []
      → locks tid m.trace ++ m.todo tid ≡ prog tid
      → Inv prog (n + 1) (logged tid ws m)
  logged-Inv ws at f k d = record {
    alive = inv.alive;
    thread =
        every (logged tid ws m) (λ j ne. ground arith)
          (subst (Stands (prog tid) (thread_of (logged tid ws m) tid))
            (sym (update_self m.place tid outside))
            (
              subst (λ f. Logs f.fd (clocks tid m.trace))
                  (sym (
                    update_self m.gate.gate.fds tid
                      (written (m.gate.gate.fds tid) ws (m.gate.speculative_clock tid ∷ []))))
                  (sym k, rw k (sym (length-append ws (m.gate.speculative_clock tid ∷ [])))),
              d,
            ));
    clock = inv.clock;
    small = omega (arith, inv.small);
    tickets = λ k. ground (arith, inv.tickets k);
    held = λ i k h. ground (arith, inv.held i k, at);
    turn = λ i k h. ground (arith, inv.turn i k, at);
    distinct = λ i j k h g e. ground (arith, inv.distinct i j k, at);
  }

module _ (disk : ℕ → Option (List ℕ)) (prog : ℕ → List ℕ) (n tid : ℕ) (m : Speculation)
    (inv : Inv prog n m) (few : n + 1 < 2 ^ 32) where
  later-Inv : Inv prog (n + 1) m
  later-Inv = record {
    alive = inv.alive;
    thread = inv.thread;
    clock = inv.clock;
    small = omega (arith, inv.small);
    tickets = λ k. ground (arith, inv.tickets k);
    held = inv.held;
    turn = inv.turn;
    distinct = inv.distinct;
  }

  next_passage-Inv :
      (ls : List ℕ)
      → m.place tid ≡ outside
      → m.todo tid ≡ ls
      → Inv prog (n + 1) (next_passage (rec_config disk) tid ls m)
  unfolding next_passage scgate_draw
  next_passage-Inv [] at e = later-Inv
  next_passage-Inv (l ∷ ls) at e = drawn-Inv prog n tid m inv few l ls at e

  passed-Inv :
      (l : ℕ)
      → m.place tid ≡ entering l speculating
      → Inv prog (n + 1) (passed tid l m (scgate_pass tid l speculating m.gate))
  unfolding scgate_pass
  passed-Inv l at =
      elim (Bool-cases (m.gate.speculative_clock tid == m.gate.gate.current_clocks l)) [
        | inl now ↦
            subst (λ b. Inv prog (n + 1) (passed tid l m (if b then some m.gate else none)))
              (sym now) (let_in-Inv prog n tid m inv few l at (ground (arith, now)))
        | inr wait ↦
            subst (λ b. Inv prog (n + 1) (passed tid l m (if b then some m.gate else none)))
              (sym wait) later-Inv
      ]

  wrote-Inv :
      (ws : List ℕ)
      → m.place tid ≡ exiting recording_exit
      → Logs (m.gate.gate.fds tid).fd ws
      → clocks tid m.trace ≡ ws ++ m.gate.speculative_clock tid ∷ []
      → locks tid m.trace ++ m.todo tid ≡ prog tid
      → Inv prog (n + 1) (wrote tid m (scgate_log (rec_config disk) tid recording_exit m.gate))
  unfolding scgate_log
  wrote-Inv ws at f k d =
      rw (fwrite_end (disk tid) (m.gate.gate.fds tid) ws (m.gate.speculative_clock tid ∷ []) f)
        (logged-Inv prog n tid m inv few ws at f k d)

  speculate-Inv :
      (p : Place) → m.place tid ≡ p → Inv prog (n + 1) (speculate (rec_config disk) tid p m)
  unfolding speculate scgate_tick
  speculate-Inv outside at = next_passage-Inv (m.todo tid) at refl
  speculate-Inv (entering l w) at =
      let (e, f, d) = Stands-here prog n tid m inv few (entering l w) at in
      subst (λ w. Inv prog (n + 1) (passed tid l m (scgate_pass tid l w m.gate))) (sym e)
        (passed-Inv l (at ∙ ap (entering l) e))
  speculate-Inv (within l) at = let_out-Inv prog n tid m inv few l at
  speculate-Inv (exiting x) at =
      let (ws, e, f, k, d) = Stands-here prog n tid m inv few (exiting x) at in
      subst (λ x. Inv prog (n + 1) (wrote tid m (scgate_log (rec_config disk) tid x m.gate)))
        (sym e) (wrote-Inv ws (at ∙ ap exiting e) f k d)

  step-Inv : Inv prog (n + 1) (speculate_step (rec_config disk) tid m)
  unfolding speculate_step
  step-Inv =
      subst
        (λ f.
          Inv prog (n + 1) (unless_failed f m (speculate (rec_config disk) tid (m.place tid) m)))
        (sym inv.alive) (speculate-Inv (m.place tid) refl)

speculation-Inv : (prog : ℕ → List ℕ) → Inv prog 0 (speculation prog)
unfolding speculation count locks clocks
speculation-Inv prog = record {
  alive = refl;
  thread = λ i. (refl, refl);
  clock = λ l. refl;
  small = omega arith;
  tickets = λ l. (omega arith, omega arith);
  held = λ i l h. cc;
  turn = λ i l h. cc;
  distinct = λ i j l h g e. cc;
}

run-Inv :
    (disk : ℕ → Option (List ℕ)) (prog : ℕ → List ℕ) (sched : List ℕ) (n : ℕ) (m : Speculation)
    → Inv prog n m
    → n + length sched < 2 ^ 32
    → Inv prog (n + length sched) (speculate_run (rec_config disk) sched m)
unfolding speculate_run
run-Inv disk prog [] n m inv few = subst (λ k. Inv prog k m) (omega arith) inv
run-Inv disk prog (tid ∷ sched) n m inv few =
    subst (λ k. Inv prog k (speculate_run (rec_config disk) (tid ∷ sched) m)) (omega arith)
      (run-Inv disk prog sched (n + 1) (speculate_step (rec_config disk) tid m)
        (step-Inv disk prog n tid m inv (omega (arith, few))) (omega (arith, few)))

pub speculated-Inv :
    (disk : ℕ → Option (List ℕ)) (prog : ℕ → List ℕ) (sched : List ℕ)
    → length sched < 2 ^ 32
    → Inv prog (0 + length sched) (speculate_run (rec_config disk) sched (speculation prog))
speculated-Inv disk prog sched few =
    run-Inv disk prog sched 0 (speculation prog) (speculation-Inv prog) (omega (arith, few))
