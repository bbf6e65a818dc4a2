-- ===== src/Gate/Clock/Record/Moves.antt =====
-- The four steps of a thread in record mode (src/reomp/reomp_gate_clock.cpp), and that each keeps
-- the invariant of the record run.
use re_omp_llvm.Common.{
  ℕ, ◌⊎◌, ◌%◌, ◌^◌, ◌≡◌, refl, sym, Option, none, some, List, [], ◌∷◌, ◌++◌, update, arith, subst,
  update_self, append_assoc, length-append,
}
use re_omp_llvm.Gate.Defs.{recording, incr32}
use re_omp_llvm.Gate.File.Transfer.{Logs, fwrite_end, written}
use re_omp_llvm.Gate.Clock.{
  Config, locking, ticket, ticket_wait_begin, ticket_wait_pass, leave_begin, leave_end,
}
use re_omp_llvm.Gate.Clock.Machine.Step.{each_thread}
use re_omp_llvm.Gate.Clock.Machine.{
  Pc, ready, waiting, inside, leaving, Machine, start, move, count, locks, clocks, Local, local,
}

-- A thread between its steps: its nesting depth, what its file holds, and the program `prog` as
-- the locks passed so far and those to come.
abbrev pub At : List ℕ → Local → Pc → Type 0
At prog t ready = (t.nest ≡ 0) × Logs t.fd.fd t.made × (t.done ++ t.rest ≡ prog)
At prog t (waiting l w) =
    (w ≡ locking) × (t.nest ≡ 1) × Logs t.fd.fd t.made × (t.done ++ l ∷ t.rest ≡ prog)
At prog t (inside l) = (t.nest ≡ 1) × Logs t.fd.fd t.made × (t.done ++ l ∷ t.rest ≡ prog)
At prog t (leaving lv) =
    (ws : List ℕ) × (v : ℕ) × (lv ≡ ticket v)
    × (t.nest ≡ 0)
    × Logs t.fd.fd ws
    × (t.made ≡ ws ++ v ∷ [])
    × (t.done ++ t.rest ≡ prog)

abbrev pub Thread : List ℕ → Local → Type 0
Thread prog t = At prog t t.place

pub record Inv (prog : ℕ → List ℕ) (m : Machine) : Type 0 where
  pub alive : m.failed ≡ none
  pub thread : (i : ℕ) → Thread (prog i) (local m i)
  pub owner : (i l : ℕ) → m.pc i ≡ inside l → m.gate.omp_locks l ≡ some i
  pub clock : (l : ℕ) → m.gate.current_clocks l ≡ count l m.trace % 2 ^ 32

abbrev pub rec_config : (ℕ → Option (List ℕ)) → Config
rec_config disk = record { mode = recording; disk = disk }

-- The four steps of a thread, as the states that they lead to.
abbrev pub asking : ℕ → ℕ → List ℕ → Machine → Machine
asking tid l ls m = record m {
  gate = record (m.gate) { nest_num = update m.gate.nest_num tid 1 };
  pc = update m.pc tid (waiting l locking);
  todo = update m.todo tid ls;
}

abbrev pub entered : ℕ → ℕ → Machine → Machine
entered tid l m = record m {
  gate = record (m.gate) {
    omp_locks = update m.gate.omp_locks l (some tid);
    current_tid = some tid;
  };
  pc = update m.pc tid (inside l);
}

abbrev pub released : ℕ → ℕ → Machine → Machine
released tid l m = record m {
  gate = record (m.gate) {
    nest_num = update m.gate.nest_num tid 0;
    current_tid = none;
    current_clocks = update m.gate.current_clocks l (incr32 (m.gate.current_clocks l));
    omp_locks = update m.gate.omp_locks l none;
  };
  pc = update m.pc tid (leaving (ticket (m.gate.current_clocks l)));
  trace = (l, tid) ∷ m.trace;
}

abbrev pub logged : ℕ → List ℕ → ℕ → Machine → Machine
logged tid ws v m = record m {
  gate = record (m.gate) { fds = update m.gate.fds tid (written (m.gate.fds tid) ws (v ∷ [])) };
  pc = update m.pc tid ready;
}

module _ (disk : ℕ → Option (List ℕ)) (tid : ℕ) (m : Machine) where
  pub start_eq :
      (l : ℕ) (ls : List ℕ)
      → m.gate.nest_num tid ≡ 0
      → start (rec_config disk) tid (l ∷ ls) m ≡ asking tid l ls m
  unfolding start ticket_wait_begin
  start_eq l ls h = rw (h, start)

  pub pass_eq :
      (l : ℕ)
      → (move (rec_config disk) tid (waiting l locking) m ≡ m)
        ⊎ ((m.gate.omp_locks l ≡ none)
            × (move (rec_config disk) tid (waiting l locking) m ≡ entered tid l m))
  unfolding move ticket_wait_pass
  pass_eq l = ground arith

  pub release_eq :
      (l : ℕ) → m.gate.nest_num tid ≡ 1 → move (rec_config disk) tid (inside l) m ≡ released tid l m
  unfolding move leave_begin
  release_eq l h = rw h

  pub log_eq :
      (ws : List ℕ) (v : ℕ)
      → Logs (m.gate.fds tid).fd ws
      → move (rec_config disk) tid (leaving (ticket v)) m ≡ logged tid ws v m
  unfolding move leave_end
  log_eq ws v h = rw (fwrite_end (disk tid) (m.gate.fds tid) ws (v ∷ []) h, move)

module _ (prog : ℕ → List ℕ) (tid : ℕ) (m : Machine) (inv : Inv prog m) where
  pub invariant_here : (p : Pc) → m.pc tid ≡ p → At (prog tid) (local m tid) p
  invariant_here p e = subst (At (prog tid) (local m tid)) e (inv.thread tid)

  pub asking-Inv :
      (l : ℕ) (ls : List ℕ) → m.pc tid ≡ ready → m.todo tid ≡ l ∷ ls → Inv prog (asking tid l ls m)
  asking-Inv l ls at e = record {
    alive = inv.alive;
    thread =
        each_thread (λ j. Thread (prog j)) (local m) (local (asking tid l ls m)) tid
          (λ j ne. ground arith)
          (subst (At (prog tid) (local (asking tid l ls m) tid))
            (sym (update_self m.pc tid (waiting l locking)))
            (
              refl,
              ground arith,
              (invariant_here ready at).1,
              ground (arith, (invariant_here ready at).2),
            ))
          inv.thread;
    owner = λ j k h. inv.owner j k (ground arith);
    clock = inv.clock;
  }

  pub entered-Inv :
      (l : ℕ)
      → m.pc tid ≡ waiting l locking
      → m.gate.omp_locks l ≡ none
      → Inv prog (entered tid l m)
  entered-Inv l at free = record {
    alive = inv.alive;
    thread =
        each_thread (λ j. Thread (prog j)) (local m) (local (entered tid l m)) tid
          (λ j ne. ground arith)
          (subst (At (prog tid) (local (entered tid l m) tid))
            (sym (update_self m.pc tid (inside l)))
            (let (w, n, f, d) = invariant_here (waiting l locking) at in (n, f, d)))
          inv.thread;
    owner = λ j k h. ground (arith, inv.owner j k);
    clock = inv.clock;
  }

  pub released-Inv : (l : ℕ) → m.pc tid ≡ inside l → Inv prog (released tid l m)
  unfolding count locks clocks
  released-Inv l at = record {
    alive = inv.alive;
    thread =
        each_thread (λ j. Thread (prog j)) (local m) (local (released tid l m)) tid
          (λ j ne. ground arith)
          (subst (At (prog tid) (local (released tid l m) tid))
            (sym (update_self m.pc tid (leaving (ticket (m.gate.current_clocks l)))))
            (let (n, f, d) = invariant_here (inside l) at in
              (
                clocks tid m.trace,
                m.gate.current_clocks l,
                refl,
                ground arith,
                f,
                ground (arith, inv.clock l),
                ground (arith, append_assoc (locks tid m.trace) (l ∷ []) (m.todo tid)),
              )))
          inv.thread;
    owner = λ j k h. ground (arith, inv.owner j k, inv.owner tid l at);
    clock = λ k. ground (arith, inv.clock k, inv.clock l);
  }

  pub logged-Inv :
      (ws : List ℕ) (v : ℕ)
      → m.pc tid ≡ leaving (ticket v)
      → m.gate.nest_num tid ≡ 0
      → Logs (m.gate.fds tid).fd ws
      → clocks tid m.trace ≡ ws ++ v ∷ []
      → locks tid m.trace ++ m.todo tid ≡ prog tid
      → Inv prog (logged tid ws v m)
  logged-Inv ws v at n f k d = record {
    alive = inv.alive;
    thread =
        each_thread (λ j. Thread (prog j)) (local m) (local (logged tid ws v m)) tid
          (λ j ne. ground arith)
          (subst (At (prog tid) (local (logged tid ws v m) tid)) (sym (update_self m.pc tid ready))
            (
              n,
              subst (λ f. Logs f.fd (clocks tid m.trace))
                  (sym (update_self m.gate.fds tid (written (m.gate.fds tid) ws (v ∷ []))))
                  (sym k, rw k (sym (length-append ws (v ∷ [])))),
              d,
            ))
          inv.thread;
    owner = λ j k h. inv.owner j k (ground arith);
    clock = inv.clock;
  }
