-- ===== src/Gate/Clock/Replay/Moves.antt =====
-- The four steps of a thread in replay mode (src/reomp/reomp_gate_clock.cpp), and that each keeps the
-- invariant of the replay of a recorded trace.
use re_omp_llvm.Common.{
  ℕ, suc, ◌⊎◌, inl, inr, ◌+◌, ◌%◌, ◌^◌, ◌<◌, ◌≤◌, ◌≡◌, refl, sym, ap, Option, none, some, List, [],
  ◌∷◌, ◌++◌, update, arith, subst, update_self, append_assoc, length, length-append, length-take,
  get_elem?, take, take-suc, get_elem?_of_lt, get_elem?-append_mid, get_elem?-lt,
}
use re_omp_llvm.Gate.Defs.{replaying, incr32}
use re_omp_llvm.Gate.File.{ReompFd, Stream}
use re_omp_llvm.Gate.File.Transfer.{Reads, fread_word, read_to}
use re_omp_llvm.Gate.Clock.{
  Config, spinning, passed, ticket_wait_begin, ticket_wait_pass, leave_begin, leave_end,
}
use re_omp_llvm.Gate.Clock.Machine.Step.{each_thread}
use re_omp_llvm.Gate.Clock.Machine.Trace.{length-order, length-clocks, count-le, get_elem?-order}
use re_omp_llvm.Gate.Clock.Machine.{
  Passage, Pc, ready, waiting, inside, leaving, Machine, start, move, count, order, locks, clocks,
  Local, local,
}

-- A thread with nothing to read needs no file.
abbrev pub Source : Option (List ℕ) → Option Stream → List ℕ → ℕ → Type 0
Source disk fd ws p = (ws ≡ []) ⊎ Reads disk fd ws p

-- A thread between its steps, in a replay of the trace `t`, where its file is `disk`: nesting depth,
-- position in the file, and its recorded locks as those passed and those to come.
abbrev pub At : List Passage → Option (List ℕ) → ℕ → Local → Pc → Type 0
At t disk i v ready =
    (v.nest ≡ 0) × Source disk v.fd.fd (clocks i t) (length v.done) × (v.done ++ v.rest ≡ locks i t)
At t disk i v (waiting l w) =
    (c : ℕ) × (w ≡ spinning c)
    × (v.nest ≡ 1)
    × (get_elem? (clocks i t) (length v.done) ≡ some c)
    × Source disk v.fd.fd (clocks i t) (suc (length v.done))
    × (v.done ++ l ∷ v.rest ≡ locks i t)
At t disk i v (inside l) =
    (v.nest ≡ 1)
    × Source disk v.fd.fd (clocks i t) (suc (length v.done))
    × (v.done ++ l ∷ v.rest ≡ locks i t)
At t disk i v (leaving lv) =
    (lv ≡ passed)
    × (v.nest ≡ 0)
    × Source disk v.fd.fd (clocks i t) (length v.done)
    × (v.done ++ v.rest ≡ locks i t)

abbrev pub Thread : List Passage → (ℕ → Option (List ℕ)) → ℕ → Local → Type 0
Thread t disk i v = At t (disk i) i v v.place

pub record Inv (t : List Passage) (disk : ℕ → Option (List ℕ)) (m : Machine) : Type 0 where
  pub alive : m.failed ≡ none
  pub thread : (i : ℕ) → Thread t disk i (local m i)
  pub turn : (i l : ℕ) → m.pc i ≡ inside l → get_elem? (order l t) (count l m.trace) ≡ some i
  pub prefix : (l : ℕ) → order l m.trace ≡ take (count l m.trace) (order l t)
  pub clock : (l : ℕ) → m.gate.current_clocks l ≡ count l m.trace % 2 ^ 32

abbrev pub replay_config : (ℕ → Option (List ℕ)) → Config
replay_config disk = record { mode = replaying; disk = disk }

-- The steps of a thread, as the states that they lead to.
abbrev pub asking : ℕ → ℕ → List ℕ → ReompFd → ℕ → Machine → Machine
asking tid l ls f c m = record m {
  gate = record (m.gate) { nest_num = update m.gate.nest_num tid 1; fds = update m.gate.fds tid f };
  pc = update m.pc tid (waiting l (spinning c));
  todo = update m.todo tid ls;
}

abbrev pub entered : ℕ → ℕ → Machine → Machine
entered tid l m = record m {
  gate = record (m.gate) { current_tid = some tid };
  pc = update m.pc tid (inside l);
}

abbrev pub released : ℕ → ℕ → Machine → Machine
released tid l m = record m {
  gate = record (m.gate) {
    nest_num = update m.gate.nest_num tid 0;
    current_tid = none;
    current_clocks = update m.gate.current_clocks l (incr32 (m.gate.current_clocks l));
  };
  pc = update m.pc tid (leaving passed);
  trace = (l, tid) ∷ m.trace;
}

abbrev pub finished : ℕ → Machine → Machine
finished tid m = record m { pc = update m.pc tid ready }

module _ (disk : ℕ → Option (List ℕ)) (tid : ℕ) (m : Machine) where
  pub start_eq :
      (l : ℕ) (ls ws : List ℕ) (p c : ℕ)
      → m.gate.nest_num tid ≡ 0
      → Reads (disk tid) (m.gate.fds tid).fd ws p
      → get_elem? ws p ≡ some c
      → start (replay_config disk) tid (l ∷ ls) m
        ≡ asking tid l ls (read_to (m.gate.fds tid) ws (p + 1)) c m
  unfolding start ticket_wait_begin
  start_eq l ls ws p c h r e = rw (h, fread_word (disk tid) (m.gate.fds tid) ws p c r e, start)

  pub pass_eq :
      (l c : ℕ)
      → (move (replay_config disk) tid (waiting l (spinning c)) m ≡ m)
        ⊎ ((c ≡ m.gate.current_clocks l)
            × (move (replay_config disk) tid (waiting l (spinning c)) m ≡ entered tid l m))
  unfolding move ticket_wait_pass
  pass_eq l c = ground arith

  pub release_eq :
      (l : ℕ)
      → m.gate.nest_num tid ≡ 1
      → move (replay_config disk) tid (inside l) m ≡ released tid l m
  unfolding move leave_begin
  release_eq l h = rw h

  pub finish_eq : move (replay_config disk) tid (leaving passed) m ≡ finished tid m
  unfolding move leave_end
  finish_eq = refl

module _ (t : List Passage) (disk : ℕ → Option (List ℕ)) (tid : ℕ) (m : Machine)
    (inv : Inv t disk m) where
  pub invariant_here : (p : Pc) → m.pc tid ≡ p → At t (disk tid) tid (local m tid) p
  invariant_here p e = subst (At t (disk tid) tid (local m tid)) e (inv.thread tid)

  -- the lock that a thread is about to pass or has entered is the recorded one
  recorded_lock :
      (l : ℕ) (ls : List ℕ)
      → locks tid m.trace ++ l ∷ ls ≡ locks tid t
      → get_elem? (locks tid t) (length (locks tid m.trace)) ≡ some l
  recorded_lock l ls d = rw (← d) (get_elem?-append_mid (locks tid m.trace) l ls)

  recorded_clock :
      (l : ℕ) (ls : List ℕ)
      → locks tid m.trace ++ l ∷ ls ≡ locks tid t
      → (c : ℕ) × (get_elem? (clocks tid t) (length (locks tid m.trace)) ≡ some c)
  recorded_clock l ls d = get_elem?_of_lt (clocks tid t) (length (locks tid m.trace)) (
      omega (
        arith,
        length-clocks tid t,
        get_elem?-lt (locks tid t) (length (locks tid m.trace)) l (recorded_lock l ls d),
      ))

  pub asking-Inv :
      (l : ℕ) (ls : List ℕ)
      → m.pc tid ≡ ready
      → m.todo tid ≡ l ∷ ls
      → (f : ReompFd) × (c : ℕ) × (start (replay_config disk) tid (l ∷ ls) m
          ≡ asking tid l ls f c m)
        × Inv t disk (asking tid l ls f c m)
  asking-Inv l ls at e =
      let (n, src, d) = invariant_here ready at in
      let d' : locks tid m.trace ++ l ∷ ls ≡ locks tid t = rw (← e) d in
      let (c, hc) = recorded_clock l ls d' in
      let p : ℕ = length (locks tid m.trace) in
      let f : ReompFd = read_to (m.gate.fds tid) (clocks tid t) (p + 1) in
      (
        f,
        c,
        start_eq disk tid m l ls (clocks tid t) p c n (source hc src) hc,
        record {
          alive = inv.alive;
          thread =
              each_thread (Thread t disk) (local m) (local (asking tid l ls f c m)) tid
                (λ j ne. ground arith)
                (subst (At t (disk tid) tid (local (asking tid l ls f c m) tid))
                  (sym (update_self m.pc tid (waiting l (spinning c))))
                  (
                    c,
                    refl,
                    ground arith,
                    hc,
                    subst (λ g. Source (disk tid) g.fd (clocks tid t) (suc p))
                        (sym (update_self m.gate.fds tid f)) (inr (refl, omega arith)),
                    rw update_self d',
                  ))
                inv.thread;
          turn = λ j k h. inv.turn j k (ground arith);
          prefix = inv.prefix;
          clock = inv.clock;
        },
      )
    where
      source :
          {c : ℕ}
          → get_elem? (clocks tid t) (length (locks tid m.trace)) ≡ some c
          → Source (disk tid) (m.gate.fds tid).fd (clocks tid t) (length (locks tid m.trace))
          → Reads (disk tid) (m.gate.fds tid).fd (clocks tid t) (length (locks tid m.trace))
      source hc (inl none_made) = absurd (ground arith)
      source hc (inr r) = r

  pub count-le_recorded : (l : ℕ) → count l m.trace ≤ count l t
  count-le_recorded l = omega (
    arith,
    length-order l m.trace,
    length-order l t,
    ap length (inv.prefix l),
    length-take (count l m.trace) (order l t),
  )

  pub entered-Inv :
      (l c : ℕ)
      → length t < 2 ^ 32
      → m.pc tid ≡ waiting l (spinning c)
      → c ≡ m.gate.current_clocks l
      → Inv t disk (entered tid l m)
  entered-Inv l c few at now =
      let (c', w, n, hc, src, d) = invariant_here (waiting l (spinning c)) at in
      record {
        alive = inv.alive;
        thread =
            each_thread (Thread t disk) (local m) (local (entered tid l m)) tid
              (λ j ne. ground arith)
              (subst (At t (disk tid) tid (local (entered tid l m) tid))
                (sym (update_self m.pc tid (inside l))) (n, src, d))
              inv.thread;
        turn = λ j k h. ground (arith, inv.turn j k, own d (clock_value w hc));
        prefix = inv.prefix;
        clock = inv.clock;
      }
    where
      clock_value :
          {c' : ℕ}
          → spinning c ≡ spinning c'
          → get_elem? (clocks tid t) (length (locks tid m.trace)) ≡ some c'
          → get_elem? (clocks tid t) (length (locks tid m.trace)) ≡ some (count l m.trace)
      clock_value w hc = ground (arith, now, inv.clock l, count-le_recorded l, count-le l t)

      own :
          locks tid m.trace ++ l ∷ m.todo tid ≡ locks tid t
          → get_elem? (clocks tid t) (length (locks tid m.trace)) ≡ some (count l m.trace)
          → get_elem? (order l t) (count l m.trace) ≡ some tid
      own d hc =
          get_elem?-order tid l (length (locks tid m.trace)) (count l m.trace) t few hc
            (recorded_lock l (m.todo tid) d)

  pub released-Inv :
      (l : ℕ) → length t < 2 ^ 32 → m.pc tid ≡ inside l → Inv t disk (released tid l m)
  unfolding count order locks clocks
  released-Inv l few at =
      let (n, src, d) = invariant_here (inside l) at in
      record {
        alive = inv.alive;
        thread =
            each_thread (Thread t disk) (local m) (local (released tid l m)) tid
              (λ j ne. ground arith)
              (subst (At t (disk tid) tid (local (released tid l m) tid))
                (sym (update_self m.pc tid (leaving passed)))
                (
                  refl,
                  ground arith,
                  subst (Source (disk tid) (m.gate.fds tid).fd (clocks tid t)) longer src,
                  ground (arith, append_assoc (locks tid m.trace) (l ∷ []) (m.todo tid)),
                ))
              inv.thread;
        turn = λ j k h. ground (arith, inv.turn j k, inv.turn tid l at);
        prefix = λ k.
            ground
              (arith, inv.prefix k, take-suc (order l t) (count l m.trace) tid (inv.turn tid l at));
        clock = λ k. ground (arith, inv.clock k);
      }
    where
      longer : suc (length (locks tid m.trace)) ≡ length (locks tid ((l, tid) ∷ m.trace))
      longer = ground (arith, length-append (locks tid m.trace) (l ∷ []))

  pub finished-Inv : m.pc tid ≡ leaving passed → Inv t disk (finished tid m)
  finished-Inv at =
      let (w, n, src, d) = invariant_here (leaving passed) at in
      record {
        alive = inv.alive;
        thread =
            each_thread (Thread t disk) (local m) (local (finished tid m)) tid
              (λ j ne. ground arith)
              (subst (At t (disk tid) tid (local (finished tid m) tid))
                (sym (update_self m.pc tid ready)) (n, src, d))
              inv.thread;
        turn = λ j k h. inv.turn j k (ground arith);
        prefix = inv.prefix;
        clock = inv.clock;
      }
