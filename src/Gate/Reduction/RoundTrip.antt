-- ===== src/Gate/Reduction/RoundTrip.antt =====
-- A run in replay mode reads the reductions that a run in record mode has written.
use re_omp_llvm.Common.{
  ℕ, ◌+◌, ◌<◌, ◌≡◌, refl, sym, ap, ◌∙◌, Option, none, some, List, [], ◌∷◌, ◌++◌, append_assoc,
  append-nil, length, length-append, drop, subst, if◌then◌else◌, ◌==◌, ◌⊎◌, inl, inr, arith,
}
use re_omp_llvm.Gate.Defs.{recording, replaying, ok, incr32}
use re_omp_llvm.Gate.File.{Stream, size_words, size_value}
use re_omp_llvm.Gate.File.Transfer.{Logs, Reads}
use re_omp_llvm.Gate.Clock.{Config, Cgate, cgate_init, ticket_wait, leave}
use re_omp_llvm.Gate.Reduction.{
  lock_worker, lock_master, atomic, null_method, in_bef_reduce_begin, in_aft_reduce_begin,
  out_reduce_end, reduction, reductions, record_reduction_method_init, record_reduction_method,
  read_reduction_method, lock_reduction,
}
use re_omp_llvm.Gate.Reduction.Writing as Writing
use re_omp_llvm.Gate.Reduction.Reading as Reading

drop_prefix : (xs ys : List ℕ) → drop (length xs) (xs ++ ys) ≡ ys
drop_prefix [] ys = refl
drop_prefix (x ∷ xs) ys = drop_prefix xs ys

-- The methods that __kmpc_reduce can choose.
abbrev pub IsMethod : ℕ → Type 0
IsMethod m = (m ≡ lock_worker) ⊎ ((m ≡ lock_master) ⊎ (m ≡ atomic))

abbrev pub Methods : List ℕ → Type 0
Methods [] = Unit {0}
Methods (m ∷ ms) = IsMethod m × Methods ms

-- The words of one reduction at a clock, and the clock after it: a worker takes no ticket.
abbrev pub ticket_words : ℕ → ℕ → List ℕ
ticket_words m k = if m == lock_worker then [] else k ∷ []

abbrev pub next_clock : ℕ → ℕ → ℕ
next_clock m k = if m == lock_worker then k else incr32 k

abbrev pub words_of : List ℕ → ℕ → List ℕ
words_of [] k = []
words_of (m ∷ ms) k = (size_words m ++ ticket_words m k) ++ words_of ms (next_clock m k)

abbrev pub clock_after : List ℕ → ℕ → ℕ
clock_after [] k = k
clock_after (m ∷ ms) k = clock_after ms (next_clock m k)

abbrev pub record_on : (ℕ → Option (List ℕ)) → Config
record_on disk = record { mode = recording; disk = disk }

abbrev pub replay_on : (ℕ → Option (List ℕ)) → Config
replay_on disk = record { mode = replaying; disk = disk }

module _ (disk : ℕ → Option (List ℕ)) (tid : ℕ) where
  -- what a reduction does in record mode
  abbrev Recorded : Cgate → List ℕ → ℕ → ℕ → Type 0
  Recorded g ws m k =
      (g' : Cgate) × (reduction (record_on disk) tid m g ≡ ok (some g'))
      × Writing.At tid g' (ws ++ (size_words m ++ ticket_words m k)) 0 none (next_clock m k)
      × ((g'.fds tid).write_bytes_at_reduction ≡ 0)

  module _ (g : Cgate) (ws : List ℕ) (k : ℕ) (h : Writing.At tid g ws 0 none k)
      (z : (g.fds tid).write_bytes_at_reduction ≡ 0) where
    record_worker : Recorded g ws lock_worker k
    unfolding reduction in_bef_reduce_begin in_aft_reduce_begin out_reduce_end size_words
    record_worker =
        let c : Config = record_on disk in
        let (g1, e1, h1, p1) = Writing.init_At c refl tid g ws k h z in
        let (g2, e2, h2, z2) = Writing.fill_At c refl tid g1 ws k [] 3 0 lock_worker h1 p1 in
        (g2, rw (e1, e2) refl, h2, z2)

    -- the ticket that follows the room for the method
    ticketed :
        (g3 : Cgate)
        → Writing.At tid g3 ((ws ++ size_words null_method) ++ k ∷ []) 0 none (incr32 k)
        → Writing.At tid g3 (ws ++ 3 ∷ 0 ∷ k ∷ []) 0 none (incr32 k)
    unfolding size_words
    ticketed g3 =
        subst (λ l. Writing.At tid g3 l 0 none (incr32 k)) (append_assoc ws (3 ∷ 0 ∷ []) (k ∷ []))

    -- the four steps of a reduction that takes a ticket
    record_locked :
        (m : ℕ)
        → (g1 g2 g3 g4 : Cgate) × (record_reduction_method_init (record_on disk) tid g ≡ ok g1)
          × (ticket_wait (record_on disk) tid lock_reduction g1 ≡ ok (some g2))
          × (leave (record_on disk) tid lock_reduction g2 ≡ ok g3)
          × (record_reduction_method (record_on disk) tid m g3 ≡ ok g4)
          × Writing.At tid g4 (ws ++ (size_words m ++ k ∷ [])) 0 none (incr32 k)
          × ((g4.fds tid).write_bytes_at_reduction ≡ 0)
    record_locked m =
        let c : Config = record_on disk in
        let (g1, e1, h1, p1) = Writing.init_At c refl tid g ws k h z in
        let (g2, e2, h2, same) =
          Writing.wait_At c refl tid g1 (ws ++ size_words null_method) k h1 in
        let (g3, e3, h3, p3) =
          Writing.leave-At c refl tid g2 (ws ++ size_words null_method) k h2
            (subst (λ f. Writing.Pending 8 (f tid)) (sym same) p1) in
        let (g4, e4, h4, z4) =
          Writing.fill_At c refl tid g3 ws (incr32 k) (k ∷ []) 3 0 m (ticketed g3 h3) p3 in
        (g1, g2, g3, g4, e1, e2, e3, e4, h4, z4)

    record_one : (m : ℕ) → IsMethod m → Recorded g ws m k
    unfolding reduction in_bef_reduce_begin in_aft_reduce_begin out_reduce_end
    record_one m (inl worker) = subst (λ m. Recorded g ws m k) (sym worker) record_worker
    record_one m (inr (inl master)) =
        let (g1, g2, g3, g4, e1, e2, e3, e4, h4, z4) = record_locked lock_master in
        subst (λ m. Recorded g ws m k) (sym master) (g4, rw (e1, e2, e3, e4) refl, h4, z4)
    record_one m (inr (inr one)) =
        let (g1, g2, g3, g4, e1, e2, e3, e4, h4, z4) = record_locked atomic in
        subst (λ m. Recorded g ws m k) (sym one) (g4, rw (e1, e2, e3, e4) refl, h4, z4)

  record_all :
      (ms : List ℕ) (g : Cgate) (ws : List ℕ) (k : ℕ)
      → Methods ms
      → Writing.At tid g ws 0 none k
      → (g.fds tid).write_bytes_at_reduction ≡ 0
      → (g' : Cgate) × (reductions (record_on disk) tid ms g ≡ ok (some g'))
        × Writing.At tid g' (ws ++ words_of ms k) 0 none (clock_after ms k)
  unfolding reductions
  record_all [] g ws k valid h z =
      (g, refl, subst (λ l. Writing.At tid g l 0 none k) (sym (append-nil ws)) h)
  record_all (m ∷ ms) g ws k valid h z =
      let (g1, e1, h1, z1) = record_one g ws k h z m valid.0 in
      let (g2, e2, h2) =
        record_all ms g1 (ws ++ (size_words m ++ ticket_words m k)) (next_clock m k) valid.1 h1
          z1 in
      (
        g2,
        rw (e1, e2) refl,
        subst (λ l. Writing.At tid g2 l 0 none (clock_after ms (next_clock m k)))
            (append_assoc ws (size_words m ++ ticket_words m k) (words_of ms (next_clock m k))) h2,
      )

  -- what a reduction does in replay mode
  abbrev Replayed : Cgate → List ℕ → ℕ → ℕ → ℕ → Type 0
  Replayed g ws p m k =
      (g' : Cgate) × (reduction (replay_on disk) tid m g ≡ ok (some g'))
      × Reading.At (disk tid) tid g' ws (p + length (size_words m ++ ticket_words m k)) 0
          (next_clock m k)

  module _ (g : Cgate) (ws : List ℕ) (p k : ℕ) (rest : List ℕ)
      (h : Reading.At (disk tid) tid g ws p 0 k) where
    replay_worker : drop p ws ≡ size_words lock_worker ++ rest → Replayed g ws p lock_worker k
    unfolding reduction in_bef_reduce_begin in_aft_reduce_begin out_reduce_end size_words size_value
    replay_worker e =
        let (g1, e1, h1) = Reading.read_At (replay_on disk) refl tid g ws p k 0 0 rest e h in
        (g1, rw e1 refl, h1)

    -- the three steps of a reduction that waits for its ticket
    replay_locked :
        (m : ℕ)
        → drop p ws ≡ m ∷ 0 ∷ k ∷ rest
        → (g1 g2 g3 : Cgate) × (read_reduction_method (replay_on disk) tid g
            ≡ ok (size_value (m ∷ 0 ∷ []), g1))
          × (ticket_wait (replay_on disk) tid lock_reduction g1 ≡ ok (some g2))
          × (leave (replay_on disk) tid lock_reduction g2 ≡ ok g3)
          × Reading.At (disk tid) tid g3 ws (p + 3) 0 (incr32 k)
    replay_locked m e =
        let c : Config = replay_on disk in
        let (g1, e1, h1) = Reading.read_At c refl tid g ws p k m 0 (k ∷ rest) e h in
        let (g2, e2, h2) =
          Reading.wait_At c refl tid g1 ws (p + 2) k rest (Reading.drop-add ws p 2 ∙ ap (drop 2) e)
            h1 in
        let (g3, e3, h3) = Reading.leave-At c refl tid g2 ws (p + 2 + 1) k h2 in
        (
          g1,
          g2,
          g3,
          e1,
          e2,
          e3,
          subst (λ n. Reading.At (disk tid) tid g3 ws n 0 (incr32 k)) (omega arith) h3,
        )

    replay_one :
        (m : ℕ)
        → IsMethod m
        → drop p ws ≡ (size_words m ++ ticket_words m k) ++ rest
        → Replayed g ws p m k
    unfolding reduction in_bef_reduce_begin in_aft_reduce_begin out_reduce_end size_words size_value
    replay_one m (inl worker) =
        subst (λ m. drop p ws ≡ (size_words m ++ ticket_words m k) ++ rest → Replayed g ws p m k)
          (sym worker) replay_worker
    replay_one m (inr (inl master)) =
        subst (λ m. drop p ws ≡ (size_words m ++ ticket_words m k) ++ rest → Replayed g ws p m k)
          (sym master)
          (λ e.
            let (g1, g2, g3, e1, e2, e3, h3) = replay_locked lock_master e in
            (g3, rw (e1, e2, e3) refl, h3))
    replay_one m (inr (inr one)) =
        subst (λ m. drop p ws ≡ (size_words m ++ ticket_words m k) ++ rest → Replayed g ws p m k)
          (sym one)
          (λ e.
            let (g1, g2, g3, e1, e2, e3, h3) = replay_locked atomic e in
            (g3, rw (e1, e2, e3) refl, h3))

  replay_all :
      (ms : List ℕ) (g : Cgate) (ws : List ℕ) (p k : ℕ)
      → Methods ms
      → drop p ws ≡ words_of ms k
      → Reading.At (disk tid) tid g ws p 0 k
      → (g' : Cgate) × (reductions (replay_on disk) tid ms g ≡ ok (some g'))
        × Reading.At (disk tid) tid g' ws (p + length (words_of ms k)) 0 (clock_after ms k)
  unfolding reductions
  replay_all [] g ws p k valid e h =
      (g, refl, subst (λ n. Reading.At (disk tid) tid g ws n 0 k) (omega arith) h)
  replay_all (m ∷ ms) g ws p k valid e h =
      let here : List ℕ = size_words m ++ ticket_words m k in
      let rest : List ℕ = words_of ms (next_clock m k) in
      let (g1, e1, h1) = replay_one g ws p k rest h m valid.0 e in
      let (g2, e2, h2) =
        replay_all ms g1 ws (p + length here) (next_clock m k) valid.1
          (Reading.drop-add ws p (length here) ∙ ap (drop (length here)) e ∙ drop_prefix here rest)
          h1 in
      (
        g2,
        rw (e1, e2) refl,
        subst (λ n. Reading.At (disk tid) tid g2 ws n 0 (clock_after ms (next_clock m k)))
            (omega (arith, length-append here rest)) h2,
      )

-- what a run leaves on disk
abbrev pub words_on_disk : Option Stream → Option (List ℕ)
words_on_disk none = none
words_on_disk (some s) = some s.words

words_of_Logs :
    (o : Option Stream) (ws : List ℕ) → 0 < length ws → Logs o ws → words_on_disk o ≡ some ws
words_of_Logs none ws h l = absurd (omega (arith, ap length l))
words_of_Logs (some s) ws h l = ap some l.0

-- A thread that records one reduction or more, with any methods that the runtime chooses, meets no
-- error and does not wait; and the replay of the files that it leaves, from the initial state, passes
-- the same reductions with no error and no wait, reads the thread's file to its end, and leaves the
-- clock of the reductions as the record run did.
pub reductions_replayed :
    (disk : ℕ → Option (List ℕ)) (tid m : ℕ) (ms : List ℕ)
    → Methods (m ∷ ms)
    → (g g' : Cgate) × (ws : List ℕ) × (reductions (record_on disk) tid (m ∷ ms) cgate_init
        ≡ ok (some g))
      × (reductions (replay_on (λ i. words_on_disk (g.fds i).fd)) tid (m ∷ ms) cgate_init
          ≡ ok (some g'))
      × (words_on_disk (g.fds tid).fd ≡ some ws)
      × Reads (some ws) (g'.fds tid).fd ws (length ws)
      × (g'.current_clocks lock_reduction ≡ g.current_clocks lock_reduction)
unfolding cgate_init size_words
reductions_replayed disk tid m ms valid =
    let ws : List ℕ = words_of (m ∷ ms) 0 in
    let (g, e, h) =
      record_all disk tid (m ∷ ms) cgate_init [] 0 valid
        (record { logs = refl; bytes = omega arith; nested = refl; locked = refl; clocked = refl })
        refl in
    let stored = words_of_Logs (g.fds tid).fd ws (omega arith) h.logs in
    let (g', e', h') =
      replay_all (λ i. words_on_disk (g.fds i).fd) tid (m ∷ ms) cgate_init ws 0 0 valid refl
        (record { reads = (stored, refl); nested = refl; clocked = refl }) in
    (
      g,
      g',
      ws,
      e,
      e',
      stored,
      subst (λ d. Reads d (g'.fds tid).fd ws (length ws)) stored
          (subst (λ n. Reads (words_on_disk (g.fds tid).fd) (g'.fds tid).fd ws n)
            {x = 0 + length ws} (omega arith) h'.reads),
      h'.clocked ∙ sym h.clocked,
    )
