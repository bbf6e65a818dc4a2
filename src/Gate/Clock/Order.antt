-- ===== src/Gate/Clock/Order.antt =====
-- A replay of a record run of the clock gate (src/reomp/reomp_gate_clock.cpp): in which order the
-- threads pass a lock, and that a finished replay has repeated the whole order.
use re_omp_llvm.Common.{
  ℕ, zero, suc, ◌+◌, ◌^◌, ◌<◌, ◌≤◌, ◌⊎◌, inl, inr, ◌≡◌, refl, sym, ap, ◌∙◌, Option, none, some,
  List, [], ◌∷◌, ◌++◌, take, length, ◌==◌, if◌then◌else◌, arith, append-nil,
}
use re_omp_llvm.Gate.File.{Stream}
use re_omp_llvm.Gate.File.Transfer.{Logs}
use re_omp_llvm.Gate.Clock.Machine.{
  Passage, ready, inside, Machine, initial, run, count, order, locks, clocks,
}
use re_omp_llvm.Gate.Clock.Record.{rec_config, record_files}
use re_omp_llvm.Gate.Clock.Replay.{
  Recorded, replay_config, Inv, run-Inv, initial-Inv, finished_parts,
}

-- what a run leaves on disk
abbrev pub file_words : Option Stream → Option (List ℕ)
file_words none = none
file_words (some s) = some s.words

-- The file that a stream of these words leaves, if it was opened.
pub Logs-words :
    (o : Option Stream) (ws : List ℕ) → Logs o ws → (ws ≡ []) ⊎ (file_words o ≡ some ws)
Logs-words none ws h = inl h
Logs-words (some s) ws h = inr (ap some h.0)

abbrev pub files : Machine → ℕ → Option (List ℕ)
files m i = file_words (m.gate.fds i).fd

abbrev pub Finished : Machine → Type 0
Finished m = (i : ℕ) → (m.pc i ≡ ready) × (m.todo i ≡ [])

module _ (disk : ℕ → Option (List ℕ)) (prog : ℕ → List ℕ) (sched : List ℕ) where
  abbrev pub recorded : Machine
  recorded = run (rec_config disk) sched (initial prog)

  abbrev pub replayed : List ℕ → Machine
  replayed sched' = run (replay_config (files recorded)) sched' (initial prog)

  module _ (over : Finished recorded) where
    recorded-Recorded : Recorded recorded.trace (files recorded)
    recorded-Recorded i =
        Logs-words (recorded.gate.fds i).fd (clocks i recorded.trace)
          (record_files disk prog sched i (over i).0).1

    recorded_program : (i : ℕ) → prog i ≡ locks i recorded.trace
    recorded_program i =
        let (alive, f, d) = record_files disk prog sched i (over i).0 in
        sym d ∙ rw (over i).1 (append-nil (locks i recorded.trace))

    pub replay-Inv :
        length recorded.trace < 2 ^ 32
        → (sched' : List ℕ) → Inv recorded.trace (files recorded) (replayed sched')
    replay-Inv few sched' =
        run-Inv recorded.trace (files recorded) few sched' (initial prog)
          (initial-Inv recorded.trace (files recorded) prog recorded-Recorded recorded_program)

-- A replay, under any schedule, of a finished record run of fewer than 2 ^ 32 passages meets no
-- error, and the threads that have passed a lock so far are the first ones of the order in which the
-- record run passed it.
pub replay_order :
    (disk : ℕ → Option (List ℕ)) (prog : ℕ → List ℕ) (sched sched' : List ℕ)
    → Finished (recorded disk prog sched)
    → length (recorded disk prog sched).trace < 2 ^ 32
    → ((replayed disk prog sched sched').failed ≡ none)
      × ((l : ℕ)
          → order l (replayed disk prog sched sched').trace
            ≡ take
                (count l (replayed disk prog sched sched').trace)
                (order l (recorded disk prog sched).trace))
replay_order disk prog sched sched' over few =
    let inv = replay-Inv disk prog sched over few sched' in (inv.alive, inv.prefix)

-- No two threads are inside one lock in a replay, under any schedule, of a finished record run of
-- fewer than 2 ^ 32 passages.
pub replay_exclusion :
    (disk : ℕ → Option (List ℕ)) (prog : ℕ → List ℕ) (sched sched' : List ℕ) (i j l : ℕ)
    → Finished (recorded disk prog sched)
    → length (recorded disk prog sched).trace < 2 ^ 32
    → (replayed disk prog sched sched').pc i ≡ inside l
    → (replayed disk prog sched sched').pc j ≡ inside l
    → i ≡ j
replay_exclusion disk prog sched sched' i j l over few hi hj =
    let inv = replay-Inv disk prog sched over few sched' in
    ground (arith, inv.turn i l hi, inv.turn j l hj)

-- How often a number stands in a list.
occurrences : ℕ → List ℕ → ℕ
occurrences a [] = 0
occurrences a (x ∷ xs) = if x == a then suc (occurrences a xs) else occurrences a xs

occurrences-append :
    (a : ℕ) (xs ys : List ℕ) → occurrences a (xs ++ ys) ≡ occurrences a xs + occurrences a ys
unfolding occurrences
occurrences-append a [] ys = omega arith
occurrences-append a (x ∷ xs) ys = ground (arith, occurrences-append a xs ys)

-- A thread stands in the order of a lock as often as the lock stands among the thread's.
occurrences-order :
    (i l : ℕ) (t : List Passage) → occurrences i (order l t) ≡ occurrences l (locks i t)
unfolding occurrences order locks
occurrences-order i l [] = refl
occurrences-order i l ((k, j) ∷ t) = ground (
  arith,
  occurrences-order i l t,
  occurrences-append i (order l t) (j ∷ []),
  occurrences-append l (locks i t) (k ∷ []),
)

take-ge_length : (n : ℕ) (xs : List ℕ) → length xs ≤ n → take n xs ≡ xs
take-ge_length zero [] h = refl
take-ge_length zero (x ∷ xs) h = absurd (omega arith)
take-ge_length (suc n) [] h = refl
take-ge_length (suc n) (x ∷ xs) h = ap (λ l. x ∷ l) (take-ge_length n xs (omega arith))

-- A prefix in which every number stands as often as in the whole list is the whole list.
prefix_full :
    (n : ℕ) (xs : List ℕ)
    → ((a : ℕ) → occurrences a (take n xs) ≡ occurrences a xs)
    → take n xs ≡ xs
unfolding occurrences
prefix_full zero [] h = refl
prefix_full zero (x ∷ xs) h = absurd (ground (arith, h x))
prefix_full (suc n) [] h = refl
prefix_full (suc n) (x ∷ xs) h = ap (λ l. x ∷ l) (prefix_full n xs (λ a. ground (arith, h a)))

-- A finished replay of a trace has passed every lock in the order of the trace.
pub Finished-order :
    (t : List Passage) (disk : ℕ → Option (List ℕ)) (r : Machine)
    → Inv t disk r
    → Finished r
    → (l : ℕ) → order l r.trace ≡ order l t
Finished-order t disk r inv over l =
    inv.prefix l
    ∙ prefix_full (count l r.trace) (order l t) (λ a.
      ap (occurrences a) (sym (inv.prefix l))
      ∙ occurrences-order a l r.trace
      ∙ ap (occurrences l) (finished_parts t disk r inv a (over a).0 (over a).1)
      ∙ sym (occurrences-order a l t))

-- A finished replay of a finished record run of fewer than 2 ^ 32 passages has passed every lock in
-- exactly the order of the record run, whatever the two schedules.
pub replay_complete :
    (disk : ℕ → Option (List ℕ)) (prog : ℕ → List ℕ) (sched sched' : List ℕ)
    → Finished (recorded disk prog sched)
    → length (recorded disk prog sched).trace < 2 ^ 32
    → Finished (replayed disk prog sched sched')
    → (l : ℕ)
    → order l (replayed disk prog sched sched').trace ≡ order l (recorded disk prog sched).trace
replay_complete disk prog sched sched' over few over' l =
    Finished-order (recorded disk prog sched).trace (files (recorded disk prog sched))
      (replayed disk prog sched sched') (replay-Inv disk prog sched over few sched') over' l
