-- ===== src/Gate/Concurrent/Tests.antt =====
-- Loads and stores of three threads on one lock, and the theorems about them at those.
use re_omp_llvm.Common.{ℕ, ◌≤◌, ◌≡◌, refl, true, false, List, [], ◌∷◌, ◌⊎◌, arith}
use re_omp_llvm.Gate.Clock.{cgate_init}
use re_omp_llvm.Gate.Concurrent.{
  NextStore, unknown, cc_in_pass, out_replay, out_locked, set_consecutive, test_consecutive,
  count_same, reset_consecutive, settle, epoch_of,
}
use re_omp_llvm.Gate.Concurrent.Epochs.{
  Op, access, reset, log_op, log_ops, unlogged, tickets, tickets_after_change,
}
use re_omp_llvm.Gate.Concurrent.Together.{
  Move, enter, leave, Replay, move, moves, log, replay, conflict_order, replay_progress,
}

-- what the memory of the kinds may hold at first
abbrev garbage : ℕ → ℕ → ℕ
garbage l i = 101

abbrev unseen : ℕ → NextStore
unseen j = unknown

-- two loads, a store, whose access has reset an entry, and a load
abbrev ops : List Op
ops = access 101 ∷ access 101 ∷ access 102 ∷ reset 0 ∷ access 101 ∷ []

abbrev all_moves : List Move
all_moves = enter 1 1 ∷ enter 0 0 ∷ enter 2 2 ∷ leave 0 ∷ enter 2 2 ∷ leave 1 ∷ enter 2 2 ∷ []

-- A replay runs where the operations of the gate compute.
test_replay : ℕ → (ℕ → ℕ → ℕ) → List Op → (ℕ → NextStore) → List Move → Replay
unfolding log_ops log_op out_locked set_consecutive test_consecutive count_same reset_consecutive
    settle epoch_of moves move cc_in_pass out_replay cgate_init
test_replay = replay

-- Both loads are inside together, before either has left.
together : (test_replay 7 garbage ops unseen (enter 1 1 ∷ enter 0 0 ∷ [])).entered 0 ≡ true
unfolding test_replay
together = refl

-- The store waits for both.
store_waits :
    (test_replay 7 garbage ops unseen (enter 1 1 ∷ enter 0 0 ∷ leave 0 ∷ enter 2 2 ∷ [])).entered 2
    ≡ false
unfolding test_replay
store_waits = refl

conflict_order_example : (replay 7 garbage ops unseen all_moves).left 0 ≡ true
unfolding test_replay
conflict_order_example =
    conflict_order 7 garbage ops unseen 2 2 0 all_moves (omega arith) (omega arith) (omega arith)
      (λ e. omega (arith, e)) refl (omega arith)

replay_progress_example :
    (i : ℕ) × (i ≤ 2)
    × ((replay 7 garbage ops unseen (enter 1 1 ∷ [])).left i ≡ false)
    × (((replay 7 garbage ops unseen (enter 1 1 ∷ [])).entered i ≡ true)
        ⊎ ((tid : ℕ)
            → ((replay 7 garbage ops unseen (enter 1 1 ∷ [])).entered i ≡ false)
              × ((move 7
                      ((log 7 garbage ops unseen).state.gate.current_clocks 7)
                      (tickets (log 7 garbage ops unseen) unseen)
                      (enter tid i)
                      (replay 7 garbage ops unseen (enter 1 1 ∷ []))).entered
                    i
                  ≡ true)))
unfolding test_replay
replay_progress_example =
    replay_progress 7 garbage ops unseen 2 (enter 1 1 ∷ []) (omega arith) (omega arith) refl

tickets_after_change_example :
    (2 ≤ tickets (log_ops 7 ops (unlogged garbage)) unseen 3)
    × (tickets (log_ops 7 ops (unlogged garbage)) unseen 3 ≤ 3)
unfolding test_replay
tickets_after_change_example =
    tickets_after_change 7 garbage ops unseen 2 3 (omega arith) (omega arith) (omega arith)
      (omega arith) (λ e. omega (arith, e))
