-- ===== src/Gate/Tid/Tests.antt =====
-- Two threads at the thread-id gate, and the theorem about them at those.
use re_omp_llvm.Common.{ℕ, ◌≡◌, refl, List, [], ◌∷◌, length, take}
use re_omp_llvm.Gate.Tid.{tgate_init, tgate_in, tgate_out, tgate_leave, replay_round}
use re_omp_llvm.Gate.Tid.Replay.{Move, try, leave, move, moves, tid_order}

-- thread 0 tries first, and the file names thread 1
abbrev tries : List Move
tries = try 0 7 ∷ try 0 7 ∷ try 1 7 ∷ try 1 8 ∷ leave 8 ∷ leave 7 ∷ try 0 7 ∷ try 0 7 ∷ []

test_order : List ℕ → List Move → List ℕ
unfolding moves move tgate_init tgate_in tgate_out tgate_leave replay_round
test_order ws ms = (moves ms (record { gate = tgate_init ws; order = [] })).order

thread_1_first : test_order (1 ∷ 0 ∷ 1 ∷ []) tries ≡ 1 ∷ 0 ∷ []
unfolding test_order
thread_1_first = refl

tid_order_example :
    let order = (moves tries (record { gate = tgate_init (1 ∷ 0 ∷ 1 ∷ []); order = [] })).order in
    order ≡ take (length order) (1 ∷ 0 ∷ 1 ∷ [])
tid_order_example = tid_order (1 ∷ 0 ∷ 1 ∷ []) tries
