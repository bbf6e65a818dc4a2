-- ===== src/Rempi/Tests.antt =====
-- Recordings and replays of a few events, and the theorems about them at those.
use re_omp_llvm.Common.{ℕ, ◌^◌, ◌≡◌, refl, some, List, [], ◌∷◌, ◌++◌, map, inl, arith}
use re_omp_llvm.Rempi.Event.{Event, inputs, create_test_event, bump, same_event}
use re_omp_llvm.Rempi.EventList.{
  EventList, event_list, push, push_after, push_all, pop_event, dequeue_replay,
}
use re_omp_llvm.Rempi.EventList.Recording.{
  Op, push_op, pop_op, close_op, run_ops, op, fresh, counting, expand_all, recording_lossless,
}
use re_omp_llvm.Rempi.EventList.Replaying.{view, Gives, dequeue_replay-Gives}
use re_omp_llvm.Rempi.Compression.{compress_by_linear_prediction, decompress_by_linear_prediction}
use re_omp_llvm.Rempi.Compression.Prediction.{decompress-compress_by_linear_prediction}

decompress-compress_by_linear_prediction_example :
    decompress_by_linear_prediction
      (2 ^ 32)
      (compress_by_linear_prediction (2 ^ 32) (10 ∷ 12 ∷ 7 ∷ []))
    ≡ 10 ∷ 12 ∷ 7 ∷ []
decompress-compress_by_linear_prediction_example =
    decompress-compress_by_linear_prediction (2 ^ 32) (10 ∷ 12 ∷ 7 ∷ []) (omega arith)
      (omega arith, (omega arith, (omega arith, _)))

-- an unmatched test, and a matched one
abbrev unmatched : Event
unmatched = create_test_event 1 0 0 0 0 0 4

abbrev matched : Event
matched = create_test_event 1 1 2 0 0 7 4

-- the same event twice, then another
abbrev ops : List Op
ops = push_op unmatched ∷ push_op unmatched ∷ push_op matched ∷ pop_op ∷ close_op ∷ []

test_ops : List Op → ℕ → List Event
unfolding run_ops op event_list push push_after push_all pop_event same_event bump
test_ops os n = (run_ops os (fresh n)).popped

counted_twice : test_ops ops 10 ≡ create_test_event 2 0 0 0 0 0 4 ∷ []
unfolding test_ops
counted_twice = refl

recording_lossless_example :
    let r = run_ops ops (fresh 10) in
    expand_all (r.popped ++ (r.list.events ++ counting r.list)) ≡ map inputs r.pushed
recording_lossless_example = recording_lossless 10 ops (refl, (refl, (refl, _))) (omega arith)

-- a list that holds a test event of count 2 under the key 4
abbrev loaded : EventList
loaded = record (event_list 10) { replay_events = λ _. some (create_test_event 2 0 0 0 0 0 4 ∷ []) }

dequeue_replay-Gives_example :
    Gives 4 loaded (view 4 loaded (create_test_event 2 0 0 0 0 0 4 ∷ [])) (dequeue_replay 4 loaded)
unfolding event_list
dequeue_replay-Gives_example =
    dequeue_replay-Gives 4 loaded (create_test_event 2 0 0 0 0 0 4 ∷ [])
      (record { key = refl; queue = (inl (refl, omega arith, omega arith), _); current = _ })
