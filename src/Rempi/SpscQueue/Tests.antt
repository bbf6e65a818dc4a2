-- ===== src/Rempi/SpscQueue/Tests.antt =====
-- Two values through the queue, and the theorem about it at that run.
use re_omp_llvm.Common.{
  ℕ, ◌-◌, ◌%◌, ◌^◌, ◌≡◌, refl, Option, some, List, [], ◌∷◌, length, take, get_elem?,
}
use re_omp_llvm.Rempi.SpscQueue.{
  SpscQueue, spsc_queue, alloc_node, prepare, publish, finish, enqueue, front, advance, dequeue,
  rough_size,
}
use re_omp_llvm.Rempi.SpscQueue.Interleaving.{
  resting, Step, produce, consume, produce_step, consume_step, step, run, start, System,
}
use re_omp_llvm.Rempi.SpscQueue.Fifo.{fifo}

-- The consumer looks before the first value is visible, and takes it while the second is prepared.
abbrev steps : List Step
steps =
    produce 7
    ∷ consume
    ∷ produce 0
    ∷ consume
    ∷ produce 0
    ∷ produce 8
    ∷ consume
    ∷ produce 0
    ∷ produce 0
    ∷ []

test_run : List Step → System
unfolding run step produce_step consume_step spsc_queue alloc_node prepare publish finish front
    advance
test_run ts = run ts start

first_taken : (test_run steps).got ≡ 7 ∷ []
unfolding test_run
first_taken = refl

test_calls : Option ℕ × SpscQueue
unfolding enqueue dequeue prepare alloc_node publish finish front advance spsc_queue
test_calls = dequeue (dequeue (enqueue 9 (enqueue 8 spsc_queue))).1

second_call : (test_calls).0 ≡ some 9
unfolding test_calls
second_call = refl

fifo_example :
    ((run steps start).got ≡ take (length (run steps start).got) (run steps start).sent)
    × (front (run steps start).queue
        ≡ get_elem? (run steps start).sent (length (run steps start).got))
    × ((run steps start).producer ≡ resting
        → rough_size (run steps start).queue
          ≡ (length (run steps start).sent - length (run steps start).got) % 2 ^ 64)
fifo_example = fifo steps
