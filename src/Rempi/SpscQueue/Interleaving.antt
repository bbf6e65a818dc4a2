-- ===== src/Rempi/SpscQueue/Interleaving.antt =====
-- A producer and a consumer of src/rempi/rempi_spsc_queue.h whose steps interleave.
use re_omp_llvm.Common.{ℕ, suc, none, some, List, [], ◌∷◌, ◌++◌}
use re_omp_llvm.Rempi.SpscQueue.{SpscQueue, spsc_queue, prepare, publish, finish, front, advance}

-- Where the producer stands in enqueue, and the consumer in dequeue.
pub data Producer : Type 0 where
  resting : Producer
  prepared : (node v : ℕ) → Producer
  published : (node : ℕ) → Producer

pub data Consumer : Type 0 where
  idle : Consumer
  loaded : (v : ℕ) → Consumer

-- `sent` are the values whose nodes became visible, and `got` those that dequeue has taken, in order;
-- `nulls` counts the calls that returned NULL.
pub record System : Type 0 where
  pub queue : SpscQueue
  pub producer : Producer
  pub consumer : Consumer
  pub sent : List ℕ
  pub got : List ℕ
  pub nulls : ℕ

-- The producer goes on, with `v` as the value of its next call; or the consumer goes on.
pub data Step : Type 0 where
  produce : (v : ℕ) → Step
  consume : Step

unfoldable pub produce_step : ℕ → Producer → System → System
unfolding prepare publish finish
produce_step v resting s =
    let (n, q) = prepare v s.queue in record s { queue = q; producer = prepared n v }
produce_step v (prepared n w) s = record s {
  queue = publish n s.queue;
  producer = published n;
  sent = s.sent ++ w ∷ [];
}
produce_step v (published n) s = record s { queue = finish n s.queue; producer = resting }

-- the load of the next node and its value, and then the store of the tail
unfoldable pub consume_step : Consumer → System → System
unfolding front advance
consume_step idle s = elim (front s.queue) [
  | none ↦ record s { nulls = suc s.nulls }
  | some v ↦ record s { consumer = loaded v }
]
consume_step (loaded v) s = record s {
  queue = advance s.queue;
  consumer = idle;
  got = s.got ++ v ∷ [];
}

unfoldable pub step : Step → System → System
unfolding produce_step consume_step
step (produce v) s = produce_step v s.producer s
step consume s = consume_step s.consumer s

unfoldable pub run : List Step → System → System
run [] s = s
run (t ∷ ts) s = run ts (step t s)

abbrev pub start : System
start = record {
  queue = spsc_queue;
  producer = resting;
  consumer = idle;
  sent = [];
  got = [];
  nulls = 0;
}
