-- ===== src/Rempi/SpscQueue.antt =====
-- The queue of one producer and one consumer (src/rempi/rempi_spsc_queue.h), on a heap of nodes. An
-- address is a number, and 0 is NULL. Enqueue and dequeue are split at their accesses of what both
-- threads share.
pub mod Interleaving
pub mod Window
pub mod Fifo
mod Tests
use re_omp_llvm.Common.{
  ℕ, ◌+◌, ◌-◌, ◌%◌, ◌^◌, Option, none, some, List, [], ◌∷◌, ◌++◌, update, ◌==◌, if◌then◌else◌,
}

-- rempi_spsc_queue, with the fields of its nodes by address; `fresh` is the address that `new` gives.
pub record SpscQueue : Type 0 where
  pub next : ℕ → ℕ
  pub value : ℕ → ℕ
  pub fresh : ℕ
  pub tail : ℕ
  pub head : ℕ
  pub first : ℕ
  pub tail_copy : ℕ
  pub enqueue_count : ℕ
  pub dequeue_count : ℕ

-- the constructor
unfoldable pub spsc_queue : SpscQueue
spsc_queue = record {
  next = λ _. 0;
  value = λ _. 0;
  fresh = 2;
  tail = 1;
  head = 1;
  first = 1;
  tail_copy = 1;
  enqueue_count = 0;
  dequeue_count = 0;
}

unfoldable pub rough_size : SpscQueue → ℕ
rough_size q = (q.enqueue_count + 2 ^ 64 - q.dequeue_count) % 2 ^ 64

-- the node that is taken from the cache
abbrev pub pop_first : SpscQueue → ℕ × SpscQueue
pop_first q = (q.first, record q { first = q.next q.first })

abbrev pub new_node : SpscQueue → ℕ × SpscQueue
new_node q = (q.fresh, record q { fresh = q.fresh + 1 })

-- alloc_node: from the cache, from the cache after a look at the tail, or from the heap
unfoldable pub alloc_node : SpscQueue → ℕ × SpscQueue
alloc_node q =
    if q.first == q.tail_copy
    then (if q.first == q.tail
        then new_node (record q { tail_copy = q.tail })
        else pop_first (record q { tail_copy = q.tail }))
    else pop_first q

-- enqueue up to the store that makes the node visible
unfoldable pub prepare : ℕ → SpscQueue → ℕ × SpscQueue
unfolding alloc_node
prepare v q =
    let (n, q') = alloc_node q in
    (n, record q' { next = update q'.next n 0; value = update q'.value n v })

-- store_release(&head_->next_, n), and the rest of enqueue
unfoldable pub publish : ℕ → SpscQueue → SpscQueue
publish n q = record q { next = update q.next q.head n }

unfoldable pub finish : ℕ → SpscQueue → SpscQueue
finish n q = record q { enqueue_count = (q.enqueue_count + 1) % 2 ^ 64; head = n }

unfoldable pub enqueue : ℕ → SpscQueue → SpscQueue
unfolding prepare publish finish
enqueue v q = let (n, q') = prepare v q in finish n (publish n q')

-- The store of dequeue that gives the node up, and the count.
unfoldable pub advance : SpscQueue → SpscQueue
advance q = record q { tail = q.next q.tail; dequeue_count = (q.dequeue_count + 1) % 2 ^ 64 }

-- `none` is NULL.
unfoldable pub front : SpscQueue → Option ℕ
front q = if q.next q.tail == 0 then none else some (q.value (q.next q.tail))

unfoldable pub dequeue : SpscQueue → Option ℕ × SpscQueue
unfolding front advance
dequeue q = elim (front q) [ none ↦ (none, q) | some v ↦ (some v, advance q) ]
