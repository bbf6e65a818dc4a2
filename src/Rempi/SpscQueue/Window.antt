-- ===== src/Rempi/SpscQueue/Window.antt =====
-- The nodes of the queue of src/rempi/rempi_spsc_queue.h in the order in which they were linked, from
-- the first of the cache to the last that is visible.
use re_omp_llvm.Common.{
  ℕ, suc, ◌+◌, ◌≤◌, ◌<◌, ◌≡◌, ◌≢◌, refl, sym, ap, ◌∙◌, subst, false, ◌==◌, ==_iff, Bool-cases, inl,
  inr, arith,
}
use re_omp_llvm.Rempi.SpscQueue.{SpscQueue, pop_first, new_node, alloc_node}

-- `node i` is the address of the i-th node that was ever linked: the cache begins at `f`, the copy of
-- the tail is at `m`, the tail at `t`, and the newest node at `e`.
pub record Window (q : SpscQueue) (f m t e : ℕ) (node : ℕ → ℕ) : Type 0 where
  pub at_first : q.first ≡ node f
  pub at_copy : q.tail_copy ≡ node m
  pub at_tail : q.tail ≡ node t
  pub ordered : (f ≤ m) × (m ≤ t) × (t ≤ e)
  pub linked : (i : ℕ) → f ≤ i → i < e → q.next (node i) ≡ node (suc i)
  pub ended : q.next (node e) ≡ 0
  pub alive : (i : ℕ) → f ≤ i → i ≤ e → (0 < node i) × (node i < q.fresh)
  pub apart : (i j : ℕ) → f ≤ i → i < j → j ≤ e → node i ≢ node j

-- A node that is allocated and stands outside the window.
pub record Free (q : SpscQueue) (f e : ℕ) (node : ℕ → ℕ) (n : ℕ) : Type 0 where
  pub allocated : (0 < n) × (n < q.fresh)
  pub outside : (i : ℕ) → f ≤ i → i ≤ e → node i ≢ n

-- What alloc_node leaves alone.
pub record Keeps (q q' : SpscQueue) : Type 0 where
  pub value : q'.value ≡ q.value
  pub head : q'.head ≡ q.head
  pub tail : q'.tail ≡ q.tail
  pub enqueue_count : q'.enqueue_count ≡ q.enqueue_count
  pub dequeue_count : q'.dequeue_count ≡ q.dequeue_count

-- What allocating gives: a free node, and a window that may begin one later.
pub record Allocated (q : SpscQueue) (f t e : ℕ) (node : ℕ → ℕ) (p : ℕ × SpscQueue) : Type 0 where
  pub from : ℕ
  pub copy : ℕ
  pub later : f ≤ from
  pub window : Window p.1 from copy t e node
  pub free : Free p.1 from e node p.0
  pub keeps : Keeps q p.1

module _ (f m t e : ℕ) (node : ℕ → ℕ) where
  -- the first of the cache, where the cache is not empty
  pop_first-Allocated :
      (q : SpscQueue) → Window q f m t e node → f < m → Allocated q f t e node (pop_first q)
  pop_first-Allocated q w lt = record {
    from = f + 1;
    copy = m;
    later = omega arith;
    window = record {
      at_first =
          ap q.next w.at_first
          ∙ w.linked f (omega arith) (omega (arith, w.ordered))
          ∙ ap node (omega arith);
      at_copy = w.at_copy;
      at_tail = w.at_tail;
      ordered = omega (arith, w.ordered);
      linked = λ i h1 h2. w.linked i (omega arith) h2;
      ended = w.ended;
      alive = λ i h1 h2. w.alive i (omega arith) h2;
      apart = λ i j h1 h2 h3. w.apart i j (omega arith) h2 h3;
    };
    free = record {
      allocated =
          subst (λ n. (0 < n) × (n < q.fresh)) (sym w.at_first)
            (w.alive f (omega arith) (omega (arith, w.ordered)));
      outside =
          λ i h1 h2 same. w.apart f i (omega arith) (omega arith) h2 (sym w.at_first ∙ sym same);
    };
    keeps = record {
      value = refl;
      head = refl;
      tail = refl;
      enqueue_count = refl;
      dequeue_count = refl;
    };
  }

  new_node-Allocated : (q : SpscQueue) → Window q f m t e node → Allocated q f t e node (new_node q)
  new_node-Allocated q w = record {
    from = f;
    copy = m;
    later = omega arith;
    window = record {
      at_first = w.at_first;
      at_copy = w.at_copy;
      at_tail = w.at_tail;
      ordered = w.ordered;
      linked = w.linked;
      ended = w.ended;
      alive = λ i h1 h2. omega (arith, w.alive i h1 h2);
      apart = w.apart;
    };
    free = record {
      allocated = omega (arith, w.alive f (omega arith) (omega (arith, w.ordered)));
      outside = λ i h1 h2 same. omega (arith, w.alive i h1 h2, same);
    };
    keeps = record {
      value = refl;
      head = refl;
      tail = refl;
      enqueue_count = refl;
      dequeue_count = refl;
    };
  }

  recopied :
      (q : SpscQueue)
      → Window q f m t e node
      → Window (record q { tail_copy = q.tail }) f t t e node
  recopied q w = record {
    at_first = w.at_first;
    at_copy = w.at_tail;
    at_tail = w.at_tail;
    ordered = omega (arith, w.ordered);
    linked = w.linked;
    ended = w.ended;
    alive = w.alive;
    apart = w.apart;
  }

-- two places of the window whose addresses differ
before :
    (q : SpscQueue) (f m t e k : ℕ) (node : ℕ → ℕ) (a b : ℕ)
    → a ≡ node f
    → b ≡ node k
    → f ≤ k
    → (a == b) ≡ false
    → f < k
before q f m t e k node a b ha hb le ne = elim (Bool-cases (f == k)) [
  | inl same ↦ absurd (ground (arith, ha, hb, ap node ((==_iff f k).0 same)))
  | inr other ↦ ground arith
]

pub alloc_node-Allocated :
    (q : SpscQueue) (f m t e : ℕ) (node : ℕ → ℕ)
    → Window q f m t e node
    → Allocated q f t e node (alloc_node q)
unfolding alloc_node
alloc_node-Allocated q f m t e node w = elim (Bool-cases (q.first == q.tail_copy)) [
  | inr cached ↦ rw cached (
      pop_first-Allocated f m t e node q w
        (before q f m t e m node q.first q.tail_copy w.at_first w.at_copy w.ordered.0 cached))
  | inl empty ↦ elim (Bool-cases (q.first == q.tail)) [
    | inl none_left ↦
        rw (empty, none_left)
          (fresh_one (
            new_node-Allocated f t t e node (record q { tail_copy = q.tail })
              (recopied f m t e node q w)))
    | inr freed ↦
        rw (empty, freed)
          (cached_one (
            pop_first-Allocated f t t e node (record q { tail_copy = q.tail })
              (recopied f m t e node q w)
              (before q f m t e t node q.first q.tail w.at_first w.at_tail
                (omega (arith, w.ordered)) freed)))
  ]
]
  where
    fresh_one :
        Allocated
          (record q { tail_copy = q.tail })
          f
          t
          e
          node
          (new_node (record q { tail_copy = q.tail }))
        → Allocated q f t e node (new_node (record q { tail_copy = q.tail }))
    fresh_one a = record {
      from = a.from;
      copy = a.copy;
      later = a.later;
      window = a.window;
      free = a.free;
      keeps = record {
        value = refl;
        head = refl;
        tail = refl;
        enqueue_count = refl;
        dequeue_count = refl;
      };
    }

    cached_one :
        Allocated
          (record q { tail_copy = q.tail })
          f
          t
          e
          node
          (pop_first (record q { tail_copy = q.tail }))
        → Allocated q f t e node (pop_first (record q { tail_copy = q.tail }))
    cached_one a = record {
      from = a.from;
      copy = a.copy;
      later = a.later;
      window = a.window;
      free = a.free;
      keeps = record {
        value = refl;
        head = refl;
        tail = refl;
        enqueue_count = refl;
        dequeue_count = refl;
      };
    }
