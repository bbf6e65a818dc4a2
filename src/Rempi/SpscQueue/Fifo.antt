-- ===== src/Rempi/SpscQueue/Fifo.antt =====
-- The queue of src/rempi/rempi_spsc_queue.h hands on every value once and in order, however its two
-- threads interleave.
use re_omp_llvm.Common.{
  ℕ, zero, suc, ◌+◌, ◌-◌, ◌%◌, ◌^◌, ◌≤◌, ◌<◌, ◌≡◌, refl, sym, ap, ◌∙◌, subst, none, some, List, [],
  ◌∷◌, ◌++◌, length, length-append, take, take-suc, get_elem?, get_elem?-append_left,
  get_elem?-append_last, update, update_self, update_ne, ◌==◌, ==_iff, Bool-cases, ◌⊎◌, inl, inr,
  arith,
}
use re_omp_llvm.Rempi.SpscQueue.{
  SpscQueue, spsc_queue, alloc_node, prepare, publish, finish, front, advance, rough_size,
}
use re_omp_llvm.Rempi.SpscQueue.Interleaving.{
  Producer, resting, prepared, published, Consumer, idle, loaded, System, Step, produce, consume,
  produce_step, consume_step, step, run, start,
}
use re_omp_llvm.Rempi.SpscQueue.Window.{Window, Free, alloc_node-Allocated}

-- What holds while the producer stands where it does.
abbrev Producing : Producer → SpscQueue → (f e : ℕ) → (ℕ → ℕ) → Type 0
Producing resting q f e node = (q.head ≡ node e) × (q.enqueue_count ≡ e % 2 ^ 64)
Producing (prepared n v) q f e node =
    (q.head ≡ node e)
    × (q.enqueue_count ≡ e % 2 ^ 64)
    × Free q f e node n
    × (q.next n ≡ 0)
    × (q.value n ≡ v)
Producing (published n) q f e node = (n ≡ node e) × ((q.enqueue_count + 1) % 2 ^ 64 ≡ e % 2 ^ 64)

abbrev Consuming : Consumer → List ℕ → (t e : ℕ) → Type 0
Consuming idle sent t e = Unit {0}
Consuming (loaded v) sent t e = (t < e) × (get_elem? sent t ≡ some v)

record Inv (s : System) : Type 0 where
  f : ℕ
  m : ℕ
  t : ℕ
  e : ℕ
  node : ℕ → ℕ
  window : Window s.queue f m t e node
  values : (i : ℕ) → t ≤ i → i < e → get_elem? s.sent i ≡ some (s.queue.value (node (suc i)))
  sent_length : length s.sent ≡ e
  taken : s.got ≡ take t s.sent
  dequeues : s.queue.dequeue_count ≡ t % 2 ^ 64
  producing : Producing s.producer s.queue f e node
  consuming : Consuming s.consumer s.sent t e

-- a free node is written
module _ (s : System) (inv : Inv s) where
  prepare-Inv :
      (v : ℕ)
      → s.producer ≡ resting
      → let p = alloc_node s.queue in
        Inv (record s {
          queue = record (p.1) { next = update p.1.next p.0 0; value = update p.1.value p.0 v };
          producer = prepared p.0 v;
        })
  prepare-Inv v at =
      let a = alloc_node-Allocated s.queue inv.f inv.m inv.t inv.e inv.node inv.window in
      let w = a.window in
      let n : ℕ = (alloc_node s.queue).0 in
      let rests = subst (λ p. Producing p s.queue inv.f inv.e inv.node) at inv.producing in
      record {
        f = a.from;
        m = a.copy;
        t = inv.t;
        e = inv.e;
        node = inv.node;
        window = record {
          at_first = w.at_first;
          at_copy = w.at_copy;
          at_tail = w.at_tail;
          ordered = w.ordered;
          linked = λ i h1 h2.
              update_ne (alloc_node s.queue).1.next n (inv.node i) 0
                (λ same. a.free.outside i h1 (omega arith) (sym same))
              ∙ w.linked i h1 h2;
          ended =
              update_ne (alloc_node s.queue).1.next n (inv.node inv.e) 0
                (λ same. a.free.outside inv.e (omega (arith, w.ordered)) (omega arith) (sym same))
              ∙ w.ended;
          alive = w.alive;
          apart = w.apart;
        };
        values = λ i h1 h2.
            inv.values i h1 h2
            ∙ ap some (
                ap (λ (g : ℕ → ℕ). g (inv.node (suc i))) (sym a.keeps.value)
                ∙ sym (
                    update_ne (alloc_node s.queue).1.value n (inv.node (suc i)) v (λ same.
                      a.free.outside (suc i) (omega (arith, w.ordered)) (omega arith) (sym same))));
        sent_length = inv.sent_length;
        taken = inv.taken;
        dequeues = a.keeps.dequeue_count ∙ inv.dequeues;
        producing = (
          a.keeps.head ∙ rests.0,
          a.keeps.enqueue_count ∙ rests.1,
          record { allocated = a.free.allocated; outside = a.free.outside },
          update_self (alloc_node s.queue).1.next n 0,
          update_self (alloc_node s.queue).1.value n v,
        );
        consuming = inv.consuming;
      }

  publish-Inv :
      (n v : ℕ)
      → s.producer ≡ prepared n v
      → Inv
          (record s { queue = publish n s.queue; producer = published n; sent = s.sent ++ v ∷ [] })
  unfolding publish
  publish-Inv n v at =
      let w = inv.window in
      let e : ℕ = inv.e in
      let (head, count, free, null, val) =
        subst (λ p. Producing p s.queue inv.f inv.e inv.node) at inv.producing in
      let node' : ℕ → ℕ = update inv.node (suc e) n in
      let old : (i : ℕ) → i ≤ e → node' i ≡ inv.node i =
        λ i h. update_ne inv.node (suc e) i n (λ same. omega (arith, same)) in
      let new : node' (suc e) ≡ n = update_self inv.node (suc e) n in
      let end_in : inv.f ≤ e = omega (arith, w.ordered) in
      record {
        f = inv.f;
        m = inv.m;
        t = inv.t;
        e = suc e;
        node = node';
        window = record {
          at_first = w.at_first ∙ sym (old inv.f end_in);
          at_copy = w.at_copy ∙ sym (old inv.m (omega (arith, w.ordered)));
          at_tail = w.at_tail ∙ sym (old inv.t (omega (arith, w.ordered)));
          ordered = omega (arith, w.ordered);
          linked = λ i h1 h2. elim (Bool-cases (i == e)) [
            | inl last ↦
                let at_e : i ≡ e = (==_iff i e).0 last in
                ap (update s.queue.next s.queue.head n)
                  (ap node' at_e ∙ old e (omega arith) ∙ sym head)
                ∙ update_self s.queue.next s.queue.head n
                ∙ sym new
                ∙ ap node' (ap suc (sym at_e))
            | inr within ↦
                let lt : i < e = ground arith in
                ap (update s.queue.next s.queue.head n) (old i (omega arith))
                ∙ update_ne s.queue.next s.queue.head (inv.node i) n
                    (λ same. w.apart i e h1 lt (omega arith) (sym same ∙ head))
                ∙ w.linked i h1 lt
                ∙ sym (old (suc i) (omega arith))
          ];
          ended =
              ap (update s.queue.next s.queue.head n) new
              ∙ update_ne s.queue.next s.queue.head n n
                  (λ same. free.outside e end_in (omega arith) (sym head ∙ same))
              ∙ null;
          alive = λ i h1 h2. elim (Bool-cases (i == suc e)) [
            | inl last ↦
                subst (λ x. (0 < x) × (x < s.queue.fresh))
                  (sym (ap node' ((==_iff i (suc e)).0 last) ∙ new)) free.allocated
            | inr within ↦
                subst (λ x. (0 < x) × (x < s.queue.fresh)) (sym (old i (ground arith)))
                  (w.alive i h1 (ground arith))
          ];
          apart = λ i j h1 h2 h3 same. elim (Bool-cases (j == suc e)) [
            | inl last ↦
                free.outside i h1 (ground arith)
                  (sym (old i (ground arith)) ∙ same ∙ ap node' ((==_iff j (suc e)).0 last) ∙ new)
            | inr within ↦
                w.apart i j h1 h2 (ground arith)
                  (sym (old i (ground arith)) ∙ same ∙ old j (ground arith))
          ];
        };
        values = λ i h1 h2. elim (Bool-cases (i == e)) [
          | inl last ↦
              let at_e : i ≡ e = (==_iff i e).0 last in
              ap (get_elem? (s.sent ++ v ∷ [])) (at_e ∙ sym inv.sent_length)
              ∙ get_elem?-append_last s.sent v
              ∙ ap some (sym val ∙ ap s.queue.value (sym new ∙ ap node' (ap suc (sym at_e))))
          | inr within ↦
              get_elem?-append_left s.sent (v ∷ []) i (ground (arith, inv.sent_length))
              ∙ inv.values i h1 (ground arith)
              ∙ ap (λ a. some (s.queue.value a)) (sym (old (suc i) (ground arith)))
        ];
        sent_length = omega (arith, length-append s.sent (v ∷ []), inv.sent_length);
        taken =
            inv.taken
            ∙ sym (take_left inv.t s.sent (v ∷ []) (omega (arith, w.ordered, inv.sent_length)));
        dequeues = inv.dequeues;
        producing = (sym new, ap (λ k. (k + 1) % 2 ^ 64) count ∙ omega arith);
        consuming = more s.consumer inv.consuming;
      }
    where
      take_left : (k : ℕ) (xs ys : List ℕ) → k ≤ length xs → take k (xs ++ ys) ≡ take k xs
      take_left zero xs ys h = refl
      take_left (suc k) [] ys h = absurd (omega arith)
      take_left (suc k) (x ∷ xs) ys h = ap (λ l. x ∷ l) (take_left k xs ys (omega arith))

      more :
          (c : Consumer)
          → Consuming c s.sent inv.t inv.e
          → Consuming c (s.sent ++ v ∷ []) inv.t (suc inv.e)
      more idle h = _
      more (loaded w) h = (
        omega (arith, h.0),
        get_elem?-append_left s.sent (v ∷ []) inv.t (omega (arith, h.0, inv.sent_length)) ∙ h.1,
      )

  finish-Inv :
      (n : ℕ)
      → s.producer ≡ published n
      → Inv (record s { queue = finish n s.queue; producer = resting })
  unfolding finish
  finish-Inv n at =
      let (newest, count) =
        subst (λ p. Producing p s.queue inv.f inv.e inv.node) at inv.producing in
      let w = inv.window in
      record {
        f = inv.f;
        m = inv.m;
        t = inv.t;
        e = inv.e;
        node = inv.node;
        window = record {
          at_first = w.at_first;
          at_copy = w.at_copy;
          at_tail = w.at_tail;
          ordered = w.ordered;
          linked = w.linked;
          ended = w.ended;
          alive = w.alive;
          apart = w.apart;
        };
        values = inv.values;
        sent_length = inv.sent_length;
        taken = inv.taken;
        dequeues = inv.dequeues;
        producing = (newest, count);
        consuming = inv.consuming;
      }

  -- The consumer sees a value exactly if one is left.
  front_cases :
      ((front s.queue ≡ none) × (inv.t ≡ inv.e))
      ⊎ ((v : ℕ) × (front s.queue ≡ some v) × (inv.t < inv.e) × (get_elem? s.sent inv.t ≡ some v))
  unfolding front
  front_cases = elim (Bool-cases (inv.t == inv.e)) [
    | inl all ↦
        let same : inv.t ≡ inv.e = (==_iff inv.t inv.e).0 all in
        let null : s.queue.next s.queue.tail ≡ 0 =
          ap s.queue.next (inv.window.at_tail ∙ ap inv.node same) ∙ inv.window.ended in
        inl (ground (arith, null), same)
    | inr left ↦
        let lt : inv.t < inv.e = ground (arith, inv.window.ordered) in
        let link : s.queue.next s.queue.tail ≡ inv.node (suc inv.t) =
          ap s.queue.next inv.window.at_tail
          ∙ inv.window.linked inv.t (omega (arith, inv.window.ordered)) lt in
        let live = inv.window.alive (suc inv.t) (omega (arith, inv.window.ordered)) (omega arith) in
        inr (
          s.queue.value (inv.node (suc inv.t)),
          ground (arith, link, live, ap s.queue.value link),
          lt,
          inv.values inv.t (omega arith) lt,
        )
  ]

  load-Inv :
      (v : ℕ)
      → inv.t < inv.e
      → get_elem? s.sent inv.t ≡ some v
      → Inv (record s { consumer = loaded v })
  load-Inv v lt there = record {
    f = inv.f;
    m = inv.m;
    t = inv.t;
    e = inv.e;
    node = inv.node;
    window = inv.window;
    values = inv.values;
    sent_length = inv.sent_length;
    taken = inv.taken;
    dequeues = inv.dequeues;
    producing = inv.producing;
    consuming = (lt, there);
  }

  null-Inv : Inv (record s { nulls = suc s.nulls })
  null-Inv = record {
    f = inv.f;
    m = inv.m;
    t = inv.t;
    e = inv.e;
    node = inv.node;
    window = inv.window;
    values = inv.values;
    sent_length = inv.sent_length;
    taken = inv.taken;
    dequeues = inv.dequeues;
    producing = inv.producing;
    consuming = inv.consuming;
  }

  advance-Inv :
      (v : ℕ)
      → s.consumer ≡ loaded v
      → Inv (record s { queue = advance s.queue; consumer = idle; got = s.got ++ v ∷ [] })
  unfolding advance
  advance-Inv v at =
      let (lt, there) = subst (λ c. Consuming c s.sent inv.t inv.e) at inv.consuming in
      let w = inv.window in
      record {
        f = inv.f;
        m = inv.m;
        t = suc inv.t;
        e = inv.e;
        node = inv.node;
        window = record {
          at_first = w.at_first;
          at_copy = w.at_copy;
          at_tail = ap s.queue.next w.at_tail ∙ w.linked inv.t (omega (arith, w.ordered)) lt;
          ordered = omega (arith, w.ordered);
          linked = w.linked;
          ended = w.ended;
          alive = w.alive;
          apart = w.apart;
        };
        values = λ i h1 h2. inv.values i (omega arith) h2;
        sent_length = inv.sent_length;
        taken = ap (λ l. l ++ v ∷ []) inv.taken ∙ sym (take-suc s.sent inv.t v there);
        dequeues = ap (λ k. (k + 1) % 2 ^ 64) inv.dequeues ∙ omega arith;
        producing = still s.producer inv.producing;
        consuming = _;
      }
    where
      still :
          (p : Producer)
          → Producing p s.queue inv.f inv.e inv.node
          → Producing p (advance s.queue) inv.f inv.e inv.node
      still resting h = h
      still (prepared n v) h =
          (h.0, h.1, record { allocated = h.2.allocated; outside = h.2.outside }, h.3, h.4)
      still (published n) h = h

produce-Inv :
    (v : ℕ) (p : Producer) (s : System) → s.producer ≡ p → Inv s → Inv (produce_step v p s)
unfolding produce_step prepare
produce-Inv v resting s at inv = prepare-Inv s inv v at
produce-Inv v (prepared n w) s at inv = publish-Inv s inv n w at
produce-Inv v (published n) s at inv = finish-Inv s inv n at

consume-Inv : (c : Consumer) (s : System) → s.consumer ≡ c → Inv s → Inv (consume_step c s)
unfolding consume_step
consume-Inv idle s at inv = elim (front_cases s inv) [
  | inl (null, all) ↦ rw (null, consume_step) (null-Inv s inv)
  | inr (v, seen, lt, there) ↦ rw (seen, consume_step) (load-Inv s inv v lt there)
]
consume-Inv (loaded v) s at inv = advance-Inv s inv v at

run-Inv : (ts : List Step) (s : System) → Inv s → Inv (run ts s)
unfolding run step
run-Inv [] s inv = inv
run-Inv (produce v ∷ ts) s inv =
    run-Inv ts (step (produce v) s) (produce-Inv v s.producer s refl inv)
run-Inv (consume ∷ ts) s inv = run-Inv ts (step consume s) (consume-Inv s.consumer s refl inv)

start-Inv : Inv start
unfolding spsc_queue
start-Inv = record {
  f = 0;
  m = 0;
  t = 0;
  e = 0;
  node = λ _. 1;
  window = record {
    at_first = refl;
    at_copy = refl;
    at_tail = refl;
    ordered = omega arith;
    linked = λ i h1 h2. absurd (omega arith);
    ended = refl;
    alive = λ i h1 h2. omega arith;
    apart = λ i j h1 h2 h3. absurd (omega arith);
  };
  values = λ i h1 h2. absurd (omega arith);
  sent_length = refl;
  taken = refl;
  dequeues = refl;
  producing = (refl, refl);
  consuming = _;
}

length-prefix : (k : ℕ) (xs : List ℕ) → k ≤ length xs → length (take k xs) ≡ k
length-prefix zero xs h = omega arith
length-prefix (suc k) [] h = absurd (omega arith)
length-prefix (suc k) (x ∷ xs) h = omega (arith, length-prefix k xs (omega arith))

-- Under every interleaving of a producer and a consumer, the values that dequeue has taken are the
-- first of those that enqueue has made visible, in order; a call of front or dequeue finds the next of
-- them, and NULL exactly if there is none; and where the producer is in no call, rough_size is the
-- number of those left, modulo 2 ^ 64.
pub fifo :
    (ts : List Step)
    → let s = run ts start in
      (s.got ≡ take (length s.got) s.sent)
      × (front s.queue ≡ get_elem? s.sent (length s.got))
      × (s.producer ≡ resting → rough_size s.queue ≡ (length s.sent - length s.got) % 2 ^ 64)
unfolding rough_size
fifo ts =
    let s : System = run ts start in
    let inv = run-Inv ts start start-Inv in
    let bound : inv.t ≤ length s.sent = omega (arith, inv.sent_length, inv.window.ordered) in
    let many : length s.got ≡ inv.t = ap length inv.taken ∙ length-prefix inv.t s.sent bound in
    (
      inv.taken ∙ ap (λ k. take k s.sent) (sym many),
      elim (front_cases s inv) [
        | inl (null, all) ↦
            null ∙ sym (past_end s.sent (length s.got) (omega (arith, many, all, inv.sent_length)))
        | inr (v, seen, lt, there) ↦ seen ∙ sym there ∙ ap (get_elem? s.sent) (sym many)
      ],
      λ at.
          let rests = subst (λ p. Producing p s.queue inv.f inv.e inv.node) at inv.producing in
          omega (arith, rests.1, inv.dequeues, many, inv.sent_length, bound),
    )
  where
    past_end : (xs : List ℕ) (k : ℕ) → length xs ≤ k → get_elem? xs k ≡ none
    past_end [] k h = refl
    past_end (x ∷ xs) zero h = absurd (omega arith)
    past_end (x ∷ xs) (suc k) h = past_end xs k (omega arith)
