-- ===== src/Gate/Tid/Replay.antt =====
-- Threads that pass the thread-id gate in replay mode, under any schedule.
use re_omp_llvm.Common.{
  ℕ, zero, suc, ◌+◌, ◌≡◌, refl, sym, ap, ◌∙◌, subst, true, false, Option, none, some, List, [], ◌∷◌,
  ◌++◌, get_elem?, length, take, take-suc, ◌==◌, ==_iff, Bool-cases, inl, inr, arith,
}
use re_omp_llvm.Gate.Defs.{replaying, Error, incr32}
use re_omp_llvm.Gate.Tid.{
  Tgate, tgate_init, is_thread, In, nested, entered, again, in_error, replay_round, tgate_in,
  tgate_leave, tgate_out,
}

-- A thread tries the gate once, or the thread that is inside leaves its innermost passage.
pub data Move : Type 0 where
  try : (tid lock_id : ℕ) → Move
  leave : (lock_id : ℕ) → Move

-- The gate, and the threads that got in from outside, in order.
pub record Run : Type 0 where
  pub gate : Tgate
  pub order : List ℕ

unfoldable pub move : Move → Run → Run
unfolding tgate_in tgate_out
move (try tid lock_id) r = elim (tgate_in replaying tid lock_id r.gate) [
  | nested g ↦ record r { gate = g }
  | entered g ↦ record { gate = g; order = r.order ++ tid ∷ [] }
  | again g ↦ record r { gate = g }
  | in_error e ↦ r
]
move (leave lock_id) r = elim (r.gate.current_tid) [
  | none ↦ r
  | some tid ↦ record r { gate = tgate_out replaying tid lock_id r.gate }
]

unfoldable pub moves : List Move → Run → Run
moves [] r = r
moves (m ∷ ms) r = moves ms (move m r)

-- The gate is free, a thread is named and expected, or it is inside.
data Stage (ws : List ℕ) (r : Run) : Type 0 where
  free :
      r.gate.file_read_mutex ≡ false
      → r.gate.replay_thread_num ≡ none
      → r.gate.current_tid ≡ none
      → r.order ≡ take r.gate.fp.pos ws
      → Stage ws r
  named :
      (t p : ℕ)
      → r.gate.file_read_mutex ≡ true
      → r.gate.replay_thread_num ≡ some t
      → r.gate.current_tid ≡ none
      → r.gate.fp.pos ≡ p + 1
      → get_elem? ws p ≡ some t
      → r.order ≡ take p ws
      → Stage ws r
  held :
      (t : ℕ)
      → r.gate.file_read_mutex ≡ true
      → r.gate.replay_thread_num ≡ some t
      → r.gate.current_tid ≡ some t
      → r.order ≡ take r.gate.fp.pos ws
      → Stage ws r

record Inv (ws : List ℕ) (r : Run) : Type 0 where
  words : r.gate.fp.words ≡ ws
  stage : Stage ws r

-- an attempt by a thread that is not inside
module _ (ws : List ℕ) (tid l : ℕ) (r : Run) (inv : Inv ws r) where
  abbrev after_try : In → Run
  after_try (nested g) = record r { gate = g }
  after_try (entered g) = record { gate = g; order = r.order ++ tid ∷ [] }
  after_try (again g) = record r { gate = g }
  after_try (in_error e) = r

  try_eq : (i : In) → tgate_in replaying tid l r.gate ≡ i → move (try tid l) r ≡ after_try i
  unfolding move
  try_eq (nested g) h = rw (h, move) refl
  try_eq (entered g) h = rw (h, move) refl
  try_eq (again g) h = rw (h, move) refl
  try_eq (in_error e) h = rw (h, move) refl

  in_outside :
      is_thread r.gate.current_tid tid ≡ false
      → tgate_in replaying tid l r.gate ≡ replay_round tid r.gate
  unfolding tgate_in
  in_outside out = rw (out, tgate_in) refl

  in_nested :
      is_thread r.gate.current_tid tid ≡ true
      → tgate_in replaying tid l r.gate
        ≡ nested (record (r.gate) { nest_num = incr32 r.gate.nest_num })
  unfolding tgate_in
  in_nested itself = rw (itself, tgate_in) refl

  try_outside :
      is_thread r.gate.current_tid tid ≡ false
      → (i : In) → replay_round tid r.gate ≡ i
      → move (try tid l) r ≡ after_try i
  try_outside out i h = try_eq i (in_outside out ∙ h)

  -- the thread that is named gets in
  enters :
      (t p : ℕ)
      → r.gate.file_read_mutex ≡ true
      → r.gate.replay_thread_num ≡ some t
      → r.gate.current_tid ≡ none
      → r.gate.fp.pos ≡ p + 1
      → get_elem? ws p ≡ some t
      → r.order ≡ take p ws
      → Inv ws (move (try tid l) r)
  unfolding replay_round
  enters t p m n c pos word ord = elim (Bool-cases (t == tid)) [
    | inl its_turn ↦
        subst (Inv ws)
          (sym (
            try_outside (ap (λ o. is_thread o tid) c)
              (entered (record (r.gate) { current_tid = some tid })) (rw (n, its_turn) refl)))
          (record {
            words = inv.words;
            stage = held tid m (n ∙ ap some ((==_iff t tid).0 its_turn)) refl (
                ap (λ o. o ++ tid ∷ []) ord
                ∙ sym (take-suc ws p tid (word ∙ ap some ((==_iff t tid).0 its_turn)))
                ∙ ap (λ k. take k ws) {x = suc p} (omega (arith, pos)));
          })
    | inr other ↦
        subst (Inv ws)
          (sym (try_outside (ap (λ o. is_thread o tid) c) (again (r.gate)) (rw (n, other, m) refl)))
          inv
  ]

  -- a thread that finds the gate free reads the next id
  reads_next :
      r.gate.file_read_mutex ≡ false
      → r.gate.replay_thread_num ≡ none
      → r.gate.current_tid ≡ none
      → r.order ≡ take r.gate.fp.pos ws
      → (o : Option ℕ) → get_elem? r.gate.fp.words r.gate.fp.pos ≡ o
      → Inv ws (move (try tid l) r)
  unfolding replay_round
  reads_next m n c ord none h =
      subst (Inv ws)
        (sym (
          try_outside (ap (λ o. is_thread o tid) c) (in_error Error.end_of_record)
            (rw (n, m, h) refl)))
        inv
  reads_next m n c ord (some t) h =
      subst (Inv ws)
        (sym (
          try_outside (ap (λ o. is_thread o tid) c)
            (again (record (r.gate) {
              file_read_mutex = true;
              replay_thread_num = some t;
              fp = record (r.gate.fp) { pos = r.gate.fp.pos + 1 };
            }))
            (rw (n, m, h) refl)))
        (record {
          words = inv.words;
          stage =
              named t (r.gate.fp.pos) refl refl c refl
                (ap (λ w. get_elem? w r.gate.fp.pos) (sym inv.words) ∙ h) ord;
        })

  -- the thread inside nests, and any other waits
  stays :
      (t : ℕ)
      → r.gate.file_read_mutex ≡ true
      → r.gate.replay_thread_num ≡ some t
      → r.gate.current_tid ≡ some t
      → r.order ≡ take r.gate.fp.pos ws
      → Inv ws (move (try tid l) r)
  unfolding replay_round
  stays t m n c ord = elim (Bool-cases (t == tid)) [
    | inl itself ↦
        subst (Inv ws)
          (sym (
            try_eq (nested (record (r.gate) { nest_num = incr32 r.gate.nest_num }))
              (in_nested (ap (λ o. is_thread o tid) c ∙ itself))))
          (record { words = inv.words; stage = held t m n c ord })
    | inr other ↦
        subst (Inv ws)
          (sym (
            try_outside (ap (λ o. is_thread o tid) c ∙ other) (again (r.gate))
              (rw (n, other, m) refl)))
          inv
  ]

  try-Inv : Inv ws (move (try tid l) r)
  try-Inv = elim (inv.stage) [
    | free m n c ord ↦ reads_next m n c ord (get_elem? r.gate.fp.words r.gate.fp.pos) refl
    | named t p m n c pos word ord ↦ enters t p m n c pos word ord
    | held t m n c ord ↦ stays t m n c ord
  ]

module _ (ws : List ℕ) (l : ℕ) (r : Run) (inv : Inv ws r) where
  abbrev after_leave : Option ℕ → Run
  after_leave none = r
  after_leave (some t) = record r { gate = tgate_out replaying t l r.gate }

  left_state : move (leave l) r ≡ after_leave r.gate.current_tid
  unfolding move
  left_state = cases r.gate.current_tid refl
    where
      cases :
          (o : Option ℕ)
          → r.gate.current_tid ≡ o
          → move (leave l) r ≡ after_leave r.gate.current_tid
      cases none h = ground arith
      cases (some t) h = ground arith

  leave_nobody : r.gate.current_tid ≡ none → move (leave l) r ≡ r
  leave_nobody c = left_state ∙ ap after_leave c

  leave_eq :
      (t : ℕ)
      → r.gate.current_tid ≡ some t
      → move (leave l) r ≡ record r { gate = tgate_out replaying t l r.gate }
  leave_eq t c = left_state ∙ ap after_leave c

  leave-Inv : Inv ws (move (leave l) r)
  unfolding tgate_out tgate_leave
  leave-Inv = elim (inv.stage) [
    | free m n c ord ↦ subst (Inv ws) (sym (leave_nobody c)) inv
    | named t p m n c pos word ord ↦ subst (Inv ws) (sym (leave_nobody c)) inv
    | held t m n c ord ↦
        subst (Inv ws) (sym (leave_eq t c)) (elim (Bool-cases (r.gate.nest_num == 0)) [
          | inl outermost ↦
              rw outermost (record { words = inv.words; stage = free refl refl refl ord })
          | inr inner ↦ rw inner (record { words = inv.words; stage = held t m n c ord })
        ])
  ]

moves-Inv : (ws : List ℕ) (ms : List Move) (r : Run) → Inv ws r → Inv ws (moves ms r)
unfolding moves
moves-Inv ws [] r inv = inv
moves-Inv ws (try tid l ∷ ms) r inv = moves-Inv ws ms (move (try tid l) r) (try-Inv ws tid l r inv)
moves-Inv ws (leave l ∷ ms) r inv = moves-Inv ws ms (move (leave l) r) (leave-Inv ws l r inv)

prefix_of : (ws : List ℕ) (n : ℕ) (xs : List ℕ) → xs ≡ take n ws → xs ≡ take (length xs) ws
prefix_of ws n xs h = h ∙ take_own n ws ∙ ap (λ k. take k ws) (ap length (sym h))
  where
    take_own : (n : ℕ) (ws : List ℕ) → take n ws ≡ take (length (take n ws)) ws
    take_own zero ws = refl
    take_own (suc n) [] = refl
    take_own (suc n) (w ∷ ws) = ap (λ l. w ∷ l) (take_own n ws)

-- In a replay by a file of thread ids, whatever the order in which threads try the gate and the
-- thread inside leaves, nested passages included, the threads have got in in the order of the file, up
-- to where the replay stands.
pub tid_order :
    (ws : List ℕ) (ms : List Move)
    → let order = (moves ms (record { gate = tgate_init ws; order = [] })).order in
      order ≡ take (length order) ws
unfolding tgate_init
tid_order ws ms =
    let r : Run = moves ms (record { gate = tgate_init ws; order = [] }) in
    let inv =
      moves-Inv ws ms (record { gate = tgate_init ws; order = [] })
        (record { words = refl; stage = free refl refl refl refl }) in
    elim (inv.stage) [
      | free m n c ord ↦ prefix_of ws r.gate.fp.pos r.order ord
      | named t p m n c pos word ord ↦ prefix_of ws p r.order ord
      | held t m n c ord ↦ prefix_of ws r.gate.fp.pos r.order ord
    ]
