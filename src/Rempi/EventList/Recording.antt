-- ===== src/Rempi/EventList/Recording.antt =====
-- Recording through the event list (push, push_all and pop of src/rempi/rempi_event_list.cpp): equal
-- events are counted, and none is lost or reordered.
pub mod Push
pub use Push.{single, expand, counting, held, expand_all-append}
unfoldable pub use Push.{expand_all}
use re_omp_llvm.Common.{
  ℕ, zero, suc, ◌+◌, ◌%◌, ◌^◌, ◌≤◌, ◌<◌, ◌≡◌, refl, sym, ap, ◌∙◌, Bool, true, false, ◌&&◌, Option,
  none, some, List, [], ◌∷◌, ◌++◌, append_assoc, append-nil, map, map-append, length, length-append,
  replicate, leb, ◌==◌, if◌then◌else◌, ◌⊎◌, inl, inr, Bool-cases, subst, arith,
}
use re_omp_llvm.Rempi.Event.{Event, inputs, bump, same_event}
use re_omp_llvm.Rempi.EventList.{
  EventList, event_list, Call, returns, waits, push_was_closed, event_error, push_after, push,
  push_all, pop_event, closed,
}
use Push.{Keeps, push-Keeps, expand_one, pop_event_held, Closes, push_all-Closes}

-- An operation of a run: the recorder pushes, the I/O thread pops, and the run is closed.
pub data Op : Type 0 where
  push_op : Event → Op
  pop_op : Op
  close_op : Op

-- A run keeps what was popped and which pushes returned, in order. An operation that waits changes
-- nothing, and is tried again by a later one; so is one that ends the process.
pub record Run : Type 0 where
  pub list : EventList
  pub popped : List Event
  pub pushed : List Event

unfoldable pub op : Op → Run → Run
op (push_op e) r = elim (push e r.list) [
  | returns s ↦ record r { list = s; pushed = r.pushed ++ e ∷ [] }
  | _ ↦ r
]
op pop_op r =
    let (o, s) = pop_event r.list in
    elim o [ none ↦ r | some e ↦ record r { list = s; popped = r.popped ++ e ∷ [] } ]
op close_op r = elim (push_all r.list) [ returns s ↦ record r { list = s } | _ ↦ r ]

unfoldable pub run_ops : List Op → Run → Run
run_ops [] r = r
run_ops (o ∷ ops) r = run_ops ops (op o r)

abbrev pub fresh : ℕ → Run
fresh max_size = record { list = event_list max_size; popped = []; pushed = [] }

-- Each push is of one event.
abbrev pub Singles : List Op → Type 0
Singles [] = Unit {0}
Singles (push_op e ∷ ops) = (e.event_count ≡ 1) × Singles ops
Singles (pop_op ∷ ops) = Singles ops
Singles (close_op ∷ ops) = Singles ops

pub record Inv (r : Run) : Type 0 where
  pub kept : expand_all r.popped ++ held r.list ≡ map inputs r.pushed
  pub counted :
      (p : Event) → r.list.previous_recording_event ≡ some p → p.event_count ≤ length r.pushed

module _ (r : Run) (inv : Inv r) where
  pub push-Inv :
      (e : Event) → e.event_count ≡ 1 → length r.pushed + 1 < 2 ^ 31 → Inv (op (push_op e) r)
  unfolding op
  push-Inv e one small =
      by_call (push e r.list) refl (push-Keeps e r.list (length r.pushed) one inv.counted small)
    where
      by_call :
          (c : Call EventList)
          → push e r.list ≡ c
          → Keeps e r.list (length r.pushed) c
          → Inv (op (push_op e) r)
      by_call (returns s') h k =
          rw (h, op)
            (record {
              kept =
                  ap (λ l. expand_all r.popped ++ l) k.0
                  ∙ sym (append_assoc (expand_all r.popped) (held r.list) (inputs e ∷ []))
                  ∙ ap (λ l. l ++ inputs e ∷ []) inv.kept
                  ∙ sym (map-append inputs r.pushed (e ∷ []));
              counted = λ p q. omega (arith, k.1 p q, length-append r.pushed (e ∷ []));
            })
      by_call waits h k = rw (h, op) inv
      by_call push_was_closed h k = rw (h, op) inv
      by_call (event_error x) h k = rw (h, op) inv

  pub pop_eq :
      (e : Event) (s' : EventList)
      → pop_event r.list ≡ (some e, s')
      → op pop_op r ≡ record r { list = s'; popped = r.popped ++ e ∷ [] }
  unfolding op
  pop_eq e s' h = ground arith

  pop_none : pop_event r.list ≡ (none, r.list) → op pop_op r ≡ r
  unfolding op
  pop_none h = rw (h, op)

  -- the popped event leaves the queue
  pop_kept :
      (e : Event) (es : List Event)
      → r.list.events ≡ e ∷ es
      → expand_all (e ∷ []) ++ held (record (r.list) { events = es }) ≡ held r.list
  unfolding expand_all
  pop_kept e es was =
      ap (λ l. l ++ held (record (r.list) { events = es })) (expand_one e)
      ∙ sym (ap (λ q. expand_all (q ++ counting r.list)) was)

  pub pop-Inv : Inv (op pop_op r)
  pop-Inv = elim (pop_event_held r.list) [
    | inl h ↦ subst Inv (sym (pop_none h)) inv
    | inr (e, es, h, was) ↦ subst Inv (sym (pop_eq e (record (r.list) { events = es }) h)) (record {
      kept =
          ap (λ l. l ++ held (record (r.list) { events = es }))
            (expand_all-append r.popped (e ∷ []))
          ∙ append_assoc (expand_all r.popped) (expand_all (e ∷ []))
              (held (record (r.list) { events = es }))
          ∙ ap (λ l. expand_all r.popped ++ l) (pop_kept e es was)
          ∙ inv.kept;
      counted = inv.counted;
    })
  ]

  pub close-Inv : Inv (op close_op r)
  unfolding op
  close-Inv = by_call (push_all r.list) refl (push_all-Closes r.list)
    where
      by_call : (c : Call EventList) → push_all r.list ≡ c → Closes r.list c → Inv (op close_op r)
      by_call (returns s') h k =
          rw (h, op)
            (record {
              kept = ap (λ l. expand_all r.popped ++ expand_all l) k.0 ∙ inv.kept;
              counted = λ p q. inv.counted p (sym k.1 ∙ q);
            })
      by_call waits h k = rw (h, op) inv
      by_call push_was_closed h k = rw (h, op) inv
      by_call (event_error x) h k = rw (h, op) inv

pub fresh-Inv : (max_size : ℕ) → Inv (fresh max_size)
unfolding event_list expand_all
fresh-Inv max_size = record { kept = refl; counted = λ p h. cc }

pub length-pushed : (o : Op) (r : Run) → length (op o r).pushed ≤ length r.pushed + 1
unfolding op
length-pushed (push_op e) r = by_call (push e r.list) refl
  where
    by_call :
        (c : Call EventList)
        → push e r.list ≡ c
        → length (op (push_op e) r).pushed ≤ length r.pushed + 1
    by_call (returns s') h = rw (h, op) (omega (arith, length-append r.pushed (e ∷ [])))
    by_call waits h = rw (h, op) (omega arith)
    by_call push_was_closed h = rw (h, op) (omega arith)
    by_call (event_error x) h = rw (h, op) (omega arith)
length-pushed pop_op r = ground arith
length-pushed close_op r = by_call (push_all r.list) refl
  where
    by_call :
        (c : Call EventList)
        → push_all r.list ≡ c
        → length (op close_op r).pushed ≤ length r.pushed + 1
    by_call (returns s') h = rw (h, op) (omega arith)
    by_call waits h = rw (h, op) (omega arith)
    by_call push_was_closed h = rw (h, op) (omega arith)
    by_call (event_error x) h = rw (h, op) (omega arith)

op-Inv :
    (o : Op) (ops : List Op) (r : Run)
    → Singles (o ∷ ops)
    → length r.pushed + 1 < 2 ^ 31
    → Inv r
    → Inv (op o r) × Singles ops
op-Inv (push_op e) ops r ones small inv = (push-Inv r inv e ones.0 small, ones.1)
op-Inv pop_op ops r ones small inv = (pop-Inv r inv, ones)
op-Inv close_op ops r ones small inv = (close-Inv r inv, ones)

run_ops-Inv :
    (ops : List Op) (r : Run)
    → Singles ops
    → length r.pushed + length ops < 2 ^ 31
    → Inv r
    → Inv (run_ops ops r)
unfolding run_ops
run_ops-Inv [] r ones small inv = inv
run_ops-Inv (o ∷ ops) r ones small inv =
    let (inv', ones') = op-Inv o ops r ones (omega arith) inv in
    run_ops-Inv ops (op o r) ones' (omega (arith, length-pushed o r)) inv'

-- After fewer than 2 ^ 31 pushes, pops and closes of a new list, in any order, where each pushed
-- event counts one: the events popped so far and those still held, each taken as often as it counts,
-- are exactly the events whose push returned, in order.
pub recording_lossless :
    (max_size : ℕ) (ops : List Op)
    → Singles ops
    → length ops < 2 ^ 31
    → let r = run_ops ops (fresh max_size) in
      expand_all (r.popped ++ (r.list.events ++ counting r.list)) ≡ map inputs r.pushed
recording_lossless max_size ops ones small =
    let r = run_ops ops (fresh max_size) in
    expand_all-append r.popped (r.list.events ++ counting r.list)
    ∙ (run_ops-Inv ops (fresh max_size) ones (omega arith) (fresh-Inv max_size)).kept
