-- ===== src/Rempi/Encoder/Writing/Pushes.antt =====
-- What a push, a close and a pop leave of the event list (src/rempi/rempi_event_list.cpp).
use re_omp_llvm.Common.{◌≡◌, refl, true, false, some, List, [], ◌∷◌, ◌++◌, ◌⊎◌, inl, inr, arith}
use re_omp_llvm.Rempi.Event.{Event}
use re_omp_llvm.Rempi.EventList.{
  EventList, Call, returns, waits, push_was_closed, event_error, push, push_after, push_all,
  pop_event,
}
use re_omp_llvm.Rempi.EventList.Recording.{Run, op, push_op, close_op}

-- What a push and a close leave, beside the events.
pub push_returns :
    (e : Event) (s s' : EventList)
    → push e s ≡ returns s'
    → (s'.is_push_closed ≡ false) × (s.is_push_closed ≡ false)
unfolding push push_after
push_returns e s s' h = (ground (arith, h), ground (arith, h))

pub push_result :
    (e : Event) (r : Run)
    → (op (push_op e) r ≡ r)
      ⊎ ((s' : EventList) × (push e r.list ≡ returns s')
          × (op (push_op e) r ≡ record r { list = s'; pushed = r.pushed ++ e ∷ [] }))
unfolding op
push_result e r = by_call (push e r.list) refl
  where
    by_call :
        (c : Call EventList)
        → push e r.list ≡ c
        → (op (push_op e) r ≡ r)
          ⊎ ((s' : EventList) × (push e r.list ≡ returns s')
              × (op (push_op e) r ≡ record r { list = s'; pushed = r.pushed ++ e ∷ [] }))
    by_call (returns s') h = inr (s', h, rw (h, op) refl)
    by_call waits h = inl (rw (h, op) refl)
    by_call push_was_closed h = inl (rw (h, op) refl)
    by_call (event_error x) h = inl (rw (h, op) refl)

pub close_result :
    (r : Run)
    → (op close_op r ≡ r)
      ⊎ ((s' : EventList) × (push_all r.list ≡ returns s')
          × (op close_op r ≡ record r { list = s' }))
unfolding op
close_result r = by_call (push_all r.list) refl
  where
    by_call :
        (c : Call EventList)
        → push_all r.list ≡ c
        → (op close_op r ≡ r)
          ⊎ ((s' : EventList) × (push_all r.list ≡ returns s')
              × (op close_op r ≡ record r { list = s' }))
    by_call (returns s') h = inr (s', h, rw (h, op) refl)
    by_call waits h = inl (rw (h, op) refl)
    by_call push_was_closed h = inl (rw (h, op) refl)
    by_call (event_error x) h = inl (rw (h, op) refl)

pub push_all_returns :
    (s s' : EventList)
    → push_all s ≡ returns s'
    → (s'.is_push_closed ≡ true) × (s.is_push_closed ≡ false)
unfolding push_all
push_all_returns s s' h = (ground (arith, h), ground (arith, h))

pub pop_event_eq :
    (s : EventList) (e : Event) (es : List Event)
    → s.events ≡ e ∷ es
    → pop_event s ≡ (some e, record s { events = es })
unfolding pop_event
pop_event_eq s e es was = ground (arith, was)
