-- ===== src/Rempi/Recorder/NextEvents.antt =====
-- get_next_events of src/rempi/rempi_recorder.cpp: the events of one call are taken from the list up to the
-- first that is not marked to have a next. Its inner loop asks again while the queue has none; here that is
-- the fuel, which counts calls of dequeue_replay.
use mathlib.Core.Option.{some_inj}
use re_omp_llvm.Common.{
  ℕ, zero, suc, ◌≡◌, ◌≢◌, ap, ap₂, subst, ◌≤◌, true, false, List, [], ◌∷◌, ◌++◌, map, ◌==◌,
  if◌then◌else◌, get_elem?, length, arith,
}
use re_omp_llvm.Rempi.Event.{Event, inputs}
use re_omp_llvm.Rempi.EventList.{
  EventList, Call, returns, waits, push_was_closed, event_error, Dequeued, empty, finish, dequeued,
  dequeue_replay,
}
use re_omp_llvm.Rempi.EventList.Replaying.{Ready, view, Gives, dequeue_replay-Gives}

-- what the calls so far have given
pub data Taken : Type 0 where
  complete : List Event → EventList → Taken
  unfinished : List Event → EventList → Taken
  ended : Taken

unfoldable pub put_first : Event → Taken → Taken
put_first e (complete es s) = complete (e ∷ es) s
put_first e (unfinished es s) = unfinished (e ∷ es) s
put_first e ended = ended

-- one call of dequeue_replay gave this; `rest` is what follows
unfoldable pub after_dequeue : Call (Dequeued × EventList) → (EventList → Taken) → Taken
unfolding put_first
after_dequeue (returns (empty, s)) rest = rest s
after_dequeue (returns (finish, s)) rest = rest s
after_dequeue (returns (dequeued e, s)) rest =
    if e.with_next == 1 then put_first e (rest s) else complete (e ∷ []) s
after_dequeue waits rest = ended
after_dequeue push_was_closed rest = ended
after_dequeue (event_error err) rest = ended

unfoldable pub get_next_events : (fuel matching_set_id : ℕ) → EventList → Taken
unfolding after_dequeue dequeue_replay
get_next_events zero id s = unfinished [] s
get_next_events (suc n) id s = after_dequeue (dequeue_replay id s) (get_next_events n id)

-- A set of events: all but the last are marked, and the last is not.
abbrev pub IsEventSet : List Event → Type 0
IsEventSet [] = ⊥
IsEventSet (e ∷ []) = e.with_next ≢ 1
IsEventSet (e ∷ f ∷ es) = (e.with_next ≡ 1) × IsEventSet (f ∷ es)

-- The calls give exactly these events, and the rest of the queue stays.
abbrev pub TakesSet : ℕ → List Event → List (List ℕ) → Taken → Type 0
TakesSet id es rest (complete taken s) =
    (map inputs taken ≡ map inputs es) × (q : List Event) × Ready id s q × (view id s q ≡ rest)
TakesSet id es rest (unfinished taken s) = ⊥
TakesSet id es rest ended = ⊥

same-with_next : (a e : Event) → inputs a ≡ inputs e → a.with_next ≡ e.with_next
same-with_next a e h = some_inj.0 (ap (λ l. get_elem? l 4) h)

-- a call that gave the last event
last_call :
    (id : ℕ) (s : EventList) (e : Event) (rest : List (List ℕ)) (c : Call (Dequeued × EventList))
    (k : EventList → Taken)
    → e.with_next ≢ 1
    → Gives id s (inputs e ∷ rest) c
    → TakesSet id (e ∷ []) rest (after_dequeue c k)
last_call id s e rest (returns (dequeued a, s')) k last (same, one, (q', ready, v, cl)) =
    let mark : (a.with_next == 1) ≡ false = ground (arith, same-with_next a e same, last) in
    unfold after_dequeue in rw mark (ap (λ x. x ∷ []) same, q', ready, v)
last_call id s e rest (returns (empty, s')) k last g = absurd g
last_call id s e rest (returns (finish, s')) k last g = absurd g
last_call id s e rest waits k last g = absurd g
last_call id s e rest push_was_closed k last g = absurd g
last_call id s e rest (event_error err) k last g = absurd g

put_first-TakesSet :
    (id : ℕ) (a e : Event) (es : List Event) (rest : List (List ℕ)) (t : Taken)
    → inputs a ≡ inputs e
    → TakesSet id es rest t
    → TakesSet id (e ∷ es) rest (put_first a t)
unfolding put_first
put_first-TakesSet id a e es rest (complete taken s) same (all, q, ready, v) =
    (ap₂ (λ x xs. x ∷ xs) same all, q, ready, v)
put_first-TakesSet id a e es rest (unfinished taken s) same h = absurd h
put_first-TakesSet id a e es rest ended same h = absurd h

-- a call that gave an event that has a next
marked_call :
    (id : ℕ) (s : EventList) (e : Event) (es : List Event) (xs rest : List (List ℕ))
    (c : Call (Dequeued × EventList)) (k : EventList → Taken)
    → e.with_next ≡ 1
    → ((s' : EventList) (q' : List Event)
        → Ready id s' q'
        → view id s' q' ≡ xs
        → TakesSet id es rest (k s'))
    → Gives id s (inputs e ∷ xs) c
    → TakesSet id (e ∷ es) rest (after_dequeue c k)
marked_call id s e es xs rest (returns (dequeued a, s')) k next go (same, one, (q', ready, v, cl)) =
    let mark : (a.with_next == 1) ≡ true = ground (arith, same-with_next a e same, next) in
    unfold after_dequeue in
    rw mark (put_first-TakesSet id a e es rest (k s') same (go s' q' ready v))
marked_call id s e es xs rest (returns (empty, s')) k next go g = absurd g
marked_call id s e es xs rest (returns (finish, s')) k next go g = absurd g
marked_call id s e es xs rest waits k next go g = absurd g
marked_call id s e es xs rest push_was_closed k next go g = absurd g
marked_call id s e es xs rest (event_error err) k next go g = absurd g

-- Where the queue of a matching set is ready (receive events that count one and test events that count at
-- least one and fewer than 2 ^ 31) and starts, its counted events written out, with an event set (events
-- marked to have a next, and a last one that is not), get_next_events ends after at most as many calls of
-- dequeue_replay as the set has events, gives events with the inputs of the set, in order, and leaves the
-- rest of the queue ready.
pub get_next_events-TakesSet :
    (fuel id : ℕ) (s : EventList) (q es : List Event) (rest : List (List ℕ))
    → length es ≤ fuel
    → IsEventSet es
    → Ready id s q
    → view id s q ≡ map inputs es ++ rest
    → TakesSet id es rest (get_next_events fuel id s)
unfolding get_next_events
get_next_events-TakesSet fuel id s q [] rest h set ready v = absurd set
get_next_events-TakesSet zero id s q (e ∷ es) rest h set ready v = ground arith
get_next_events-TakesSet (suc n) id s q (e ∷ []) rest h set ready v =
    last_call id s e rest (dequeue_replay id s) (get_next_events n id) set
      (subst (λ l. Gives id s l (dequeue_replay id s)) v (dequeue_replay-Gives id s q ready))
get_next_events-TakesSet (suc n) id s q (e ∷ f ∷ es) rest h (next, set) ready v =
    marked_call id s e (f ∷ es) (map inputs (f ∷ es) ++ rest) rest (dequeue_replay id s)
      (get_next_events n id) next
      (λ s' q'. get_next_events-TakesSet n id s' q' (f ∷ es) rest (omega arith) set)
      (subst (λ l. Gives id s l (dequeue_replay id s)) v (dequeue_replay-Gives id s q ready))
