-- ===== src/Rempi/EventList.antt =====
-- The event list between the MPI wrappers and the I/O thread (src/rempi/rempi_event_list.h and
-- rempi_event_list.cpp). A queue is the list of what it holds, the oldest first.
pub mod Recording
pub mod Replaying
use re_omp_llvm.Common.{
  ℕ, ◌+◌, ◌-◌, ◌%◌, ◌^◌, Bool, true, false, ◌&&◌, Option, none, some, List, [], ◌∷◌, ◌++◌, update,
  leb, ◌==◌, if◌then◌else◌, length,
}
use re_omp_llvm.Rempi.Event.{Event, EventError, Popped, whole, part, failed, bump, same_event, pop}

-- rempi_event_list; the maps `replay_events` and `previous_replaying_event_umap` have an entry at a
-- key or none.
pub record EventList : Type 0 where
  pub events : List Event
  pub replay_events : ℕ → Option (List Event)
  pub previous_recording_event : Option Event
  pub previous_replaying_event : ℕ → Option Event
  pub is_push_closed : Bool
  pub max_size : ℕ
  pub globally_minimal_clock : ℕ

unfoldable pub event_list : ℕ → EventList
event_list max_size = record {
  events = [];
  replay_events = λ _. none;
  previous_recording_event = none;
  previous_replaying_event = λ _. none;
  is_push_closed = false;
  max_size = max_size;
  globally_minimal_clock = 0;
}

-- What a call does: it returns, it waits until the queue has room, or it ends the process.
pub data Call (A : Type 0) : Type 0 where
  returns : A → Call A
  waits : Call A
  push_was_closed : Call A
  event_error : EventError → Call A

abbrev pub size : EventList → ℕ
size s = length s.events

unfoldable pub normal_push : Event → EventList → Call EventList
normal_push e s =
    if leb s.max_size (size s) then waits else returns (record s { events = s.events ++ e ∷ [] })

-- push, after the test for the first event
unfoldable pub push_after : Event → Event → EventList → Call EventList
push_after prev e s =
    if same_event prev e && (prev.matching_group_id == e.matching_group_id)
    then returns (record s { previous_recording_event = some (bump prev) })
    else if leb s.max_size (size s)
    then waits
    else returns (record s { events = s.events ++ prev ∷ []; previous_recording_event = some e })

unfoldable pub push : Event → EventList → Call EventList
unfolding push_after
push e s = if s.is_push_closed then push_was_closed else elim (s.previous_recording_event) [
  | none ↦ returns (record s { previous_recording_event = some e })
  | some prev ↦ push_after prev e s
]

-- push_all keeps previous_recording_event as it is, and closes the list.
abbrev pub closed : EventList → EventList
closed s = record s { is_push_closed = true; globally_minimal_clock = 2 ^ 64 - 1 }

unfoldable pub push_all : EventList → Call EventList
push_all s = if s.is_push_closed then push_was_closed else elim (s.previous_recording_event) [
  | none ↦ returns (closed s)
  | some prev ↦
      if leb s.max_size (size s)
      then waits
      else returns (closed (record s { events = s.events ++ prev ∷ [] }))
]

-- pop and front of the recording queue: `none` is NULL.
unfoldable pub pop_event : EventList → Option Event × EventList
pop_event s = elim (s.events) [ [] ↦ (none, s) | e ∷ es ↦ (some e, record s { events = es }) ]

unfoldable pub front : EventList → Option Event
front s = elim (s.events) [ [] ↦ none | e ∷ es ↦ some e ]

-- enqueue_replay makes the queue of a new key.
unfoldable pub queue_at : ℕ → EventList → List Event
queue_at id s = elim (s.replay_events id) [ none ↦ [] | some q ↦ q ]

unfoldable pub enqueue_replay : Event → ℕ → EventList → Call EventList
unfolding queue_at
enqueue_replay e id s =
    if leb s.max_size (length (queue_at id s))
    then waits
    else returns
        (record s { replay_events = update s.replay_events id (some (queue_at id s ++ e ∷ [])) })

unfoldable pub size_replay : ℕ → EventList → ℕ
unfolding queue_at
size_replay id s = length (queue_at id s)

-- the status that dequeue_replay returns with no event, and with one
pub data Dequeued : Type 0 where
  empty : Dequeued
  finish : Dequeued
  dequeued : Event → Dequeued

-- dequeue_replay from the point where it has an event: take one from it, and keep the rest.
unfoldable pub take_one : ℕ → Event → EventList → Call (Dequeued × EventList)
take_one id prev s = elim (pop prev) [
  | failed err ↦ event_error err
  | whole e ↦ returns (
    dequeued e,
    record s { previous_replaying_event = update s.previous_replaying_event id none },
  )
  | part e rest ↦ returns (
    dequeued e,
    record s { previous_replaying_event = update s.previous_replaying_event id (some rest) },
  )
]

-- dequeue_replay with no event at hand: `q` is the queue of the key
unfoldable pub take_next : ℕ → List Event → EventList → Call (Dequeued × EventList)
unfolding take_one
take_next id [] s = returns (if s.is_push_closed then finish else empty, s)
take_next id (e ∷ q) s =
    take_one id e (record s { replay_events = update s.replay_events id (some q) })

unfoldable pub dequeue_replay : ℕ → EventList → Call (Dequeued × EventList)
unfolding take_one take_next
dequeue_replay id s = elim (s.replay_events id) [
  | none ↦ returns (empty, s)
  | some q ↦ elim (s.previous_replaying_event id) [
    | some prev ↦ take_one id prev s
    | none ↦ take_next id q s
  ]
]
