-- ===== src/Rempi/Event.antt =====
-- MPI events (src/rempi/rempi_event.h and rempi_event.cpp). An `int` is its 32-bit pattern.
use re_omp_llvm.Common.{ℕ, ◌+◌, ◌-◌, ◌%◌, ◌^◌, Bool, ◌&&◌, List, [], ◌∷◌, leb, ◌==◌, if◌then◌else◌}

-- rempi_event: the eight entries of `mpi_inputs` in index order, and the fields beside the vector.
pub record Event : Type 0 where
  pub event_count : ℕ
  pub type : ℕ
  pub flag : ℕ
  pub rank : ℕ
  pub with_next : ℕ
  pub index : ℕ
  pub msg_id : ℕ
  pub matching_group_id : ℕ
  pub clock_order : ℕ
  pub msg_count : ℕ
  pub request : ℕ

abbrev pub type_recv : ℕ
type_recv = 1

abbrev pub type_test : ℕ
type_test = 2

-- the pattern of -1, which clock_order and msg_count have at first
abbrev pub minus_one : ℕ
minus_one = 2 ^ 32 - 1

-- the vector `mpi_inputs`, which serialize copies
abbrev pub inputs : Event → List ℕ
inputs e =
    e.event_count ∷ e.type ∷ e.flag ∷ e.rank ∷ e.with_next ∷ e.index ∷ e.msg_id
    ∷ e.matching_group_id ∷ []

abbrev pub create_recv_event : (source request : ℕ) → Event
create_recv_event source request = record {
  event_count = 1;
  type = type_recv;
  flag = 0;
  rank = source;
  with_next = 0;
  index = 0;
  msg_id = 0;
  matching_group_id = 0;
  clock_order = minus_one;
  msg_count = minus_one;
  request = request;
}

abbrev pub create_test_event :
    (event_count flag rank with_next index msg_id matching_id : ℕ) → Event
create_test_event event_count flag rank with_next index msg_id matching_id = record {
  event_count = event_count;
  type = type_test;
  flag = flag;
  rank = rank;
  with_next = with_next;
  index = index;
  msg_id = msg_id;
  matching_group_id = matching_id;
  clock_order = minus_one;
  msg_count = minus_one;
  request = 0;
}

-- operator ++
unfoldable pub bump : Event → Event
bump e = record e { event_count = (e.event_count + 1) % 2 ^ 32 }

-- operator ==: two test events that agree at the indices 1 to 6; not in the count, nor in the
-- matching group
unfoldable pub same_event : Event → Event → Bool
same_event a b =
    (a.type == type_test)
    && ((b.type == type_test)
        && ((a.type == b.type)
            && ((a.flag == b.flag)
                && ((a.rank == b.rank)
                    && ((a.with_next == b.with_next)
                        && ((a.index == b.index) && (a.msg_id == b.msg_id)))))))

pub data EventError : Type 0 where
  negative_count recv_count no_such_type : EventError

-- What pop returns: the event itself, or a copy with count 1 and the event that stays.
pub data Popped : Type 0 where
  whole : Event → Popped
  part : (copy rest : Event) → Popped
  failed : EventError → Popped

abbrev pub is_negative : ℕ → Bool
is_negative n = leb (2 ^ 31) n

unfoldable pub pop_test : Event → Popped
pop_test e =
    if e.event_count == 1
    then whole e
    else part
        (record (create_test_event 1 e.flag e.rank e.with_next e.index e.msg_id
          e.matching_group_id) { clock_order = e.clock_order; msg_count = e.msg_count })
        (record e { event_count = (e.event_count + 2 ^ 32 - 1) % 2 ^ 32 })

unfoldable pub pop : Event → Popped
unfolding pop_test
pop e =
    if is_negative e.event_count
    then failed negative_count
    else if e.type == type_recv
    then (if e.event_count == 1 then whole e else failed recv_count)
    else if e.type == type_test
    then pop_test e
    else failed no_such_type
