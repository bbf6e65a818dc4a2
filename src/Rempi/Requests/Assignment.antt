-- ===== src/Rempi/Requests/Assignment.antt =====
-- rempi_reqmg_assign_and_get_matching_set_id of src/rempi/rempi_request_mg.cpp and what it calls to give a
-- call a matching set, and rempi_reqmg_register_request, which asks it for the set of a receive.
use re_omp_llvm.Common.{ℕ, Option, none, some, List, [], ◌∷◌, ◌==◌, if◌then◌else◌}
use re_omp_llvm.Rempi.Requests.{
  Requests, matching_set_id_unknown, mpi_call_id_unknown, no_such_set, inconsistent_assignment,
  no_such_mode, no_such_call_type, cannot_register, Outcome, done, rempi_err, and_then,
}
use re_omp_llvm.Rempi.Requests.Table.{find, insert}
use re_omp_llvm.Rempi.Requests.Communicators.{get_msg_id}
use re_omp_llvm.Rempi.Requests.Registration.{
  Posted, add_recv_args, register_send_request, get_matching_id, RequestType, send_request,
  recv_request, null_request_type, ignr_request,
}
use re_omp_llvm.Rempi.Requests.Sets.{
  CallType, send_call, recv_call, mf_call, add_comm_and_tag_to_mpi_call_id,
  get_matching_set_id_from, assign_matching_set_id_to_recv, get_matching_set_id_from_recv,
}

-- a round of the loop of map_comm_and_tag_to_matching_set_id, where `o` is the set of the message
unfoldable pub map_message : (matching_set_id msg_id : ℕ) → Option ℕ → Requests → Outcome Requests
unfolding insert
map_message set msg_id none s =
    done
      (record s { comm_tag_to_matching_set_id = insert msg_id set s.comm_tag_to_matching_set_id })
map_message set msg_id (some old) s =
    if old == set then done s else rempi_err inconsistent_assignment

-- map_comm_and_tag_to_matching_set_id
unfoldable pub map_comm_and_tag_to_matching_set_id :
    (requests : List ℕ) (matching_set_id : ℕ) → Requests → Outcome Requests
unfolding get_matching_id get_msg_id find map_message and_then
map_comm_and_tag_to_matching_set_id [] set s = done s
map_comm_and_tag_to_matching_set_id (r ∷ rs) set s =
    and_then (get_matching_id r s) (λ (source, tag, comm).
      and_then (get_msg_id comm tag s) (λ (msg_id, s').
        and_then (map_message set msg_id (find msg_id s'.comm_tag_to_matching_set_id) s')
          (map_comm_and_tag_to_matching_set_id rs set)))

-- rempi_mode: REMPI_ENV_REMPI_MODE_RECORD, REMPI_ENV_REMPI_MODE_REPLAY, or another number
pub data RunMode : Type 0 where
  record_mode replay_mode other_mode : RunMode

-- rempi_is_test_id
pub data TestId : Type 0 where
  test_id_0 test_id_1 test_id_2 test_id_3 other_test_id : TestId

-- What a call of a matching function, or a post, asks about; `given` is what matching_set_id points at.
pub record Query : Type 0 where
  pub mpi_call_id : ℕ
  pub mpi_call_type : CallType
  pub tag : ℕ
  pub comm : ℕ
  pub requests : List ℕ
  pub given : ℕ

-- the matching set, the number of the call and the state
abbrev pub Assigned : Type 0
Assigned = ℕ × ℕ × Requests

-- MPI_REQUEST_NULL
module _ (request_null : ℕ) where
  -- rempi_reqmg_assign_matching_set_id for a call without a set, where the receives have this set
  unfoldable pub assign_new :
      (mpi_call_id matching_set_id : ℕ) (requests : List ℕ) → Requests → Outcome (ℕ × Requests)
  unfolding insert assign_matching_set_id_to_recv and_then
  assign_new call set rs s =
      if set == matching_set_id_unknown
      then and_then
          (assign_matching_set_id_to_recv request_null call rs (record s {
            mpi_call_id_to_matching_set_id = insert call call s.mpi_call_id_to_matching_set_id;
          }))
          (λ s'. done (call, s'))
      else done (
        set,
        record s {
          mpi_call_id_to_matching_set_id = insert call set s.mpi_call_id_to_matching_set_id;
        },
      )

  -- rempi_reqmg_assign_matching_set_id: `o` is what the table holds of the call
  unfoldable pub assign_for :
      (mpi_call_id : ℕ) (requests : List ℕ) → Option ℕ → Requests → Outcome (ℕ × Requests)
  unfolding assign_matching_set_id_to_recv get_matching_set_id_from_recv assign_new and_then
  assign_for call rs (some set) s =
      and_then (assign_matching_set_id_to_recv request_null set rs s) (λ s'. done (set, s'))
  assign_for call rs none s =
      and_then (get_matching_set_id_from_recv rs s) (λ set. assign_new call set rs s)

  unfoldable pub assign_matching_set_id :
      (mpi_call_id : ℕ) (requests : List ℕ) → Requests → Outcome (ℕ × Requests)
  unfolding find assign_for
  assign_matching_set_id call rs s =
      assign_for call rs (find call s.mpi_call_id_to_matching_set_id) s

  -- rempi_reqmg_get_matching_set_id_0; the number of the call is not written
  unfoldable pub get_matching_set_id_0 : Requests → Outcome Assigned
  get_matching_set_id_0 s = done (0, mpi_call_id_unknown, s)

  -- the switch of rempi_reqmg_get_matching_set_id_1
  unfoldable pub assign_by_type : Query → CallType → Requests → Outcome (ℕ × Requests)
  unfolding assign_matching_set_id
  assign_by_type q send_call s = done (matching_set_id_unknown, s)
  assign_by_type q recv_call s = done (matching_set_id_unknown, s)
  assign_by_type q mf_call s = assign_matching_set_id q.mpi_call_id q.requests s

  -- the switch of rempi_reqmg_get_matching_set_id_3 where the messages have no set: `o` is what
  -- get_matching_set_id_from returns
  unfoldable pub assign_unless : Query → Option ℕ × Requests → Outcome (ℕ × Requests)
  unfolding assign_matching_set_id map_comm_and_tag_to_matching_set_id and_then
  assign_unless q (some set, s) = done (set, s)
  assign_unless q (none, s) =
      and_then (assign_matching_set_id q.mpi_call_id q.requests s) (λ (set, s').
        and_then (map_comm_and_tag_to_matching_set_id q.requests set s') (λ s''. done (set, s'')))

  unfoldable pub find_or_assign : Query → CallType → Requests → Outcome (ℕ × Requests)
  unfolding get_matching_set_id_from assign_unless and_then
  find_or_assign q send_call s = done (matching_set_id_unknown, s)
  find_or_assign q recv_call s = done (matching_set_id_unknown, s)
  find_or_assign q mf_call s =
      and_then (get_matching_set_id_from q.tag q.comm q.requests mf_call q.given s)
        (assign_unless q)

  -- what both do for a call that has a set: only a record gives it to the receives
  unfoldable pub known_set : RunMode → Query → (set : ℕ) → Requests → Outcome (ℕ × Requests)
  unfolding assign_matching_set_id_to_recv and_then
  known_set record_mode q set s =
      and_then (assign_matching_set_id_to_recv request_null set q.requests s) (λ s'. done (set, s'))
  known_set replay_mode q set s = done (set, s)
  known_set other_mode q set s = done (set, s)

  -- rempi_reqmg_get_matching_set_id_1, by what the table holds of the call
  unfoldable pub by_known_1 : RunMode → Query → Option ℕ → Requests → Outcome (ℕ × Requests)
  unfolding known_set assign_by_type
  by_known_1 mode q (some set) s = known_set mode q set s
  by_known_1 mode q none s = assign_by_type q q.mpi_call_type s

  unfoldable pub get_matching_set_id_1 : RunMode → Query → Requests → Outcome Assigned
  unfolding find by_known_1 and_then
  get_matching_set_id_1 mode q s =
      and_then (by_known_1 mode q (find q.mpi_call_id s.mpi_call_id_to_matching_set_id) s)
        (λ (set, s'). done (set, q.mpi_call_id, s'))

  -- rempi_reqmg_get_matching_set_id_2, which writes nothing
  unfoldable pub get_matching_set_id_2 : Query → CallType → Requests → Outcome Assigned
  get_matching_set_id_2 q recv_call s = done (q.given, mpi_call_id_unknown, s)
  get_matching_set_id_2 q mf_call s = done (q.given, mpi_call_id_unknown, s)
  get_matching_set_id_2 q send_call s = rempi_err no_such_call_type

  -- rempi_reqmg_get_matching_set_id_3: first a record notes the tag of a receive
  unfoldable pub note_tag : Query → CallType → Requests → Outcome Requests
  unfolding add_comm_and_tag_to_mpi_call_id
  note_tag q recv_call s = add_comm_and_tag_to_mpi_call_id q.mpi_call_id q.comm q.tag s
  note_tag q mf_call s = done s
  note_tag q send_call s = done s

  -- the rest of the record
  unfoldable pub by_known_3 : Query → Option ℕ → Requests → Outcome (ℕ × Requests)
  unfolding known_set find_or_assign
  by_known_3 q (some set) s = known_set record_mode q set s
  by_known_3 q none s = find_or_assign q q.mpi_call_type s

  -- a replay only looks the set up; the number of the call is -1
  unfoldable pub or_no_such_set : Option ℕ × Requests → Outcome Assigned
  or_no_such_set (none, s) = rempi_err no_such_set
  or_no_such_set (some set, s) = done (set, mpi_call_id_unknown, s)

  unfoldable pub get_matching_set_id_3 : RunMode → Query → Requests → Outcome Assigned
  unfolding find note_tag by_known_3 get_matching_set_id_from or_no_such_set and_then
  get_matching_set_id_3 record_mode q s = and_then (note_tag q q.mpi_call_type s) (λ s'.
      and_then (by_known_3 q (find q.mpi_call_id s'.mpi_call_id_to_matching_set_id) s')
        (λ (set, s''). done (set, q.mpi_call_id, s'')))
  get_matching_set_id_3 replay_mode q s =
      and_then (get_matching_set_id_from q.tag q.comm q.requests q.mpi_call_type q.given s)
        or_no_such_set
  get_matching_set_id_3 other_mode q s = rempi_err no_such_mode

  -- rempi_reqmg_assign_and_get_matching_set_id; the last case does not write the number of the call
  unfoldable pub assign_and_get_matching_set_id :
      TestId → RunMode → Query → Requests → Outcome Assigned
  unfolding get_matching_set_id_0 get_matching_set_id_1 get_matching_set_id_2 get_matching_set_id_3
  assign_and_get_matching_set_id test_id_0 mode q s = get_matching_set_id_0 s
  assign_and_get_matching_set_id test_id_1 mode q s = get_matching_set_id_3 mode q s
  assign_and_get_matching_set_id test_id_2 mode q s = get_matching_set_id_1 mode q s
  assign_and_get_matching_set_id test_id_3 mode q s = get_matching_set_id_2 q q.mpi_call_type s
  assign_and_get_matching_set_id other_test_id mode q s = done (0, mpi_call_id_unknown, s)

  -- rempi_reqmg_register_recv_request: the set of the receive and the state
  unfoldable pub register_recv_request :
      TestId → RunMode → (mpi_call_id : ℕ) → Posted → Requests → Outcome (ℕ × Requests)
  unfolding assign_and_get_matching_set_id add_recv_args and_then
  register_recv_request test_id mode call p s =
      and_then
        (assign_and_get_matching_set_id test_id mode
          (record {
            mpi_call_id = call;
            mpi_call_type = recv_call;
            tag = p.tag;
            comm = p.comm;
            requests = [];
            given = matching_set_id_unknown;
          })
          s)
        (λ (set, id, s'). done (set, add_recv_args p id set s'))

  -- rempi_reqmg_register_request: `clock` is the local clock
  unfoldable pub register_request :
      TestId
      → RunMode
      → (mpi_call_id clock : ℕ) → Posted
      → RequestType
      → Requests
      → Outcome (ℕ × Requests)
  unfolding register_recv_request register_send_request
  register_request test_id mode call clock p send_request s =
      done (matching_set_id_unknown, register_send_request p clock s)
  register_request test_id mode call clock p recv_request s =
      register_recv_request test_id mode call p s
  register_request test_id mode call clock p null_request_type s = rempi_err cannot_register
  register_request test_id mode call clock p ignr_request s = rempi_err cannot_register
