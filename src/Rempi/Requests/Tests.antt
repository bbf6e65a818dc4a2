-- ===== src/Rempi/Requests/Tests.antt =====
-- The theorems on requests at concrete inputs, and runs of the request manager.
use mathlib.Core.Option.{some_inj}
use re_omp_llvm.Common.{
  subst, ℕ, ◌+◌, ◌-◌, ◌^◌, ◌≡◌, ◌↔◌, refl, true, false, none, some, List, [], ◌∷◌, ◌==◌,
  if◌then◌else◌, arith,
}
use re_omp_llvm.Rempi.Requests.{
  Requests, RecvArgs, matching_set_id_unknown, mpi_call_id_unknown, inconsistent_set,
  no_such_request, done, rempi_err, and_then,
}
use re_omp_llvm.Rempi.Requests.Table.{find, contains}
use re_omp_llvm.Rempi.Requests.Communicators.{
  id_of, comm_get_id, id_and_tag, get_msg_id, IsNumbered, get_msg_id-injective,
}
use re_omp_llvm.Rempi.Requests.Registration.{
  Posted, RequestType, recv_request, get_matching_id, get_recv_request_count, deregister_request,
}
use re_omp_llvm.Rempi.Requests.Sets.{mf_call}
use re_omp_llvm.Rempi.Requests.Assignment.{
  record_mode, replay_mode, test_id_0, Query, get_matching_set_id_3, register_request,
  map_comm_and_tag_to_matching_set_id,
}
use re_omp_llvm.Rempi.Requests.Kinds.{no_counts, get_info}
use re_omp_llvm.Rempi.Requests.Classification.{
  IsApart, request_types, counts_of, total, get_info_lem,
}
use re_omp_llvm.Rempi.Requests.RoundTrip.{deregister-register_request}
use re_omp_llvm.Rempi.Requests.Merging.{get_matching_set_id_map, set_matching_set_id_map}
use re_omp_llvm.Rempi.Requests.Merging.Agree.{Refines, Together}
use re_omp_llvm.Rempi.Requests.Merging.Export.{
  NodupKeys, get_matching_set_id_map-Together, set-get_matching_set_id_map,
}
use re_omp_llvm.Rempi.Requests.Replay.{AreOf, IsOneOf, replay-get_matching_set_id_3}

abbrev receive : (comm tag request call set : ℕ) → RecvArgs
receive comm tag request call set = record {
  buffer = 1;
  count = 4;
  datatype = 2;
  source = 3;
  tag = tag;
  comm = comm;
  request = request;
  mpi_call_id = call;
  matching_set_id = set;
}

abbrev nothing : Requests
nothing = record {
  request_to_recv_args = [];
  request_to_send_id = [];
  mpi_call_id_to_matching_set_id = [];
  comm_tag_to_matching_set_id = [];
  mpi_call_id_to_comm_tag = [];
  comm_names = [];
  next_comm_id = 1;
}

abbrev tags : List ℕ
tags = (2 ^ 32 + 7) ∷ (2 ^ 32 + 8) ∷ []

-- The communicator 70 has the number 1; the call 5 posted receives of the tags 7 and 8, and its set is 9.
abbrev recorded : Requests
recorded = record nothing {
  mpi_call_id_to_matching_set_id = (5, 9) ∷ (9, 9) ∷ [];
  comm_tag_to_matching_set_id = (2 ^ 32 + 7, 4) ∷ (2 ^ 32 + 6, 4) ∷ [];
  mpi_call_id_to_comm_tag = (5, tags) ∷ [];
  comm_names = (70, 1) ∷ [];
  next_comm_id = 2;
}

-- A replay has posted the receives 21 and 22 of these tags; 23 is a send.
abbrev replaying : Requests
replaying = record nothing {
  request_to_recv_args =
      (21, receive 70 7 21 5 matching_set_id_unknown)
      ∷ (22, receive 70 8 22 5 matching_set_id_unknown)
      ∷ [];
  request_to_send_id = (23, record { dest = 0; clock = 11 }) ∷ [];
  comm_names = (70, 1) ∷ [];
  next_comm_id = 2;
}

recorded-NodupKeys : NodupKeys recorded.comm_tag_to_matching_set_id
unfolding NodupKeys find
recorded-NodupKeys = (refl, (refl, tt))

recorded-IsNumbered : IsNumbered recorded
unfolding IsNumbered find
recorded-IsNumbered = (λ c id h. ground (arith, h), λ c d id h k. ground (arith, h, k))

get_msg_id-injective_example :
    (m : ℕ) × (n : ℕ) × (s' : Requests) × (s'' : Requests) × (get_msg_id 70 7 recorded
      ≡ done (m, s'))
    × (get_msg_id 80 7 s' ≡ done (n, s''))
    × ((m ≡ n) ↔ ((◌≡◌ {A = ℕ} 70 80) × (◌≡◌ {A = ℕ} 7 7)))
get_msg_id-injective_example =
    get_msg_id-injective 70 80 7 7 recorded (ground arith) (ground arith) (omega arith)
      (omega arith) (omega arith) recorded-IsNumbered

get_matching_set_id_map-Together_example :
    (msg_ids : List ℕ) × (set_ids : List ℕ) × (s' : Requests) × (get_matching_set_id_map true
        recorded
      ≡ done (msg_ids, set_ids, s'))
    × ((call set : ℕ)
        → find call recorded.mpi_call_id_to_matching_set_id ≡ some set
        → (v : ℕ) × Together
            (find call recorded.mpi_call_id_to_comm_tag)
            s'.comm_tag_to_matching_set_id
            v)
    × Refines recorded.comm_tag_to_matching_set_id s'.comm_tag_to_matching_set_id
get_matching_set_id_map-Together_example = get_matching_set_id_map-Together recorded

set-get_matching_set_id_map_example :
    (msg_ids : List ℕ) × (set_ids : List ℕ) × (s' : Requests) × (get_matching_set_id_map true
        recorded
      ≡ done (msg_ids, set_ids, s'))
    × ((m : ℕ)
        → find m (set_matching_set_id_map msg_ids set_ids replaying).comm_tag_to_matching_set_id
          ≡ find m s'.comm_tag_to_matching_set_id)
    × ((call set : ℕ)
        → find call recorded.mpi_call_id_to_matching_set_id ≡ some set
        → (v : ℕ) × Together
            (find call recorded.mpi_call_id_to_comm_tag)
            (set_matching_set_id_map msg_ids set_ids replaying).comm_tag_to_matching_set_id
            v)
set-get_matching_set_id_map_example =
    set-get_matching_set_id_map recorded replaying recorded-NodupKeys refl

-- what the replay asks about the three requests
abbrev wait_all : Query
wait_all = record {
  mpi_call_id = 6;
  mpi_call_type = mf_call;
  tag = 2 ^ 32 - 1;
  comm = 0;
  requests = 23 ∷ 21 ∷ 22 ∷ [];
  given = matching_set_id_unknown;
}

wait_all-AreOf : AreOf tags (23 ∷ 21 ∷ 22 ∷ []) replaying
unfolding AreOf IsOneOf find contains id_and_tag
wait_all-AreOf = (
  λ args h. ground (arith, h),
  (
    λ args h. subst (IsOneOf tags replaying) (some_inj.0 h) (ground arith, 1, refl, refl),
    (λ args h. subst (IsOneOf tags replaying) (some_inj.0 h) (ground arith, 1, refl, refl), tt),
  ),
)

replay-get_matching_set_id_3_example :
    (msg_ids : List ℕ) × (set_ids : List ℕ) × (s' : Requests) × (v : ℕ) × (get_matching_set_id_map
        true recorded
      ≡ done (msg_ids, set_ids, s'))
    × ((m : ℕ) → contains m tags ≡ true → find m s'.comm_tag_to_matching_set_id ≡ some v)
    × (get_matching_set_id_3 99 replay_mode wait_all
          (set_matching_set_id_map msg_ids set_ids replaying)
        ≡ done (v, mpi_call_id_unknown, set_matching_set_id_map msg_ids set_ids replaying))
unfolding find get_recv_request_count
replay-get_matching_set_id_3_example =
    replay-get_matching_set_id_3 99 recorded replaying wait_all 5 9 tags recorded-NodupKeys refl
      refl refl refl wait_all-AreOf

recorded-IsApart : IsApart replaying
unfolding IsApart find
recorded-IsApart = λ r. ground arith

get_info_lem_example :
    (get_info false 99 (23 ∷ 21 ∷ 99 ∷ 55 ∷ []) no_counts replaying
      ≡ and_then
          (request_types 99 (23 ∷ 21 ∷ 99 ∷ 55 ∷ []) replaying)
          (λ ts. done (ts, counts_of ts)))
    × ((ts : List RequestType)
        → request_types 99 (23 ∷ 21 ∷ 99 ∷ 55 ∷ []) replaying ≡ done ts
        → total (counts_of ts) ≡ 4)
get_info_lem_example = get_info_lem 99 (23 ∷ 21 ∷ 99 ∷ 55 ∷ []) replaying recorded-IsApart

-- A receive is posted on the communicator 70 where the call has no set yet.
abbrev posted : Posted
posted = record { buf = 1; count = 4; datatype = 2; rank = 3; tag = 8; comm = 70; request = 31 }

deregister-register_request_example :
    (set : ℕ) × (s' : Requests) × (s'' : Requests) × (register_request 99 test_id_0 record_mode 12
        100 posted recv_request replaying
      ≡ done (set, s'))
    × (get_matching_id 31 s' ≡ done (3, 8, 70))
    × (deregister_request 31 recv_request s' ≡ done s'')
    × ((r : ℕ)
        → find r s''.request_to_recv_args
          ≡ (if 31 == r then none else find r replaying.request_to_recv_args))
deregister-register_request_example =
    deregister-register_request 99 test_id_0 12 100 posted replaying (ground arith)

-- MPI_ANY_TAG, -1, hides the communicator.
any_tag_hides : get_msg_id 70 (2 ^ 32 - 1) recorded ≡ done (2 ^ 64 - 1, recorded)
unfolding get_msg_id comm_get_id id_of id_and_tag find and_then
any_tag_hides = refl

any_tag_hides_other : id_and_tag 2 (2 ^ 32 - 1) ≡ id_and_tag 1 (2 ^ 32 - 1)
unfolding id_and_tag
any_tag_hides_other = refl

-- Three calls: 5 and 15 have the set 9, 10 has the set 20, and a message of 5 was matched at 10 as well. In
-- this order of the walk, the messages of 5 and 15 end in different sets.
abbrev three_calls : Requests
three_calls = record nothing {
  mpi_call_id_to_matching_set_id = (5, 9) ∷ (10, 20) ∷ (15, 9) ∷ [];
  mpi_call_id_to_comm_tag =
      (5, (2 ^ 32 + 7) ∷ []) ∷ (10, (2 ^ 32 + 7) ∷ []) ∷ (15, (2 ^ 32 + 8) ∷ []) ∷ [];
  comm_names = (70, 1) ∷ [];
  next_comm_id = 2;
}

three_calls_run :
    get_matching_set_id_map true three_calls
    ≡ done (
      tags,
      20 ∷ 9 ∷ [],
      record three_calls { comm_tag_to_matching_set_id = (2 ^ 32 + 7, 20) ∷ (2 ^ 32 + 8, 9) ∷ [] },
    )
unfolding get_matching_set_id_map
three_calls_run = refl

-- A matching function that waited for both in the record ends the replay.
three_calls_replay :
    get_matching_set_id_3 99 replay_mode wait_all
      (set_matching_set_id_map tags (20 ∷ 9 ∷ []) replaying)
    ≡ rempi_err inconsistent_set
unfolding get_matching_set_id_3 set_matching_set_id_map
three_calls_replay = refl

-- A matching function in a record with a send and a receive of a new tag: the loop that notes the tags asks
-- for the arguments of the send.
map_with_send :
    map_comm_and_tag_to_matching_set_id (23 ∷ 21 ∷ []) 6 replaying ≡ rempi_err no_such_request
unfolding map_comm_and_tag_to_matching_set_id
map_with_send = refl
