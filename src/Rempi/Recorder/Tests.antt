-- ===== src/Rempi/Recorder/Tests.antt =====
-- The theorems on matching functions at concrete inputs, and runs of record_mf.
use re_omp_llvm.Common.{
  ◌++◌, ◌+◌, ◌≢◌, ℕ, ◌-◌, ◌^◌, ◌≡◌, inl, refl, false, Option, none, some, List, [], ◌∷◌, update,
  arith,
}
use mathlib.Core.Option.{some_inj}
use re_omp_llvm.Rempi.Event.{Event, inputs, create_test_event, create_recv_event}
use re_omp_llvm.Rempi.EventList.{EventList, event_list}
use re_omp_llvm.Rempi.EventList.Recording.{expand_all}
use re_omp_llvm.Rempi.EventList.Replaying.{Ready}
use re_omp_llvm.Rempi.Requests.{no_recv_event, Requests, RecvArgs, Outcome, done, rempi_err}
use re_omp_llvm.Rempi.Requests.Table.{find}
use re_omp_llvm.Rempi.Requests.Registration.{Posted, RequestType, recv_request}
use re_omp_llvm.Rempi.Requests.Assignment.{record_mode, test_id_0}
use re_omp_llvm.Rempi.Requests.Kinds.{Settings, other_encode}
use re_omp_llvm.Rempi.Recorder.{testsome, waitsome, Status, Recorder, record_set, record_mf}
use re_omp_llvm.Rempi.Recorder.Input.{is_asked_for, outcount_of}
use re_omp_llvm.Rempi.Recorder.NextEvents.{get_next_events, TakesSet, get_next_events-TakesSet}
use re_omp_llvm.Rempi.Recorder.Posts.{record_irecv, record_cancel}
use re_omp_llvm.Rempi.Recorder.Posts.Known.{record_irecv-KindOk}
use re_omp_llvm.Rempi.Recorder.Replay.{replay_recorded, Replays, record_set-replay_recorded}
use re_omp_llvm.Rempi.Recorder.RecordSet.{KindOk, Apart, AllApart, AllOk}
use re_omp_llvm.Rempi.Recorder.SameMatches.{ReplayOk, Later, ReplayAll}

abbrev matched_event : (with_next index : ℕ) → Event
matched_event with_next index = create_test_event 1 1 5 with_next index 0 9

-- the queue of the matching set 9: two events of one call, and one of another
abbrev queued : List Event
queued = matched_event 1 2 ∷ matched_event 0 0 ∷ matched_event 0 1 ∷ []

abbrev replaying : EventList
replaying = record (event_list 100) { replay_events = update (λ _. none) 9 (some queued) }

replaying-Ready : Ready 9 replaying queued
unfolding event_list expand_all
replaying-Ready = record {
  key = refl;
  queue = (
    inl (refl, omega arith, omega arith),
    (inl (refl, omega arith, omega arith), (inl (refl, omega arith, omega arith), tt)),
  );
  current = tt;
}

get_next_events-TakesSet_example :
    TakesSet 9
      (matched_event 1 2 ∷ matched_event 0 0 ∷ [])
      (inputs (matched_event 0 1) ∷ [])
      (get_next_events 2 9 replaying)
unfolding event_list expand_all
get_next_events-TakesSet_example =
    get_next_events-TakesSet 2 9 replaying queued (matched_event 1 2 ∷ matched_event 0 0 ∷ [])
      (inputs (matched_event 0 1) ∷ []) (omega arith) (refl, ground arith) replaying-Ready refl

abbrev receive : (tag request : ℕ) → RecvArgs
receive tag request = record {
  buffer = 1;
  count = 4;
  datatype = 2;
  source = 2 ^ 32 - 1;
  tag = tag;
  comm = 70;
  request = request;
  mpi_call_id = 5;
  matching_set_id = 9;
}

-- The requests 41 and 42 are receives of the tags 7 and 8.
abbrev tables : Requests
tables = record {
  request_to_recv_args = (41, receive 7 41) ∷ (42, receive 8 42) ∷ [];
  request_to_send_id = [];
  mpi_call_id_to_matching_set_id = (6, 9) ∷ [];
  comm_tag_to_matching_set_id = [];
  mpi_call_id_to_comm_tag = [];
  comm_names = (70, 1) ∷ [];
  next_comm_id = 2;
}

abbrev recorder : Recorder
recorder = record {
  requests = tables;
  request_to_recv_event = (41, 0) ∷ (42, 1) ∷ [];
  recv_rank = λ _. 0;
  tmp_statuses = 0 ∷ 0 ∷ [];
}

-- MPI_Waitsome matched the second receive and then the first.
abbrev first_status : Status
first_status = record { mpi_source = 3; mpi_tag = 8 }

abbrev second_status : Status
second_status = record { mpi_source = 5; mpi_tag = 7 }

abbrev answers : ℕ → Status
answers = update (λ _. second_status) 42 first_status

abbrev kinds : List RequestType
kinds = recv_request ∷ recv_request ∷ []

recorder-AllOk : AllOk kinds (41 ∷ 42 ∷ []) ((1, first_status) ∷ (0, second_status) ∷ []) recorder
unfolding AllOk KindOk AllApart Apart find
recorder-AllOk = (
  (
    recv_request,
    42,
    refl,
    refl,
    (receive 8 42, refl, ground arith, 1, refl),
    (λ r' h k. ground (arith, some_inj.0 h), tt),
  ),
  ((recv_request, 41, refl, refl, (receive 7 41, refl, ground arith, 0, refl), tt), tt),
)

recorder-ReplayAll :
    ReplayAll 99
      (2 ^ 32 - 1)
      (2 ^ 32 - 1)
      answers
      kinds
      (41 ∷ 42 ∷ [])
      (0 ∷ 0 ∷ [])
      (0 ∷ 0 ∷ [])
      ((1, first_status) ∷ (0, second_status) ∷ [])
      (record { indices = []; statuses = []; array_of_requests = 41 ∷ 42 ∷ []; tables = tables })
unfolding ReplayAll ReplayOk Later Apart is_asked_for find
recorder-ReplayAll = (
  (
    recv_request,
    42,
    refl,
    refl,
    refl,
    λ rank h. (receive 8 42, refl, refl),
    ((ground arith, λ r' h k. ground (arith, some_inj.0 h)), tt),
  ),
  ((recv_request, 41, refl, refl, refl, λ rank h. (receive 7 41, refl, refl), tt), tt),
)

-- the set of events of this call, on a queue with one more event
abbrev event_set : List Event
event_set = create_test_event 1 1 3 1 1 0 9 ∷ create_test_event 1 1 5 0 0 0 9 ∷ []

abbrev set_queue : List Event
set_queue = event_set ++ matched_event 0 1 ∷ []

abbrev replay_list : EventList
replay_list = record (event_list 100) { replay_events = update (λ _. none) 9 (some set_queue) }

replay_list-Ready : Ready 9 replay_list set_queue
unfolding event_list
replay_list-Ready = record {
  key = refl;
  queue = (
    inl (refl, omega arith, omega arith),
    (inl (refl, omega arith, omega arith), (inl (refl, omega arith, omega arith), tt)),
  );
  current = tt;
}

abbrev recorder_after : Recorder
recorder_after = record {
  requests = record tables {
    request_to_recv_args = [];
    mpi_call_id_to_comm_tag = (5, (2 ^ 32 + 8) ∷ (2 ^ 32 + 7) ∷ []) ∷ [];
  };
  request_to_recv_event = [];
  recv_rank = update (update (λ _. 0) 1 3) 0 5;
  tmp_statuses = 0 ∷ 0 ∷ [];
}

record_set_run :
    record_set 9 kinds (41 ∷ 42 ∷ []) ((1, first_status) ∷ (0, second_status) ∷ []) recorder
    ≡ done (event_set, recorder_after)
unfolding record_set
record_set_run = refl

record_set-replay_recorded_example : Replays 9 2 (1 ∷ 0 ∷ []) (inputs (matched_event 0 1) ∷ []) (
    replay_recorded
      (2 ^ 32 - 1)
      (2 ^ 32 - 1)
      99
      answers
      2
      9
      kinds
      (0 ∷ 0 ∷ [])
      (41 ∷ 42 ∷ [])
      waitsome
      tables
      replay_list)
unfolding outcount_of event_list expand_all
record_set-replay_recorded_example =
    record_set-replay_recorded (2 ^ 32 - 1) (2 ^ 32 - 1) 99 answers kinds (41 ∷ 42 ∷ [])
      (41 ∷ 42 ∷ []) (0 ∷ 0 ∷ []) 2 9 waitsome (1, first_status) ((0, second_status) ∷ []) recorder
      recorder_after event_set tables replay_list set_queue (inputs (matched_event 0 1) ∷ [])
      recorder-AllOk record_set_run (ground arith) (omega arith) recorder-ReplayAll
      replay_list-Ready refl

-- The whole of record_mf for this call.
abbrev settings : Settings
settings = record {
  lite = false;
  hypre_test = false;
  request_null = 99;
  any_tag = 2 ^ 32 - 1;
  rempi_encode = other_encode;
  mode = record_mode;
  test_id = test_id_0;
}

abbrev events_of : Outcome (List Event × Recorder) → Option (List Event)
events_of (done (es, w)) = some es
events_of (rempi_err e) = none

record_mf_run :
    events_of (
      record_mf settings 6
        (41 ∷ 42 ∷ [])
        (record {
          outcount = 2;
          array_of_indices = some (1 ∷ 0 ∷ []);
          array_of_statuses = first_status ∷ second_status ∷ [];
        })
        waitsome
        recorder)
    ≡ some (create_test_event 1 1 3 1 1 0 0 ∷ create_test_event 1 1 5 0 0 0 0 ∷ [])
unfolding record_mf
record_mf_run = refl

-- MPI_Testsome that matched nothing
record_mf_unmatched :
    events_of (
      record_mf settings 6
        (41 ∷ 42 ∷ [])
        (record { outcount = 0; array_of_indices = some []; array_of_statuses = [] })
        testsome
        recorder)
    ≡ some (create_test_event 1 0 0 0 0 0 0 ∷ [])
unfolding record_mf
record_mf_unmatched = refl

-- The receive 44 is posted, on the communicator 70.
abbrev posted : Posted
posted = record {
  buf = 1;
  count = 4;
  datatype = 2;
  rank = 2 ^ 32 - 1;
  tag = 9;
  comm = 70;
  request = 44;
}

record_irecv-KindOk_example :
    (w' : Recorder) × (record_irecv settings (2 ^ 32 - 1) 5 2 posted recorder
      ≡ done (create_recv_event (2 ^ 32 - 1) 44, w'))
    × KindOk recv_request 44 none w'
    × ((r : ℕ)
        → r ≢ 44
        → (find r w'.requests.request_to_recv_args ≡ find r tables.request_to_recv_args)
          × (find r w'.request_to_recv_event ≡ find r recorder.request_to_recv_event))
unfolding find
record_irecv-KindOk_example =
    record_irecv-KindOk settings (2 ^ 32 - 1) 5 2 posted recorder none refl (ground arith) refl

-- A record that cancels a send ends, since only receives have an event.
abbrev sending : Recorder
sending = record recorder {
  requests = record tables { request_to_send_id = (43, record { dest = 1; clock = 6 }) ∷ [] };
}

record_cancel_send : record_cancel settings (2 ^ 32 - 1) 43 sending ≡ rempi_err no_recv_event
unfolding record_cancel
record_cancel_send = refl
