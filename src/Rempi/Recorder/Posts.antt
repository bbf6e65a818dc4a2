-- ===== src/Rempi/Recorder/Posts.antt =====
-- The posts of sends and receives in src/rempi/rempi_recorder.cpp, and their cancellation. The request that
-- MPI gives stands in the call; the fuel counts calls of dequeue_replay.
pub mod Known
use re_omp_llvm.Common.{
  ℕ, zero, suc, ◌+◌, ◌-◌, ◌%◌, ◌^◌, Option, none, some, List, [], ◌∷◌, ◌==◌, if◌then◌else◌, update,
}
use re_omp_llvm.Rempi.Event.{Event, type_recv, create_recv_event}
use re_omp_llvm.Rempi.EventList.{
  EventList, Call, returns, waits, push_was_closed, event_error, Dequeued, empty, finish, dequeued,
  dequeue_replay,
}
use re_omp_llvm.Rempi.Requests.{
  Requests, RecvArgs, no_recv_event, event_exists, only_receives, no_receive_due, event_list_error,
  Outcome, done, rempi_err, and_then, or_err,
}
use re_omp_llvm.Rempi.Requests.Table.{find, insert, erase}
use re_omp_llvm.Rempi.Requests.Registration.{
  Posted, RequestType, send_request, recv_request, null_request_type, ignr_request,
  get_request_type, get_recv_args, deregister_request,
}
use re_omp_llvm.Rempi.Requests.Assignment.{register_request}
use re_omp_llvm.Rempi.Requests.Kinds.{Settings}
use re_omp_llvm.Rempi.Recorder.{Recorder}

-- rempi_reqmg_register_request with the settings of the process
unfoldable pub register :
    Settings → (mpi_call_id clock : ℕ) → Posted → RequestType → Requests → Outcome (ℕ × Requests)
unfolding register_request
register g call clock p t s = register_request g.request_null g.test_id g.mode call clock p t s

-- record_isend: `clock` is the local clock
unfoldable pub record_isend :
    Settings → (mpi_call_id clock : ℕ) → Posted → Requests → Outcome Requests
unfolding register and_then
record_isend g call clock p s =
    and_then (register g call clock p send_request s) (λ (set, s'). done s')

-- replay_isend registers once more
unfoldable pub replay_isend :
    Settings → (mpi_call_id clock : ℕ) → Posted → Requests → Outcome Requests
unfolding record_isend register and_then
replay_isend g call clock p s =
    and_then (record_isend g call clock p s)
      (λ s'. and_then (register g call clock p send_request s') (λ (set, s''). done s''))

-- the end of record_irecv, by what request_to_recv_event_umap holds of the request
unfoldable pub put_event : (request event : ℕ) → Option ℕ → Recorder → Outcome Recorder
unfolding insert
put_event r event (some other) w = rempi_err event_exists
put_event r event none w =
    done (record w { request_to_recv_event = insert r event w.request_to_recv_event })

-- record_irecv: the event to push, whose number is `event`, and the state
unfoldable pub record_irecv :
    Settings → (any_source mpi_call_id event : ℕ) → Posted → Recorder → Outcome (Event × Recorder)
unfolding register put_event find and_then
record_irecv g any_source call event p w =
    and_then (register g call 0 p recv_request w.requests) (λ (set, s).
      and_then
        (put_event p.request event (find p.request w.request_to_recv_event)
          (record w { requests = s; recv_rank = update w.recv_rank event any_source }))
        (λ w'. done (create_recv_event any_source p.request, w')))

-- REMPI_MPI_EVENT_RANK_CANCELED
abbrev pub rank_canceled : (any_source : ℕ) → ℕ
rank_canceled any_source = (any_source + 2 ^ 32 - 1) % 2 ^ 32

-- the source that replay_irecv asks MPI for
unfoldable pub replaying_source : (any_source source rank : ℕ) → ℕ
replaying_source any_source source rank = if rank == rank_canceled any_source then source else rank

-- A receive was posted with this source, or the call still waits for its event.
pub data PostedReceive : Type 0 where
  posted_from : (source : ℕ) → Requests → EventList → PostedReceive
  no_event : EventList → PostedReceive

-- one call of dequeue_replay gave this; `rest` is what follows
unfoldable pub post_after :
    Settings
    → (any_source mpi_call_id : ℕ) → Posted
    → Requests
    → Call (Dequeued × EventList)
    → (EventList → Outcome PostedReceive)
    → Outcome PostedReceive
unfolding register replaying_source and_then
post_after g any_source call p s (returns (empty, l)) rest = rest l
post_after g any_source call p s (returns (finish, l)) rest = rest l
post_after g any_source call p s (returns (dequeued e, l)) rest =
    if e.type == type_recv
    then and_then (register g call 0 p recv_request s)
        (λ (set, s'). done (posted_from (replaying_source any_source p.rank e.rank) s' l))
    else rempi_err no_receive_due
post_after g any_source call p s waits rest = rempi_err event_list_error
post_after g any_source call p s push_was_closed rest = rempi_err event_list_error
post_after g any_source call p s (event_error e) rest = rempi_err event_list_error

-- replay_irecv, which takes the events of the matching set 0
unfoldable pub replay_irecv :
    Settings
    → (fuel any_source mpi_call_id : ℕ) → Posted
    → Requests
    → EventList
    → Outcome PostedReceive
unfolding post_after dequeue_replay
replay_irecv g zero any_source call p s l = done (no_event l)
replay_irecv g (suc n) any_source call p s l =
    post_after g any_source call p s (dequeue_replay 0 l) (replay_irecv g n any_source call p s)

-- A request of a kind that is in no table stays.
unfoldable pub deregister_known : (request : ℕ) → RequestType → Requests → Outcome Requests
unfolding deregister_request
deregister_known r send_request s = deregister_request r send_request s
deregister_known r recv_request s = deregister_request r recv_request s
deregister_known r null_request_type s = done s
deregister_known r ignr_request s = done s

-- record_cancel
unfoldable pub record_cancel : Settings → (any_source request : ℕ) → Recorder → Outcome Recorder
unfolding get_request_type deregister_known find erase or_err and_then
record_cancel g any_source r w = and_then (get_request_type g.request_null r w.requests) (λ t.
    and_then (deregister_known r t w.requests) (λ s.
      and_then (or_err no_recv_event (find r w.request_to_recv_event)) (λ event. done (record w {
        requests = s;
        recv_rank = update w.recv_rank event (rank_canceled any_source);
        request_to_recv_event = erase r w.request_to_recv_event;
      }))))

-- cancel_request
unfoldable pub cancel_request : Settings → (request : ℕ) → Requests → Outcome Requests
unfolding get_request_type deregister_request and_then
cancel_request g r s =
    and_then (get_request_type g.request_null r s) (λ t. deregister_request r t s)

-- replay_cancel
unfoldable pub cancel_type : Settings → (request : ℕ) → RequestType → Requests → Outcome Requests
unfolding cancel_request
cancel_type g r recv_request s = cancel_request g r s
cancel_type g r send_request s = rempi_err only_receives
cancel_type g r null_request_type s = rempi_err only_receives
cancel_type g r ignr_request s = rempi_err only_receives

unfoldable pub replay_cancel : Settings → (request : ℕ) → Requests → Outcome Requests
unfolding get_request_type cancel_type and_then
replay_cancel g r s = and_then (get_request_type g.request_null r s) (λ t. cancel_type g r t s)

-- replay_request_free
unfoldable pub replay_request_free : Settings → (request : ℕ) → Requests → Outcome Requests
unfolding get_request_type deregister_known and_then
replay_request_free g r s =
    and_then (get_request_type g.request_null r s) (λ t. deregister_known r t s)
