-- ===== src/Rempi/Recorder/Probe.antt =====
-- replay_pf of src/rempi/rempi_recorder.cpp: a probe in replay. What PMPI_Probe gives is left out; the fuel counts
-- calls of dequeue_replay.
use re_omp_llvm.Common.{ℕ, zero, suc, not, ◌&&◌, ◌==◌, if◌then◌else◌}
use re_omp_llvm.Rempi.EventList.{
  EventList, Call, returns, waits, push_was_closed, event_error, Dequeued, empty, finish, dequeued,
  dequeue_replay,
}
use re_omp_llvm.Rempi.Requests.{
  Requests, other_message, event_list_error, Outcome, done, rempi_err, and_then,
}
use re_omp_llvm.Rempi.Requests.Registration.{Posted, recv_request, deregister_request}
use re_omp_llvm.Rempi.Requests.Assignment.{register_request}
use re_omp_llvm.Rempi.Requests.Kinds.{Settings}

-- no message, a message from this rank, or no event yet
pub data Probed : Type 0 where
  unmatched : EventList → Probed
  matched : (rank : ℕ) → EventList → Probed
  still_waiting : EventList → Probed

-- one call of dequeue_replay gave this; `rest` is what follows
unfoldable pub after_event :
    (any_source source : ℕ)
    → Call (Dequeued × EventList)
    → (EventList → Outcome Probed)
    → Outcome Probed
after_event any_source source (returns (empty, l)) rest = rest l
after_event any_source source (returns (finish, l)) rest = rest l
after_event any_source source (returns (dequeued e, l)) rest =
    if e.flag == 0
    then done (unmatched l)
    else if not (source == any_source) && not (source == e.rank)
    then rempi_err other_message
    else if e.with_next == 1
    then rest l
    else done (matched e.rank l)
after_event any_source source waits rest = rempi_err event_list_error
after_event any_source source push_was_closed rest = rempi_err event_list_error
after_event any_source source (event_error e) rest = rempi_err event_list_error

unfoldable pub replay_probe : (fuel any_source source test_id : ℕ) → EventList → Outcome Probed
unfolding after_event dequeue_replay
replay_probe zero any_source source id l = done (still_waiting l)
replay_probe (suc n) any_source source id l =
    after_event any_source source (dequeue_replay id l) (replay_probe n any_source source id)

-- replay_pf
unfoldable pub replay_pf :
    Settings
    → (fuel any_source mpi_call_id : ℕ) → Posted
    → Requests
    → EventList
    → Outcome (Probed × Requests)
unfolding register_request deregister_request replay_probe and_then
replay_pf g fuel any_source call p s l =
    and_then
      (register_request g.request_null g.test_id g.mode call 0 (record p { request = 0 })
        recv_request s)
      (λ (set, s').
        and_then (deregister_request 0 recv_request s')
          (λ s''. and_then (replay_probe fuel any_source p.rank set l) (λ r. done (r, s''))))
