-- ===== src/Rempi/Recorder/Input.antt =====
-- replay_mf_input of src/rempi/rempi_recorder.cpp: a matching function in replay completes the requests that
-- the events name. PMPI_Wait is a parameter, by what it gives for a request.
use re_omp_llvm.Common.{
  ℕ, Bool, not, ◌&&◌, ◌||◌, Option, List, [], ◌∷◌, ◌++◌, ◌==◌, if◌then◌else◌, get_elem?, set,
  length,
}
use re_omp_llvm.Rempi.Event.{Event, type_test}
use re_omp_llvm.Rempi.Requests.{
  Requests, out_of_bounds, not_a_test_event, no_requests, other_destination, other_message,
  ignored_request, Outcome, done, rempi_err, and_then, or_err,
}
use re_omp_llvm.Rempi.Requests.Registration.{
  RequestType, send_request, recv_request, null_request_type, ignr_request, get_matching_id,
  deregister_send_request, deregister_recv_request,
}
use re_omp_llvm.Rempi.Recorder.{FunctionType, testall, Status}

-- What the call has written so far: array_of_indices and array_of_statuses up to local_outcount, the
-- requests, and the tables of requests.
pub record ReplayState : Type 0 where
  pub indices : List ℕ
  pub statuses : List Status
  pub array_of_requests : List ℕ
  pub tables : Requests

-- *outcount at the end
unfoldable pub outcount_of : FunctionType → ℕ → ℕ
outcount_of testall n = 1
outcount_of t n = n

-- MPI_REQUEST_NULL, MPI_ANY_SOURCE, MPI_ANY_TAG, and what PMPI_Wait gives
module _ (request_null any_source any_tag : ℕ) (mpi_wait : ℕ → Status) where
  -- the message is one that the receive asks for
  unfoldable pub is_asked_for : (source tag : ℕ) → Status → Bool
  is_asked_for source tag status =
      ((source == any_source) || (source == status.mpi_source))
      && ((tag == any_tag) || (tag == status.mpi_tag))

  -- what the call does with a request of this kind: the tables of requests that it leaves
  unfoldable pub replay_kind :
      RequestType → (request rank : ℕ) (destination : Option ℕ) → Requests → Outcome Requests
  unfolding is_asked_for deregister_send_request deregister_recv_request get_matching_id or_err
      and_then
  replay_kind send_request r rank dest s =
      and_then (or_err out_of_bounds dest)
        (λ d. if d == rank then done (deregister_send_request r s) else rempi_err other_destination)
  replay_kind recv_request r rank dest s = and_then (get_matching_id r s) (λ (source, tag, comm).
      and_then (deregister_recv_request r s)
        (λ s'. if is_asked_for source tag (mpi_wait r) then done s' else rempi_err other_message))
  replay_kind null_request_type r rank dest s = done s
  replay_kind ignr_request r rank dest s = rempi_err ignored_request

  -- a round of the loop, for an event that matched
  unfoldable pub replay_event :
      (infos : List RequestType) (destinations : List ℕ) → Event → ReplayState → Outcome ReplayState
  unfolding replay_kind or_err and_then
  replay_event infos dests e o = and_then (or_err out_of_bounds (get_elem? infos e.index)) (λ info.
      and_then (or_err out_of_bounds (get_elem? o.array_of_requests e.index)) (λ r.
        and_then (replay_kind info r e.rank (get_elem? dests e.index) o.tables) (λ s. done (record {
          indices = o.indices ++ e.index ∷ [];
          statuses = o.statuses ++ mpi_wait r ∷ [];
          array_of_requests = set o.array_of_requests e.index request_null;
          tables = s;
        }))))

  -- the loop: an event that did not match ends the call with an outcount of 0
  unfoldable pub complete_events :
      (incount : ℕ) (infos : List RequestType) (destinations : List ℕ)
      → FunctionType
      → List Event
      → ReplayState
      → Outcome (ℕ × ReplayState)
  unfolding replay_event outcount_of and_then
  complete_events incount infos dests t [] o = done (outcount_of t (length o.indices), o)
  complete_events incount infos dests t (e ∷ es) o =
      if not (e.type == type_test)
      then rempi_err not_a_test_event
      else if e.flag == 0
      then done (0, o)
      else if incount == 0
      then rempi_err no_requests
      else and_then (replay_event infos dests e o) (complete_events incount infos dests t es)
