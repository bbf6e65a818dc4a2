-- ===== src/Rempi/Recorder.antt =====
-- The matching functions of src/rempi/rempi_recorder.cpp in record mode: record_mf, which makes a set of
-- events of what MPI matched, and record_pf. What MPI returns is an argument.
pub mod Input
pub mod NextEvents
pub mod RecordSet
pub mod SameMatches
pub mod Replay
pub mod Probe
pub mod Posts
mod Tests
use re_omp_llvm.Common.{
  ℕ, suc, zero, ◌+◌, ◌-◌, ◌^◌, Bool, true, false, not, ◌&&◌, ◌*◌, ◌||◌, Option, none, some, List,
  [], ◌∷◌, ltb, ◌==◌, if◌then◌else◌, get_elem?, update, length,
}
use re_omp_llvm.Rempi.Event.{Event, minus_one, create_test_event}
use re_omp_llvm.Rempi.EventList.{
  EventList, Call, returns, waits, push_was_closed, event_error, push,
}
use re_omp_llvm.Rempi.Requests.{
  Requests, too_many_requests, out_of_bounds, no_recv_event, Outcome, done, rempi_err, and_then,
  or_err,
}
use re_omp_llvm.Rempi.Requests.Table.{find, erase}
use re_omp_llvm.Rempi.Requests.Registration.{
  Posted, RequestType, send_request, recv_request, null_request_type, ignr_request, get_recv_args,
  deregister_request, deregister_send_request, deregister_recv_request,
}
use re_omp_llvm.Rempi.Requests.Sets.{report_message_matching}
use re_omp_llvm.Rempi.Requests.Assignment.{register_request}
use re_omp_llvm.Rempi.Requests.Kinds.{Settings, Info, get_request_info, store_send_statuses}

-- REMPI_MPI_TEST to REMPI_MPI_WAITALL
pub data FunctionType : Type 0 where
  test testany testsome testall wait waitany waitsome waitall : FunctionType

-- rempi_mpi_get_matched_count, after its test for no request but MPI_REQUEST_NULL
unfoldable pub count_by_type : FunctionType → (incount outcount : ℕ) → ℕ
count_by_type test incount outcount = outcount
count_by_type testany incount outcount = outcount
count_by_type testsome incount outcount = outcount
count_by_type testall incount outcount = if outcount == 0 then 0 else incount
count_by_type wait incount outcount = 1
count_by_type waitany incount outcount = 1
count_by_type waitsome incount outcount = outcount
count_by_type waitall incount outcount = incount

unfoldable pub get_matched_count : (incount outcount nullcount : ℕ) → FunctionType → ℕ
unfolding count_by_type
get_matched_count incount outcount nullcount t =
    if (incount == 0) || (incount == nullcount) then 0 else count_by_type t incount outcount

-- MPI_Status
pub record Status : Type 0 where
  pub mpi_source : ℕ
  pub mpi_tag : ℕ

-- What MPI returns: array_of_indices is NULL for a single request and for all.
pub record Matched : Type 0 where
  pub outcount : ℕ
  pub array_of_indices : Option (List ℕ)
  pub array_of_statuses : List Status

-- rempi_recorder: `recv_rank` is the rank in each event of a receive, which request_to_recv_event_umap and
-- the recording list share, by the number of the event; tmp_statuses has the sources only.
pub record Recorder : Type 0 where
  pub requests : Requests
  pub request_to_recv_event : List (ℕ × ℕ)
  pub recv_rank : ℕ → ℕ
  pub tmp_statuses : List ℕ

-- the index of the match `i`
unfoldable pub match_index : Option (List ℕ) → (i : ℕ) → Outcome ℕ
unfolding or_err
match_index none i = done i
match_index (some indices) i = or_err out_of_bounds (get_elem? indices i)

-- the matches from `i` on, each an index and a status
unfoldable pub matches : Matched → (matched_count i : ℕ) → Outcome (List (ℕ × Status))
unfolding match_index or_err and_then
matches m zero i = done []
matches m (suc n) i = and_then (match_index m.array_of_indices i) (λ k.
    and_then (or_err out_of_bounds (get_elem? m.array_of_statuses i))
      (λ status. and_then (matches m n (suc i)) (λ rest. done ((k, status) ∷ rest))))

-- what record_mf does for a match with a request of this kind: its rank, and the state
unfoldable pub record_kind :
    RequestType
    → (request : ℕ) (destination : Option ℕ) → Status
    → Recorder
    → Outcome (ℕ × Recorder)
unfolding or_err and_then get_recv_args report_message_matching deregister_recv_request
    deregister_send_request find erase
record_kind send_request r dest status w =
    and_then (or_err out_of_bounds dest)
      (λ rank. done (rank, record w { requests = deregister_send_request r w.requests }))
record_kind recv_request r dest status w = and_then (get_recv_args r w.requests) (λ args.
    and_then (report_message_matching r status.mpi_tag w.requests) (λ s.
      and_then (deregister_recv_request r s) (λ s'.
        and_then (or_err no_recv_event (find r w.request_to_recv_event)) (λ event. done (
          status.mpi_source,
          record w {
            requests = s';
            request_to_recv_event = erase r w.request_to_recv_event;
            recv_rank = update w.recv_rank event status.mpi_source;
          },
        )))))
record_kind null_request_type r dest status w = done (status.mpi_source, w)
record_kind ignr_request r dest status w = done (minus_one, w)

-- REMPI_MPI_EVENT_WITH_NEXT for all but the last
unfoldable pub next_mark : List (ℕ × Status) → ℕ
next_mark [] = 0
next_mark (m ∷ ms) = 1

-- the loop of record_mf over the matches
unfoldable pub record_matches :
    (group : ℕ) (infos : List RequestType) (requests : List ℕ)
    → List (ℕ × Status)
    → Recorder
    → Outcome (List Event × Recorder)
unfolding record_kind next_mark or_err and_then
record_matches group infos requests [] w = done ([], w)
record_matches group infos requests ((k, status) ∷ ms) w =
    and_then (or_err out_of_bounds (get_elem? infos k)) (λ info.
      and_then (or_err out_of_bounds (get_elem? requests k)) (λ r.
        and_then (record_kind info r (get_elem? w.tmp_statuses k) status w) (λ (rank, w').
          and_then (record_matches group infos requests ms w')
            (λ (es, w''). done (create_test_event 1 1 rank (next_mark ms) k 0 group ∷ es, w'')))))

-- recording_event_set_list.back()->set_with_next(REMPI_MPI_EVENT_NOT_WITH_NEXT)
unfoldable pub end_set : List Event → List Event
end_set [] = []
end_set (e ∷ []) = record e { with_next = 0 } ∷ []
end_set (e ∷ f ∷ es) = e ∷ end_set (f ∷ es)

-- the events of a call that is recorded
unfoldable pub record_set :
    (group : ℕ) (infos : List RequestType) (requests : List ℕ)
    → List (ℕ × Status)
    → Recorder
    → Outcome (List Event × Recorder)
unfolding record_matches end_set and_then
record_set group infos requests [] w = done (end_set (create_test_event 1 0 0 0 0 0 group ∷ []), w)
record_set group infos requests (m ∷ ms) w =
    and_then (record_matches group infos requests (m ∷ ms) w) (λ (es, w'). done (end_set es, w'))

-- the loop over the matches of a call that is not recorded
unfoldable pub skip_matches :
    (infos : List RequestType) (requests : List ℕ) → List (ℕ × Status) → Recorder → Outcome Recorder
unfolding deregister_request erase or_err and_then
skip_matches infos requests [] w = done w
skip_matches infos requests ((k, status) ∷ ms) w =
    and_then (or_err out_of_bounds (get_elem? infos k)) (λ info.
      and_then (or_err out_of_bounds (get_elem? requests k)) (λ r.
        and_then (deregister_request r info w.requests) (λ s.
          skip_matches infos requests ms
            (record w { requests = s; request_to_recv_event = erase r w.request_to_recv_event }))))

-- tmp_statuses after the call of rempi_reqmg_store_send_statuses
unfoldable pub store_if :
    (recorded : Bool) (requests : List ℕ) → List RequestType → Recorder → Outcome Recorder
unfolding store_send_statuses and_then
store_if false rs infos w = done w
store_if true rs infos w =
    and_then (store_send_statuses rs infos w.tmp_statuses w.requests)
      (λ sources. done (record w { tmp_statuses = sources }))

-- record_mf up to the pushes, which get the list of events; PRE_ALLOCATED_REQUEST_LENGTH is 128 * 128
unfoldable pub record_known :
    (requests : List ℕ) → Info → Matched → FunctionType → Recorder → Outcome (List Event × Recorder)
unfolding store_if get_matched_count matches skip_matches record_set and_then
record_known rs info m t w =
    let incount : ℕ = length rs in
    let nullcount : ℕ = info.counts.nullcount in
    and_then (store_if info.recorded rs info.request_info w) (λ w1.
      and_then (matches m (get_matched_count incount m.outcount nullcount t) 0) (λ ms.
        if info.recorded && not (incount == 0) && not (incount == nullcount)
        then record_set info.matching_set_id info.request_info rs ms w1
        else and_then (skip_matches info.request_info rs ms w1) (λ w2. done ([], w2))))

unfoldable pub record_mf :
    Settings
    → (mpi_call_id : ℕ) (requests : List ℕ) → Matched
    → FunctionType
    → Recorder
    → Outcome (List Event × Recorder)
unfolding get_request_info record_known and_then
record_mf g call rs m t w =
    if ltb (128 * 128) (length rs)
    then rempi_err too_many_requests
    else and_then (get_request_info g call rs w.requests)
        (λ (info, s). record_known rs info m t (record w { requests = s }))

-- The pushes: where the list has no room, the events that are left wait.
unfoldable pub after_push :
    (e : Event) (es : List Event)
    → EventList
    → (EventList → Call (List Event × EventList))
    → Call EventList
    → Call (List Event × EventList)
after_push e es l rest (returns l') = rest l'
after_push e es l rest waits = returns (e ∷ es, l)
after_push e es l rest push_was_closed = push_was_closed
after_push e es l rest (event_error err) = event_error err

unfoldable pub push_set : List Event → EventList → Call (List Event × EventList)
unfolding push after_push
push_set [] l = returns ([], l)
push_set (e ∷ es) l = after_push e es l (push_set es) (push e l)

-- The event of record_pf, which is not in a set: `flag` is NULL for MPI_Probe.
unfoldable pub probe_event : (flag : Option ℕ) (source group : ℕ) → Event
probe_event none source group = create_test_event 1 1 source 0 0 0 group
probe_event (some f) source group =
    if f == 0 then create_test_event 1 0 0 0 0 0 group else create_test_event 1 1 source 0 0 0 group

-- record_pf: a receive without a request, NULL, is registered for its matching set and deregistered
unfoldable pub record_pf :
    Settings
    → (mpi_call_id : ℕ) → Posted
    → (flag : Option ℕ) (source : ℕ) → Requests
    → Outcome (Event × Requests)
unfolding register_request deregister_request probe_event and_then
record_pf g call p flag source s =
    and_then
      (register_request g.request_null g.test_id g.mode call 0 (record p { request = 0 })
        recv_request s)
      (λ (set, s').
        and_then (deregister_request 0 recv_request s')
          (λ s''. done (probe_event flag source set, s'')))
