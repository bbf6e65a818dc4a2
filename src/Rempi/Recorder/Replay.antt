-- ===== src/Rempi/Recorder/Replay.antt =====
-- replay_mf of src/rempi/rempi_recorder.cpp: a matching function in replay takes the events of its matching
-- set and completes the requests that they name. What MPI gives is an argument, as is the fuel of
-- get_next_events, which counts calls of dequeue_replay.
use mathlib.Core.Option.{some_inj}
use re_omp_llvm.Common.{
  ℕ, suc, ◌*◌, ◌≤◌, ◌≡◌, ◌≢◌, refl, sym, ap, ◌∙◌, subst, not, ◌&&◌, Option, none, some, List, [],
  ◌∷◌, ◌++◌, map, ltb, ◌==◌, if◌then◌else◌, get_elem?, drop, length, arith,
}
use re_omp_llvm.Rempi.Event.{Event, inputs}
use re_omp_llvm.Rempi.EventList.{EventList}
use re_omp_llvm.Rempi.EventList.Replaying.{Ready, view}
use re_omp_llvm.Rempi.Requests.{
  Requests, too_many_requests, out_of_bounds, event_list_error, Outcome, done, rempi_err, and_then,
  or_err,
}
use re_omp_llvm.Rempi.Requests.Registration.{
  RequestType, send_request, recv_request, null_request_type, ignr_request, deregister_send_request,
  deregister_recv_request,
}
use re_omp_llvm.Rempi.Requests.Kinds.{Settings, Info, get_request_info, store_send_statuses}
use re_omp_llvm.Rempi.Recorder.{
  FunctionType, Status, Matched, Recorder, get_matched_count, matches, record_set,
}
use re_omp_llvm.Rempi.Recorder.Input.{ReplayState, complete_events, outcount_of}
use re_omp_llvm.Rempi.Recorder.NextEvents.{
  Taken, complete, unfinished, ended, get_next_events, IsEventSet, TakesSet,
  get_next_events-TakesSet,
}
use re_omp_llvm.Rempi.Recorder.RecordSet.{RankOf, AllOk, Records, record_set-Records}
use re_omp_llvm.Rempi.Recorder.SameMatches.{ReplayAll, complete_events-Records, length-map_index}

-- a request of a call that is not replayed
unfoldable pub skip_kind : RequestType → (request : ℕ) → Requests → Outcome Requests
unfolding deregister_send_request deregister_recv_request
skip_kind send_request r s = done (deregister_send_request r s)
skip_kind recv_request r s = deregister_recv_request r s
skip_kind null_request_type r s = done s
skip_kind ignr_request r s = done s

-- the loop over the matches of such a call
unfoldable pub skip_replayed :
    (infos : List RequestType) (requests : List ℕ) → List (ℕ × Status) → Requests → Outcome Requests
unfolding skip_kind or_err and_then
skip_replayed infos requests [] s = done s
skip_replayed infos requests ((k, status) ∷ ms) s =
    and_then (or_err out_of_bounds (get_elem? infos k)) (λ info.
      and_then (or_err out_of_bounds (get_elem? requests k))
        (λ r. and_then (skip_kind info r s) (skip_replayed infos requests ms)))

-- What a replayed call comes to: *outcount and what it wrote, or it still waits for events. Of a call that is
-- not replayed, the requests stand as they were given; MPI completes them.
abbrev pub Completed : Type 0
Completed = Option (ℕ × ReplayState × EventList)

module _ (any_source any_tag request_null : ℕ) (mpi_wait : ℕ → Status) where
  unfoldable pub complete_taken :
      (infos : List RequestType) (destinations requests : List ℕ)
      → FunctionType
      → Requests
      → Taken
      → Outcome Completed
  unfolding complete_events and_then
  complete_taken infos dests rs t s (complete es l) =
      and_then
        (complete_events request_null any_source any_tag mpi_wait (length rs) infos dests t es
          (record { indices = []; statuses = []; array_of_requests = rs; tables = s }))
        (λ (outcount, o). done (some (outcount, o, l)))
  complete_taken infos dests rs t s (unfinished es l) = done none
  complete_taken infos dests rs t s ended = rempi_err event_list_error

  -- get_next_events and replay_mf_input
  unfoldable pub replay_recorded :
      (fuel matching_set_id : ℕ) (infos : List RequestType) (destinations requests : List ℕ)
      → FunctionType
      → Requests
      → EventList
      → Outcome Completed
  unfolding get_next_events complete_taken
  replay_recorded fuel set infos dests rs t s l =
      complete_taken infos dests rs t s (get_next_events fuel set l)

  -- replay_mf after rempi_reqmg_get_request_info: of a call that is not replayed, what MPI gave
  unfoldable pub replay_known :
      (fuel : ℕ) (requests tmp_statuses : List ℕ)
      → Info
      → Matched
      → FunctionType
      → Requests
      → EventList
      → Outcome Completed
  unfolding store_send_statuses replay_recorded skip_replayed matches get_matched_count and_then
  replay_known fuel rs sources info m t s l =
      if info.recorded && not (length rs == 0) && not (length rs == info.counts.nullcount)
      then and_then (store_send_statuses rs info.request_info sources s)
          (λ dests. replay_recorded fuel info.matching_set_id info.request_info dests rs t s l)
      else and_then (matches m (get_matched_count (length rs) m.outcount info.counts.nullcount t) 0)
          (λ ms. and_then (skip_replayed info.request_info rs ms s) (λ s'. done (
            some (
              m.outcount,
              record {
                indices = map (λ (k, status). k) ms;
                statuses = m.array_of_statuses;
                array_of_requests = rs;
                tables = s';
              },
              l,
            ))))

-- replay_mf; PRE_ALLOCATED_REQUEST_LENGTH is 128 * 128
unfoldable pub replay_mf :
    Settings
    → (any_source : ℕ) (mpi_wait : ℕ → Status) (fuel mpi_call_id : ℕ)
      (requests tmp_statuses : List ℕ)
    → Matched
    → FunctionType
    → Requests
    → EventList
    → Outcome Completed
unfolding get_request_info replay_known and_then
replay_mf g any_source mpi_wait fuel call rs sources m t s l =
    if ltb (128 * 128) (length rs)
    then rempi_err too_many_requests
    else and_then (get_request_info g call rs s) (λ (info, s').
      replay_known any_source g.any_tag g.request_null mpi_wait fuel rs sources info m t s' l)

-- Events with the same entries are of the same matches.
same_entry :
    (i : ℕ) (a e : Event) → inputs a ≡ inputs e → get_elem? (inputs a) i ≡ get_elem? (inputs e) i
same_entry i a e h = ap (λ l. get_elem? l i) h

Records-inputs :
    (infos : List RequestType) (rs : List ℕ) (group : ℕ) (dests : List ℕ) (ms : List (ℕ × Status))
    (es taken : List Event)
    → map inputs taken ≡ map inputs es
    → Records infos rs group dests ms es
    → Records infos rs group dests ms taken
unfolding Records
Records-inputs infos rs group dests [] [] [] h rec = rec
Records-inputs infos rs group dests (m ∷ ms) [] [] h rec = absurd rec
Records-inputs infos rs group dests ms [] (a ∷ taken) h rec = ground (arith, ap length h)
Records-inputs infos rs group dests ms (e ∷ es) [] h rec = ground (arith, ap length h)
Records-inputs infos rs group dests [] (e ∷ es) taken h rec = absurd rec
Records-inputs infos rs group dests ((k, status) ∷ ms) (e ∷ es) (a ∷ taken) h
      ((test, flag, one, mark, at, grp, dest), rec) =
    let same : inputs a ≡ inputs e = some_inj.0 (ap (λ l. get_elem? l 0) h) in
    (
      (
        some_inj.0 (same_entry 1 a e same) ∙ test,
        some_inj.0 (same_entry 2 a e same) ∙ flag,
        some_inj.0 (same_entry 0 a e same) ∙ one,
        some_inj.0 (same_entry 4 a e same) ∙ mark,
        some_inj.0 (same_entry 5 a e same) ∙ at,
        some_inj.0 (same_entry 7 a e same) ∙ grp,
        λ info i.
            subst (RankOf info (get_elem? dests k)) (sym (some_inj.0 (same_entry 3 a e same)))
              (dest info i),
      ),
      Records-inputs infos rs group dests ms es taken (ap (drop 1) h) rec,
    )

Records-length :
    (infos : List RequestType) (rs : List ℕ) (group : ℕ) (dests : List ℕ) (ms : List (ℕ × Status))
    (es : List Event)
    → Records infos rs group dests ms es
    → length es ≡ length ms
unfolding Records
Records-length infos rs group dests [] [] rec = refl
Records-length infos rs group dests [] (e ∷ es) rec = absurd rec
Records-length infos rs group dests (m ∷ ms) [] rec = absurd rec
Records-length infos rs group dests (m ∷ ms) (e ∷ es) (now, rec) =
    ap suc (Records-length infos rs group dests ms es rec)

-- What a replay needs of its requests, for the matches of the record.
abbrev pub CanReplay :
    (any_source any_tag request_null : ℕ) (mpi_wait : ℕ → Status) (infos : List RequestType)
    (recorded dests rs : List ℕ)
    → List (ℕ × Status)
    → Requests
    → Type 0
CanReplay any_source any_tag request_null mpi_wait infos recorded dests rs ms s =
    ReplayAll request_null any_source any_tag mpi_wait infos rs recorded dests ms
      (record { indices = []; statuses = []; array_of_requests = rs; tables = s })

-- the call ended with this *outcount and these indices, and left this rest of the queue
abbrev pub Replays :
    (group outcount : ℕ) (indices : List ℕ) (rest : List (List ℕ)) → Outcome Completed → Type 0
Replays group outcount indices rest (done (some (n, o, l))) =
    (n ≡ outcount)
    × (o.indices ≡ indices)
    × (q : List Event) × Ready group l q
    × (view group l q ≡ rest)
Replays group outcount indices rest (done none) = ⊥
Replays group outcount indices rest (rempi_err e) = ⊥

complete_taken-Replays :
    (any_source any_tag request_null : ℕ) (mpi_wait : ℕ → Status) (infos : List RequestType)
    (recorded dests rs : List ℕ) (group : ℕ) (t : FunctionType) (ms : List (ℕ × Status))
    (es : List Event) (s : Requests) (rest : List (List ℕ)) (taken : Taken)
    → length rs ≢ 0
    → Records infos rs group recorded ms es
    → CanReplay any_source any_tag request_null mpi_wait infos recorded dests rs ms s
    → TakesSet group es rest taken
    → Replays group
        (outcount_of t (length ms))
        (map (λ (k, status). k) ms)
        rest
        (complete_taken any_source any_tag request_null mpi_wait infos dests rs t s taken)
unfolding complete_taken and_then
complete_taken-Replays src tag n wait infos recorded dests rs group t ms es s rest (complete as' l)
      pos rec can (same, q, ready, v) =
    let (o, run, ids) =
      complete_events-Records n src tag wait infos rs recorded dests (length rs) group t ms as'
        (record { indices = []; statuses = []; array_of_requests = rs; tables = s }) pos
        (Records-inputs infos rs group recorded ms es as' same rec) can in
    rw run (
      ap (λ k. outcount_of t (length k)) ids ∙ ap (outcount_of t) (length-map_index ms),
      ids,
      q,
      ready,
      v,
    )
complete_taken-Replays src tag n wait infos recorded dests rs group t ms es s rest
      (unfinished as' l) pos rec can h =
    absurd h
complete_taken-Replays src tag n wait infos recorded dests rs group t ms es s rest ended pos rec can
      h =
    absurd h

events_of : Outcome (List Event × Recorder) → List Event
events_of (done (es, w)) = es
events_of (rempi_err e) = []

same_events :
    {es es' : List Event} {w w' : Recorder}
    → ◌≡◌ {A = Outcome (List Event × Recorder)} (done (es, w)) (done (es', w'))
    → es ≡ es'
unfolding events_of
same_events h = ap events_of h

-- A call of at least one match, each of a request that is known and no receive matched twice, was recorded as
-- this set of events. A replay where the queue of the matching set is ready and starts with the events of the
-- set, its counted events written out, calls dequeue_replay at most as often as there were matches, and ends:
-- it writes the indices of the record in their order, and their number as *outcount, or 1 if it is
-- MPI_Testall, and the rest of the queue stays ready. The replay has at least one request; each match is at
-- an index of its own, of a request of the kind that it had in the record; a send goes where it went in the
-- record, and a receive is known and MPI_Wait gives a message that it asks for.
pub record_set-replay_recorded :
    (any_source any_tag request_null : ℕ) (mpi_wait : ℕ → Status) (infos : List RequestType)
    (recording_requests requests dests : List ℕ) (fuel group : ℕ) (t : FunctionType)
    (m : ℕ × Status) (ms : List (ℕ × Status)) (w w' : Recorder) (es : List Event) (s : Requests)
    (l : EventList) (q : List Event) (rest : List (List ℕ))
    → AllOk infos recording_requests (m ∷ ms) w
    → record_set group infos recording_requests (m ∷ ms) w ≡ done (es, w')
    → length requests ≢ 0
    → length (m ∷ ms) ≤ fuel
    → CanReplay any_source any_tag request_null mpi_wait infos w.tmp_statuses dests requests
        (m ∷ ms)
        s
    → Ready group l q
    → view group l q ≡ map inputs es ++ rest
    → Replays group (outcount_of t (length (m ∷ ms))) (map (λ (k, status). k) (m ∷ ms)) rest (
        replay_recorded any_source any_tag request_null mpi_wait fuel group infos dests requests t s
          l)
unfolding replay_recorded Records
record_set-replay_recorded src tag n wait infos rrs rs dests fuel group t m ms w w' es s l q rest ok
      made pos enough can ready v =
    let (es', w'', made', rec', set') = record_set-Records infos rrs group m ms w ok in
    let same : es' ≡ es = same_events (sym made' ∙ made) in
    let rec : Records infos rs group w.tmp_statuses (m ∷ ms) es =
      subst (Records infos rs group w.tmp_statuses (m ∷ ms)) same rec' in
    complete_taken-Replays src tag n wait infos w.tmp_statuses dests rs group t (m ∷ ms) es s rest
      (get_next_events fuel group l) pos rec can
      (get_next_events-TakesSet fuel group l q es rest
        (subst (λ k. k ≤ fuel) (sym (Records-length infos rs group w.tmp_statuses (m ∷ ms) es rec))
          enough)
        (subst IsEventSet same set') ready v)
