-- ===== src/Rempi/Recorder/RecordSet.antt =====
-- The set of events that record_mf of src/rempi/rempi_recorder.cpp makes of the matches of a call.
use mathlib.Core.Option.{some_inj}
use re_omp_llvm.Common.{
  ℕ, ◌≡◌, ◌≢◌, refl, sym, ap, ◌∙◌, subst, Option, some, List, [], ◌∷◌, get_elem?, update, arith,
}
use re_omp_llvm.Rempi.Event.{Event, type_test, minus_one, create_test_event}
use re_omp_llvm.Rempi.Requests.{RecvArgs, done, and_then, or_err}
use re_omp_llvm.Rempi.Requests.Table.{find, erase, find-erase}
use re_omp_llvm.Rempi.Requests.Registration.{
  RequestType, send_request, recv_request, null_request_type, ignr_request, get_recv_args,
  deregister_send_request, deregister_recv_request, deregister_found,
}
use re_omp_llvm.Rempi.Requests.Sets.{report_message_matching}
use re_omp_llvm.Rempi.Requests.RoundTrip.{add_comm_and_tag-recv}
use re_omp_llvm.Rempi.Recorder.{
  Status, Recorder, record_kind, next_mark, record_matches, end_set, record_set,
}
use re_omp_llvm.Rempi.Recorder.NextEvents.{IsEventSet}

-- What a match with a request of this kind needs: a send its destination; a receive its arguments, with a
-- communicator other than NULL, and its event.
unfoldable pub KindOk : RequestType → (request : ℕ) (destination : Option ℕ) → Recorder → Type 0
unfolding find
KindOk send_request r dest w = (d : ℕ) × (dest ≡ some d)
KindOk recv_request r dest w =
    (args : RecvArgs) × (find r w.requests.request_to_recv_args ≡ some args)
    × (args.comm ≢ 0)
    × (event : ℕ) × (find r w.request_to_recv_event ≡ some event)
KindOk null_request_type r dest w = Unit
KindOk ignr_request r dest w = Unit

-- the receives that a match leaves as they are
unfoldable pub Apart : RequestType → (request other : ℕ) → Type 0
Apart send_request r r' = Unit
Apart recv_request r r' = r ≢ r'
Apart null_request_type r r' = Unit
Apart ignr_request r r' = Unit

abbrev Kept : RequestType → (request : ℕ) → Recorder → Recorder → Type 0
unfolding Apart find
Kept info r w w' =
    (w'.tmp_statuses ≡ w.tmp_statuses)
    × ((r' : ℕ)
        → Apart info r r'
        → (find r' w'.requests.request_to_recv_args ≡ find r' w.requests.request_to_recv_args)
          × (find r' w'.request_to_recv_event ≡ find r' w.request_to_recv_event))

-- the rank of a send is its destination
unfoldable pub RankOf : RequestType → Option ℕ → ℕ → Type 0
RankOf send_request dest rank = dest ≡ some rank
RankOf recv_request dest rank = Unit
RankOf null_request_type dest rank = Unit
RankOf ignr_request dest rank = Unit

record_kind-KindOk :
    (info : RequestType) (r : ℕ) (dest : Option ℕ) (status : Status) (w : Recorder)
    → KindOk info r dest w
    → (rank : ℕ) × (w' : Recorder) × (record_kind info r dest status w ≡ done (rank, w'))
      × RankOf info dest rank
      × Kept info r w w'
unfolding record_kind KindOk RankOf Kept Apart or_err and_then deregister_send_request get_recv_args
    report_message_matching deregister_recv_request deregister_found
record_kind-KindOk send_request r dest status w (d, e) = (
  d,
  record w { requests = deregister_send_request r w.requests },
  rw e refl,
  e,
  (refl, λ r' h. (refl, refl)),
)
record_kind-KindOk recv_request r dest status w (args, known, comm, event, has_event) =
    let (s, e, same) =
      add_comm_and_tag-recv args.mpi_call_id args.comm status.mpi_tag w.requests comm in
    let known' : find r s.request_to_recv_args ≡ some args = ap (find r) same ∙ known in
    (
      status.mpi_source,
      record w {
        requests = record s { request_to_recv_args = erase r s.request_to_recv_args };
        request_to_recv_event = erase r w.request_to_recv_event;
        recv_rank = update w.recv_rank event status.mpi_source;
      },
      rw (known, e, known', has_event) refl,
      tt,
      (
        refl,
        λ r' h. (
          ground (arith, find-erase r' r s.request_to_recv_args, ap (find r') same, h),
          ground (arith, find-erase r' r w.request_to_recv_event, h),
        ),
      ),
    )
record_kind-KindOk null_request_type r dest status w h =
    (status.mpi_source, w, refl, tt, (refl, λ r' h. (refl, refl)))
record_kind-KindOk ignr_request r dest status w h =
    (minus_one, w, refl, tt, (refl, λ r' h. (refl, refl)))

KindOk-Kept :
    (info info' : RequestType) (r r' : ℕ) (dest : Option ℕ) (w w' : Recorder)
    → Kept info r w w'
    → (info' ≡ recv_request → Apart info r r')
    → KindOk info' r' dest w
    → KindOk info' r' dest w'
unfolding KindOk Kept
KindOk-Kept info send_request r r' dest w w' kept h ok = ok
KindOk-Kept info recv_request r r' dest w w' (tmp, kept) h (args, known, comm, event, has) =
    let (same, same') = kept r' (h refl) in (args, same ∙ known, comm, event, same' ∙ has)
KindOk-Kept info null_request_type r r' dest w w' kept h ok = ok
KindOk-Kept info ignr_request r r' dest w w' kept h ok = ok

module _ (infos : List RequestType) (requests : List ℕ) where
  -- the receives among these matches are left as they are by a match with this request
  unfoldable pub AllApart : RequestType → ℕ → List (ℕ × Status) → Type 0
  unfolding Apart
  AllApart info r [] = Unit
  AllApart info r ((k, status) ∷ ms) =
      ((r' : ℕ)
        → get_elem? requests k ≡ some r'
        → get_elem? infos k ≡ some recv_request
        → Apart info r r')
      × AllApart info r ms

  -- Each match is of a request that is known, and no receive is matched twice.
  unfoldable pub AllOk : List (ℕ × Status) → Recorder → Type 0
  unfolding KindOk
  AllOk [] w = Unit
  AllOk ((k, status) ∷ ms) w =
      ((info : RequestType) × (r : ℕ) × (get_elem? infos k ≡ some info)
        × (get_elem? requests k ≡ some r)
        × KindOk info r (get_elem? w.tmp_statuses k) w
        × AllApart info r ms)
      × AllOk ms w

  AllOk-Kept :
      (info : RequestType) (r : ℕ) (ms : List (ℕ × Status)) (w w' : Recorder)
      → Kept info r w w'
      → AllApart info r ms
      → AllOk ms w
      → AllOk ms w'
  unfolding AllOk AllApart Kept
  AllOk-Kept info r [] w w' kept apart ok = tt
  AllOk-Kept info r ((k, status) ∷ ms) w w' (tmp, kept) (now, later) ((i, q, e, f, ok, a), oks) = (
    (
      i,
      q,
      e,
      f,
      subst (λ l. KindOk i q (get_elem? l k) w') (sym tmp)
          (KindOk-Kept info i r q (get_elem? w.tmp_statuses k) w w' (tmp, kept)
            (λ h. now q f (e ∙ ap some h)) ok),
      a,
    ),
    AllOk-Kept info r ms w w' (tmp, kept) later oks,
  )

  -- These are the events of these matches: single test events that matched, of this group, with the indices
  -- in order, all but the last marked to have a next; the rank of a send is its destination.
  unfoldable pub Records :
      (group : ℕ) (destinations : List ℕ) → List (ℕ × Status) → List Event → Type 0
  unfolding RankOf next_mark
  Records group dests [] [] = Unit
  Records group dests [] (e ∷ es) = ⊥
  Records group dests (m ∷ ms) [] = ⊥
  Records group dests ((k, status) ∷ ms) (e ∷ es) =
      ((e.type ≡ type_test)
        × (e.flag ≡ 1)
        × (e.event_count ≡ 1)
        × (e.with_next ≡ next_mark ms)
        × (e.index ≡ k)
        × (e.matching_group_id ≡ group)
        × ((info : RequestType)
            → get_elem? infos k ≡ some info
            → RankOf info (get_elem? dests k) e.rank))
      × Records group dests ms es

  record_matches-Records :
      (group : ℕ) (ms : List (ℕ × Status)) (w : Recorder)
      → AllOk ms w
      → (es : List Event) × (w' : Recorder) × (record_matches group infos requests ms w
          ≡ done (es, w'))
        × Records group w.tmp_statuses ms es
  unfolding record_matches AllOk Records Kept or_err and_then
  record_matches-Records group [] w ok = ([], w, refl, tt)
  record_matches-Records group ((k, status) ∷ ms) w ((info, r, e, f, ok, apart), oks) =
      let (rank, w1, made, dest, (tmp, kept)) =
        record_kind-KindOk info r (get_elem? w.tmp_statuses k) status w ok in
      let (es, w2, made2, all) =
        record_matches-Records group ms w1 (AllOk-Kept info r ms w w1 (tmp, kept) apart oks) in
      (
        create_test_event 1 1 rank (next_mark ms) k 0 group ∷ es,
        w2,
        rw (e, f, made, made2) refl,
        (
          (
            refl,
            refl,
            refl,
            refl,
            refl,
            refl,
            λ info' h.
                subst (λ i. RankOf i (get_elem? w.tmp_statuses k) rank) (some_inj.0 (sym e ∙ h))
                  dest,
          ),
          subst (λ l. Records group l ms es) tmp all,
        ),
      )

  end_set-Records :
      (group : ℕ) (dests : List ℕ) (ms : List (ℕ × Status)) (es : List Event)
      → Records group dests ms es
      → Records group dests ms (end_set es)
  unfolding Records end_set
  end_set-Records group dests [] [] h = h
  end_set-Records group dests ((k, status) ∷ []) (e ∷ []) ((a, b, c, n, i, g, d), h) =
      ((a, b, c, refl, i, g, d), h)
  end_set-Records group dests (m ∷ m' ∷ ms) (e ∷ e' ∷ es) (now, h) =
      (now, end_set-Records group dests (m' ∷ ms) (e' ∷ es) h)
  end_set-Records group dests [] (e ∷ es) h = absurd h
  end_set-Records group dests (m ∷ ms) [] h = absurd h
  end_set-Records group dests (m ∷ []) (e ∷ e' ∷ es) (now, h) = absurd h
  end_set-Records group dests (m ∷ m' ∷ ms) (e ∷ []) (now, h) = absurd h

  Records-IsEventSet :
      (group : ℕ) (dests : List ℕ) (m : ℕ × Status) (ms : List (ℕ × Status)) (es : List Event)
      → Records group dests (m ∷ ms) es
      → IsEventSet es
  unfolding Records next_mark
  Records-IsEventSet group dests m [] (e ∷ []) ((a, b, c, n, i, g, d), h) = ground (arith, n)
  Records-IsEventSet group dests m (m' ∷ ms) (e ∷ e' ∷ es) ((a, b, c, n, i, g, d), h) =
      (n, Records-IsEventSet group dests m' ms (e' ∷ es) h)
  Records-IsEventSet group dests m ms [] h = absurd h
  Records-IsEventSet group dests m [] (e ∷ e' ∷ es) (now, h) = absurd h
  Records-IsEventSet group dests m (m' ∷ ms) (e ∷ []) (now, h) = absurd h

  -- Where each match is of a request that is known and no receive is matched twice, the recorded call of at
  -- least one match makes its events.
  pub record_set-Records :
      (group : ℕ) (m : ℕ × Status) (ms : List (ℕ × Status)) (w : Recorder)
      → AllOk (m ∷ ms) w
      → (es : List Event) × (w' : Recorder) × (record_set group infos requests (m ∷ ms) w
          ≡ done (es, w'))
        × Records group w.tmp_statuses (m ∷ ms) es
        × IsEventSet es
  unfolding record_set and_then
  record_set-Records group m ms w ok =
      let (es, w', made, all) = record_matches-Records group (m ∷ ms) w ok in
      let all' = end_set-Records group w.tmp_statuses (m ∷ ms) es all in
      (
        end_set es,
        w',
        rw made refl,
        all',
        Records-IsEventSet group w.tmp_statuses m ms (end_set es) all',
      )
