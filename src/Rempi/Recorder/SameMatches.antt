-- ===== src/Rempi/Recorder/SameMatches.antt =====
-- The matches of a call in record (record_mf) and in replay (replay_mf_input of
-- src/rempi/rempi_recorder.cpp).
use re_omp_llvm.Common.{
  ℕ, suc, ◌≡◌, ◌≢◌, refl, sym, ap, ◌∙◌, true, false, Option, some, List, [], ◌∷◌, ◌++◌, map,
  append_assoc, append-nil, ◌==◌, get_elem?, set, length, get_elem?-set_ne, arith,
}
use re_omp_llvm.Rempi.Event.{Event}
use re_omp_llvm.Rempi.Requests.{Requests, RecvArgs, done, and_then, or_err}
use re_omp_llvm.Rempi.Requests.Table.{find, erase, find-erase}
use re_omp_llvm.Rempi.Requests.Registration.{
  RequestType, send_request, recv_request, null_request_type, ignr_request, get_matching_id,
  deregister_send_request, deregister_recv_request, deregister_found,
}
use re_omp_llvm.Rempi.Recorder.{FunctionType, Status}
use re_omp_llvm.Rempi.Recorder.Input.{
  ReplayState, is_asked_for, replay_kind, replay_event, complete_events, outcount_of,
}
use re_omp_llvm.Rempi.Recorder.RecordSet.{RankOf, Apart, Records}

module _ (request_null any_source any_tag : ℕ) (mpi_wait : ℕ → Status) where
  -- What a request of this kind needs in replay: a send goes to this rank; a receive is known, and MPI_Wait
  -- gives a message that it asks for.
  unfoldable pub ReplayOk :
      RequestType → (request rank : ℕ) (destination : Option ℕ) → Requests → Type 0
  unfolding find is_asked_for
  ReplayOk send_request r rank dest s = dest ≡ some rank
  ReplayOk recv_request r rank dest s =
      (args : RecvArgs) × (find r s.request_to_recv_args ≡ some args)
      × (is_asked_for request_null any_source any_tag mpi_wait args.source args.tag (mpi_wait r)
          ≡ true)
  ReplayOk null_request_type r rank dest s = Unit
  ReplayOk ignr_request r rank dest s = ⊥

  replay_kind-ReplayOk :
      (info : RequestType) (r rank : ℕ) (dest : Option ℕ) (s : Requests)
      → ReplayOk info r rank dest s
      → (s' : Requests) × (replay_kind request_null any_source any_tag mpi_wait info r rank dest s
          ≡ done s')
        × ((r' : ℕ)
            → Apart info r r'
            → find r' s'.request_to_recv_args ≡ find r' s.request_to_recv_args)
  unfolding replay_kind ReplayOk Apart deregister_send_request deregister_recv_request
      deregister_found get_matching_id or_err and_then
  replay_kind-ReplayOk send_request r rank dest s e =
      (deregister_send_request r s, rw e (ground arith), λ r' h. refl)
  replay_kind-ReplayOk recv_request r rank dest s (args, known, asked) = (
    record s { request_to_recv_args = erase r s.request_to_recv_args },
    rw (known, asked) refl,
    λ r' h. ground (arith, find-erase r' r s.request_to_recv_args, h),
  )
  replay_kind-ReplayOk null_request_type r rank dest s h = (s, refl, λ r' h. refl)
  replay_kind-ReplayOk ignr_request r rank dest s h = absurd h

  ReplayOk-kept :
      (info' : RequestType) (r' rank : ℕ) (dest : Option ℕ) (s s' : Requests)
      → (info' ≡ recv_request → find r' s'.request_to_recv_args ≡ find r' s.request_to_recv_args)
      → ReplayOk info' r' rank dest s
      → ReplayOk info' r' rank dest s'
  unfolding ReplayOk
  ReplayOk-kept send_request r' rank dest s s' h ok = ok
  ReplayOk-kept recv_request r' rank dest s s' h (args, known, asked) =
      (args, h refl ∙ known, asked)
  ReplayOk-kept null_request_type r' rank dest s s' h ok = ok
  ReplayOk-kept ignr_request r' rank dest s s' h ok = ok

  -- `rs` are the requests of the call in replay, `recorded` the destinations in the record
  module _ (infos : List RequestType) (rs recorded dests : List ℕ) where
    -- later matches are at other indices, and a receive among them is another request
    unfoldable pub Later : RequestType → (request index : ℕ) → List (ℕ × Status) → Type 0
    unfolding Apart
    Later info r k [] = Unit
    Later info r k ((k', status) ∷ ms) =
        ((k ≢ k')
          × ((r' : ℕ)
              → get_elem? rs k' ≡ some r'
              → get_elem? infos k' ≡ some recv_request
              → Apart info r r'))
        × Later info r k ms

    -- Each match is of a request of the call that can be completed, at an index of its own.
    unfoldable pub ReplayAll : List (ℕ × Status) → ReplayState → Type 0
    unfolding ReplayOk RankOf Later
    ReplayAll [] o = Unit
    ReplayAll ((k, status) ∷ ms) o =
        ((info : RequestType) × (r : ℕ) × (get_elem? infos k ≡ some info)
          × (get_elem? rs k ≡ some r)
          × (get_elem? o.array_of_requests k ≡ some r)
          × ((rank : ℕ)
              → RankOf info (get_elem? recorded k) rank
              → ReplayOk info r rank (get_elem? dests k) o.tables)
          × Later info r k ms)
        × ReplayAll ms o

    ReplayAll-step :
        (info : RequestType) (r k : ℕ) (ms : List (ℕ × Status)) (o o' : ReplayState)
        → o'.array_of_requests ≡ set o.array_of_requests k request_null
        → ((r' : ℕ)
            → Apart info r r'
            → find r' o'.tables.request_to_recv_args ≡ find r' o.tables.request_to_recv_args)
        → Later info r k ms
        → ReplayAll ms o
        → ReplayAll ms o'
    unfolding ReplayAll Later
    ReplayAll-step info r k [] o o' same kept later all = tt
    ReplayAll-step info r k ((k', status) ∷ ms) o o' same kept ((other, apart), later)
          ((i, q, e, f, g, ok, l), all) =
        (
          (
            i,
            q,
            e,
            f,
            ap (λ a. get_elem? a k') same
                ∙ get_elem?-set_ne o.array_of_requests k k' request_null other
                ∙ g,
            λ rank h.
                ReplayOk-kept i q rank (get_elem? dests k') o.tables o'.tables
                  (λ recv. kept q (apart q f (e ∙ ap some recv))) (ok rank h),
            l,
          ),
          ReplayAll-step info r k ms o o' same kept later all,
        )

    -- The replay completes the recorded matches, in order.
    pub complete_events-Records :
        (incount group : ℕ) (t : FunctionType) (ms : List (ℕ × Status)) (es : List Event)
        (o : ReplayState)
        → incount ≢ 0
        → Records infos rs group recorded ms es
        → ReplayAll ms o
        → (o' : ReplayState) × (complete_events request_null any_source any_tag mpi_wait incount
              infos dests t es o
            ≡ done (outcount_of t (length o'.indices), o'))
          × (o'.indices ≡ o.indices ++ map (λ (k, status). k) ms)
    unfolding complete_events replay_event Records ReplayAll or_err and_then
    complete_events-Records incount group t [] [] o pos rec all =
        (o, refl, sym (append-nil o.indices))
    complete_events-Records incount group t [] (e ∷ es) o pos rec all = absurd rec
    complete_events-Records incount group t (m ∷ ms) [] o pos rec all = absurd rec
    complete_events-Records incount group t ((k, status) ∷ ms) (e ∷ es) o pos
          ((test, flag, one, mark, at, grp, dest), rec) ((info, r, i, f, g, ok, later), all) =
        let (s', made, kept) =
          replay_kind-ReplayOk info r e.rank (get_elem? dests k) o.tables
            (ok e.rank (dest info i)) in
        let o1 : ReplayState = record {
          indices = o.indices ++ k ∷ [];
          statuses = o.statuses ++ mpi_wait r ∷ [];
          array_of_requests = set o.array_of_requests k request_null;
          tables = s';
        } in
        let (o', run, ids) =
          complete_events-Records incount group t ms es o1 pos rec
            (ReplayAll-step info r k ms o o1 refl kept later all) in
        let round : replay_event request_null any_source any_tag mpi_wait infos dests e o
            ≡ done o1 =
          rw (at, i, g, made) refl in
        let some_requests : (incount == 0) ≡ false = ground (arith, pos) in
        (
          o',
          rw (test, flag, some_requests, round) run,
          ids ∙ append_assoc o.indices (k ∷ []) (map (λ (k, status). k) ms),
        )

pub length-map_index : (ms : List (ℕ × Status)) → length (map (λ (k, status). k) ms) ≡ length ms
length-map_index [] = refl
length-map_index (m ∷ ms) = ap suc (length-map_index ms)
