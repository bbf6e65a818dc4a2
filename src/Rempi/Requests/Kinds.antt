-- ===== src/Rempi/Requests/Kinds.antt =====
-- rempi_reqmg_get_request_info of src/rempi/rempi_request_mg.cpp: what each request of a matching function
-- is, how many there are of each kind, whether the call is recorded, and its matching set.
use re_omp_llvm.Common.{
  ℕ, ◌+◌, Bool, true, false, not, ◌&&◌, ◌||◌, Option, none, some, List, [], ◌∷◌, ◌==◌, ltb,
  if◌then◌else◌,
}
use re_omp_llvm.Rempi.Requests.{
  Requests, RecvArgs, SendArgs, matching_set_id_unknown, both_tables, unknown_request, null_request,
  send_and_recv, ignored_and_others, no_such_request, Outcome, done, rempi_err, and_then, or_err,
}
use re_omp_llvm.Rempi.Requests.Table.{find}
use re_omp_llvm.Rempi.Requests.Registration.{
  RequestType, send_request, recv_request, null_request_type, ignr_request,
}
use re_omp_llvm.Rempi.Requests.Sets.{mf_call}
use re_omp_llvm.Rempi.Requests.Assignment.{RunMode, TestId, assign_and_get_matching_set_id}

-- the counters of the loop, with `ignore`
pub record Counts : Type 0 where
  pub sendcount : ℕ
  pub recvcount : ℕ
  pub nullcount : ℕ
  pub ignore : ℕ

abbrev pub no_counts : Counts
no_counts = record { sendcount = 0; recvcount = 0; nullcount = 0; ignore = 0 }

unfoldable pub count_type : RequestType → Counts → Counts
count_type send_request c = record c { sendcount = c.sendcount + 1 }
count_type recv_request c = record c { recvcount = c.recvcount + 1 }
count_type null_request_type c = record c { nullcount = c.nullcount + 1 }
count_type ignr_request c = record c { ignore = c.ignore + 1 }

-- `strict` is a build with neither REMPI_LITE nor REMPI_HYPRE_TEST, request_null is MPI_REQUEST_NULL
module _ (strict : Bool) (request_null : ℕ) where
  -- a round of the loop, by what the two tables hold of the request
  unfoldable pub info_of : (request : ℕ) → Option SendArgs → Option RecvArgs → Outcome RequestType
  info_of r (some a) (some b) = rempi_err both_tables
  info_of r (some a) none = done send_request
  info_of r none (some b) = done recv_request
  info_of r none none =
      if r == request_null
      then done null_request_type
      else if r == 0
      then rempi_err null_request
      else if strict
      then rempi_err unknown_request
      else done ignr_request

  -- the loop: request_info and the counters
  unfoldable pub get_info :
      (requests : List ℕ) → Counts → Requests → Outcome (List RequestType × Counts)
  unfolding info_of count_type find and_then
  get_info [] c s = done ([], c)
  get_info (r ∷ rs) c s =
      and_then (info_of r (find r s.request_to_send_id) (find r s.request_to_recv_args))
        (λ t. and_then (get_info rs (count_type t c) s) (λ (ts, c'). done (t ∷ ts, c')))

-- rempi_encode, of which REMPI_ENV_REMPI_ENCODE_CDC and _REP are told apart
pub data Encode : Type 0 where
  cdc_encode rep_encode other_encode : Encode

-- rempi_reqmg_is_record_and_replay, in a build with REMPI_LITE and in one without
unfoldable pub is_record_and_replay : (lite : Bool) → Encode → Counts → Outcome Bool
is_record_and_replay true encode c = done (if ltb 0 c.ignore then false else true)
is_record_and_replay false cdc_encode c = done (if ltb 0 c.sendcount then false else true)
is_record_and_replay false rep_encode c =
    if ltb 0 c.sendcount && ltb 0 c.recvcount
    then rempi_err send_and_recv
    else if ltb 0 c.ignore
    then if c.sendcount + c.recvcount + c.nullcount == 0
      then done false
      else rempi_err ignored_and_others
    else done true
is_record_and_replay false other_encode c = done true

-- what a matching function learns of its requests
pub record Info : Type 0 where
  pub counts : Counts
  pub request_info : List RequestType
  pub recorded : Bool
  pub matching_set_id : ℕ

-- The settings of the process: those of the build, MPI_REQUEST_NULL, MPI_ANY_TAG and the environment.
pub record Settings : Type 0 where
  pub lite : Bool
  pub hypre_test : Bool
  pub request_null : ℕ
  pub any_tag : ℕ
  pub rempi_encode : Encode
  pub mode : RunMode
  pub test_id : TestId

-- the matching set of a call that is recorded; it passes NULL for the communicator
unfoldable pub set_if_recorded :
    Settings
    → (mpi_call_id : ℕ) (requests : List ℕ) (recorded : Bool) → Requests
    → Outcome (ℕ × Requests)
unfolding assign_and_get_matching_set_id and_then
set_if_recorded g call rs false s = done (matching_set_id_unknown, s)
set_if_recorded g call rs true s =
    and_then
      (assign_and_get_matching_set_id g.request_null g.test_id g.mode
        (record {
          mpi_call_id = call;
          mpi_call_type = mf_call;
          tag = g.any_tag;
          comm = 0;
          requests = rs;
          given = matching_set_id_unknown;
        })
        s)
      (λ (set, id, s'). done (set, s'))

-- rempi_reqmg_get_request_info
unfoldable pub get_request_info :
    Settings → (mpi_call_id : ℕ) (requests : List ℕ) → Requests → Outcome (Info × Requests)
unfolding get_info is_record_and_replay set_if_recorded and_then
get_request_info g call rs s =
    and_then (get_info (not (g.lite || g.hypre_test)) g.request_null rs no_counts s) (λ (infos, c).
      and_then (is_record_and_replay g.lite g.rempi_encode c) (λ recorded.
        and_then (set_if_recorded g call rs recorded s) (λ (set, s'). done (
          record { counts = c; request_info = infos; recorded = recorded; matching_set_id = set },
          s',
        ))))

-- rempi_reqmg_store_send_statuses: the sources of the statuses
unfoldable pub store_send_statuses :
    (requests : List ℕ) (request_info : List RequestType) (sources : List ℕ)
    → Requests
    → Outcome (List ℕ)
unfolding find or_err and_then
store_send_statuses (r ∷ rs) (send_request ∷ ts) (i ∷ is) s =
    and_then (or_err no_such_request (find r s.request_to_send_id))
      (λ args. and_then (store_send_statuses rs ts is s) (λ js. done (args.dest ∷ js)))
store_send_statuses (r ∷ rs) (t ∷ ts) (i ∷ is) s =
    and_then (store_send_statuses rs ts is s) (λ js. done (i ∷ js))
store_send_statuses rs ts is s = done is
