-- ===== src/Rempi/Requests/Replay.antt =====
-- A matching function in replay: get_matching_set_id_from of src/rempi/rempi_request_mg.cpp on the table
-- that the record wrote.
use re_omp_llvm.Common.{
  ℕ, ◌≡◌, ◌≢◌, refl, sym, ap, ◌∙◌, true, false, Option, none, some, List, [], ◌∷◌, ◌==◌,
  if◌then◌else◌, arith,
}
use re_omp_llvm.Rempi.Requests.{Requests, RecvArgs, mpi_call_id_unknown, done, and_then}
use re_omp_llvm.Rempi.Requests.Table.{find, contains}
use re_omp_llvm.Rempi.Requests.Communicators.{comm_get_id, get_msg_id, id_of, id_and_tag}
use re_omp_llvm.Rempi.Requests.Registration.{count_if_found, get_recv_request_count}
use re_omp_llvm.Rempi.Requests.Sets.{
  mf_call, set_of_receive, continue_with, set_of_request, set_of_requests, get_matching_set_id_from,
}
use re_omp_llvm.Rempi.Requests.Assignment.{
  replay_mode, Query, get_matching_set_id_3, or_no_such_set,
}
use re_omp_llvm.Rempi.Requests.Merging.{get_matching_set_id_map, set_matching_set_id_map}
use re_omp_llvm.Rempi.Requests.Merging.Agree.{Together-find}
use re_omp_llvm.Rempi.Requests.Merging.Export.{NodupKeys, set-get_matching_set_id_map}

-- The message number of a receive on a communicator that has its number, is one of these.
unfoldable pub IsOneOf : (ms : List ℕ) → Requests → RecvArgs → Type 0
unfolding find id_and_tag contains
IsOneOf ms s args =
    (args.comm ≢ 0)
    × (id : ℕ) × (find args.comm s.comm_names ≡ some id)
    × (contains (id_and_tag id args.tag) ms ≡ true)

-- all receives among the requests are such
unfoldable pub AreOf : (ms requests : List ℕ) → Requests → Type 0
unfolding find
AreOf ms [] s = Unit
AreOf ms (r ∷ rs) s =
    ((args : RecvArgs) → find r s.request_to_recv_args ≡ some args → IsOneOf ms s args)
    × AreOf ms rs s

-- the table has these messages in this set
abbrev AreIn : (ms : List ℕ) (v : ℕ) → Requests → Type 0
unfolding find contains
AreIn ms v s = (m : ℕ) → contains m ms ≡ true → find m s.comm_tag_to_matching_set_id ≡ some v

set_of_receive-AreIn :
    (ms : List ℕ) (v : ℕ) (args : RecvArgs) (s : Requests)
    → AreIn ms v s
    → IsOneOf ms s args
    → set_of_receive args s ≡ done (some v, s)
unfolding set_of_receive get_msg_id comm_get_id id_of AreIn IsOneOf and_then
set_of_receive-AreIn ms v args s h (nonnull, id, named, one) =
    let known : comm_get_id args.comm s ≡ done (id, s) = ground (arith, nonnull, named) in
    rw (known, h (id_and_tag id args.tag) one) refl

-- Once a set is known, the receives that follow confirm it.
set_of_requests-confirms :
    (ms : List ℕ) (v : ℕ) (rs : List ℕ) (s : Requests)
    → AreIn ms v s
    → AreOf ms rs s
    → set_of_requests true v rs s ≡ done (some v, s)
unfolding set_of_requests AreOf
set_of_requests-confirms ms v [] s h k = refl
set_of_requests-confirms ms v (r ∷ rs) s h (now, later) =
    confirm (find r s.request_to_recv_args) now (set_of_requests-confirms ms v rs s h later)
  where
    confirm :
        (o : Option RecvArgs)
        → ((args : RecvArgs) → o ≡ some args → IsOneOf ms s args)
        → set_of_requests true v rs s ≡ done (some v, s)
        → set_of_request true v o s (λ b i. set_of_requests b i rs) ≡ done (some v, s)
    confirm none k ih = unfold set_of_request in ih
    confirm (some args) k ih =
        unfold set_of_request continue_with and_then in
        rw (set_of_receive-AreIn ms v args s h (k args refl)) (ground (arith, ih))

set_of_requests-finds :
    (ms : List ℕ) (v i : ℕ) (rs : List ℕ) (s : Requests)
    → AreIn ms v s
    → AreOf ms rs s
    → set_of_requests false i rs s
      ≡ done (some (if get_recv_request_count rs s == 0 then i else v), s)
unfolding set_of_requests get_recv_request_count AreOf
set_of_requests-finds ms v i [] s h k = refl
set_of_requests-finds ms v i (r ∷ rs) s h (now, later) =
    first (find r s.request_to_recv_args) now (set_of_requests-finds ms v i rs s h later)
  where
    first :
        (o : Option RecvArgs)
        → ((args : RecvArgs) → o ≡ some args → IsOneOf ms s args)
        → set_of_requests false i rs s
          ≡ done (some (if get_recv_request_count rs s == 0 then i else v), s)
        → set_of_request false i o s (λ b i. set_of_requests b i rs)
          ≡ done (some (if count_if_found o (get_recv_request_count rs s) == 0 then i else v), s)
    first none k ih = unfold set_of_request count_if_found in ih
    first (some args) k ih =
        unfold set_of_request count_if_found continue_with and_then in
        rw (set_of_receive-AreIn ms v args s h (k args refl))
          (set_of_requests-confirms ms v rs s h later ∙ ground arith)

AreOf-set_matching_set_id_map :
    (ms rs is js : List ℕ) (r : Requests)
    → AreOf ms rs r
    → AreOf ms rs (set_matching_set_id_map is js r)
unfolding set_matching_set_id_map AreOf IsOneOf
AreOf-set_matching_set_id_map ms [] is js r h = tt
AreOf-set_matching_set_id_map ms (k ∷ rs) is js r (now, later) =
    (now, AreOf-set_matching_set_id_map ms rs is js r later)

get_recv_request_count-set_matching_set_id_map :
    (rs is js : List ℕ) (r : Requests)
    → get_recv_request_count rs (set_matching_set_id_map is js r) ≡ get_recv_request_count rs r
unfolding get_recv_request_count set_matching_set_id_map
get_recv_request_count-set_matching_set_id_map [] is js r = refl
get_recv_request_count-set_matching_set_id_map (k ∷ rs) is js r =
    ap (count_if_found (find k r.request_to_recv_args))
      (get_recv_request_count-set_matching_set_id_map rs is js r)

-- A record with the REP encoder writes its table, which has one entry for each message, and a replay reads it
-- into an empty one. Let a call have had a matching set and these messages in the record. Then a matching
-- function that waits for receives of such messages, on communicators that have the same numbers in the
-- replay and are not NULL, finds the set that the table of the record, as it was written, gives to each of
-- these messages, and changes nothing; with no receive among its requests it returns what it was given.
pub replay-get_matching_set_id_3 :
    (request_null : ℕ) (s r : Requests) (q : Query) (call set : ℕ) (ms : List ℕ)
    → NodupKeys s.comm_tag_to_matching_set_id
    → r.comm_tag_to_matching_set_id ≡ []
    → find call s.mpi_call_id_to_matching_set_id ≡ some set
    → find call s.mpi_call_id_to_comm_tag ≡ some ms
    → q.mpi_call_type ≡ mf_call
    → AreOf ms q.requests r
    → (msg_ids : List ℕ) × (set_ids : List ℕ) × (s' : Requests) × (v : ℕ) × (get_matching_set_id_map
          true s
        ≡ done (msg_ids, set_ids, s'))
      × ((m : ℕ) → contains m ms ≡ true → find m s'.comm_tag_to_matching_set_id ≡ some v)
      × (get_matching_set_id_3 request_null replay_mode q
            (set_matching_set_id_map msg_ids set_ids r)
          ≡ done (
            if get_recv_request_count q.requests r == 0 then q.given else v,
            mpi_call_id_unknown,
            set_matching_set_id_map msg_ids set_ids r,
          ))
unfolding get_matching_set_id_3 get_matching_set_id_from or_no_such_set and_then AreIn
replay-get_matching_set_id_3 n s r q call set ms nodup e known messages mf of =
    let (msg_ids, set_ids, s', made, same, together) = set-get_matching_set_id_map s r nodup e in
    let (v, all) = together call set known in
    let r' : Requests = set_matching_set_id_map msg_ids set_ids r in
    let inside : AreIn ms v r' = λ m c.
      Together-find (find call s.mpi_call_id_to_comm_tag) ms r'.comm_tag_to_matching_set_id v m
        messages all c in
    let found =
      set_of_requests-finds ms v q.given q.requests r' inside
        (AreOf-set_matching_set_id_map ms q.requests msg_ids set_ids r of) in
    (
      msg_ids,
      set_ids,
      s',
      v,
      made,
      λ m c. sym (same m) ∙ inside m c,
      rw (mf, found)
          (ap (λ k. done (if k == 0 then q.given else v, mpi_call_id_unknown, r'))
            (get_recv_request_count-set_matching_set_id_map q.requests msg_ids set_ids r)),
    )
