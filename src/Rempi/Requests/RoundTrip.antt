-- ===== src/Rempi/Requests/RoundTrip.antt =====
-- A receive from its registration to its deregistration in src/rempi/rempi_request_mg.cpp.
use re_omp_llvm.Common.{
  ℕ, ◌≡◌, ◌≢◌, refl, ap, ◌∙◌, Option, none, some, List, [], ◌==◌, if◌then◌else◌, arith,
}
use re_omp_llvm.Rempi.Requests.{
  Requests, RecvArgs, matching_set_id_unknown, mpi_call_id_unknown, done, and_then, or_err,
}
use re_omp_llvm.Rempi.Requests.Table.{
  find, insert, erase, add_number, find-insert, find-insert_self, find-erase,
}
use re_omp_llvm.Rempi.Requests.Communicators.{
  comm_get_id-taken, get_msg_id-taken, taken, taken-recv, id_and_tag,
}
use re_omp_llvm.Rempi.Requests.Registration.{
  Posted, add_recv_args, recv_request, deregister_request, deregister_recv_request,
  deregister_found, get_matching_id,
}
use re_omp_llvm.Rempi.Requests.Sets.{
  recv_call, or_empty, add_comm_and_tag_to_mpi_call_id, assign_matching_set_id_to_recv,
}
use re_omp_llvm.Rempi.Requests.Assignment.{
  TestId, test_id_0, test_id_1, test_id_2, test_id_3, other_test_id, record_mode, Query,
  find_or_assign, known_set, note_tag, by_known_1, by_known_3, assign_by_type,
  get_matching_set_id_0, get_matching_set_id_1, get_matching_set_id_2, get_matching_set_id_3,
  assign_and_get_matching_set_id, register_recv_request, register_request,
}

-- The table of receives is not touched where a tag is noted.
pub add_comm_and_tag-recv :
    (call comm tag : ℕ) (s : Requests)
    → comm ≢ 0
    → (s' : Requests) × (add_comm_and_tag_to_mpi_call_id call comm tag s ≡ done s')
      × (s'.request_to_recv_args ≡ s.request_to_recv_args)
unfolding add_comm_and_tag_to_mpi_call_id and_then
add_comm_and_tag-recv call comm tag s h =
    let s1 : Requests = (taken comm s).1 in
    let s2 : Requests = (taken comm s1).1 in
    let msg_id : ℕ = id_and_tag ((taken comm s1).0) tag in
    (
      record s2 {
        mpi_call_id_to_comm_tag =
            insert call (add_number msg_id (or_empty (find call s2.mpi_call_id_to_comm_tag)))
              s2.mpi_call_id_to_comm_tag;
      },
      rw (comm_get_id-taken comm s h, get_msg_id-taken comm tag s1 h) refl,
      taken-recv comm s1 ∙ taken-recv comm s,
    )

-- A record finds a set for a receive, and leaves the table of receives.
by_known_3-recv :
    (request_null : ℕ) (q : Query) (o : Option ℕ) (s : Requests)
    → q.mpi_call_type ≡ recv_call
    → q.requests ≡ []
    → (set : ℕ) × (by_known_3 request_null q o s ≡ done (set, s))
unfolding by_known_3 known_set find_or_assign assign_matching_set_id_to_recv and_then
by_known_3-recv n q (some set) s e f = (set, rw f refl)
by_known_3-recv n q none s e f = (matching_set_id_unknown, rw e refl)

by_known_1-recv :
    (request_null : ℕ) (q : Query) (o : Option ℕ) (s : Requests)
    → q.mpi_call_type ≡ recv_call
    → q.requests ≡ []
    → (set : ℕ) × (by_known_1 request_null record_mode q o s ≡ done (set, s))
unfolding by_known_1 known_set assign_by_type assign_matching_set_id_to_recv and_then
by_known_1-recv n q (some set) s e f = (set, rw f refl)
by_known_1-recv n q none s e f = (matching_set_id_unknown, rw e refl)

-- what the post of a receive asks about
abbrev asked : (call : ℕ) → Posted → Query
asked call p = record {
  mpi_call_id = call;
  mpi_call_type = recv_call;
  tag = p.tag;
  comm = p.comm;
  requests = [];
  given = matching_set_id_unknown;
}

pub register_recv_request-returns :
    (request_null : ℕ) (test_id : TestId) (call : ℕ) (p : Posted) (s : Requests)
    → p.comm ≢ 0
    → (set : ℕ) × (id : ℕ) × (s' : Requests) × (register_recv_request request_null test_id
          record_mode call p s
        ≡ done (set, add_recv_args p id set s'))
      × (s'.request_to_recv_args ≡ s.request_to_recv_args)
unfolding register_recv_request assign_and_get_matching_set_id get_matching_set_id_0
    get_matching_set_id_1 get_matching_set_id_2 get_matching_set_id_3 note_tag and_then
register_recv_request-returns n test_id_0 call p s h = (0, mpi_call_id_unknown, s, refl, refl)
register_recv_request-returns n test_id_1 call p s h =
    let (s1, e1, kept) = add_comm_and_tag-recv call p.comm p.tag s h in
    let (set, e2) =
      by_known_3-recv n (asked call p) (find call s1.mpi_call_id_to_matching_set_id) s1 refl refl in
    (set, call, s1, rw (e1, e2) refl, kept)
register_recv_request-returns n test_id_2 call p s h =
    let (set, e) =
      by_known_1-recv n (asked call p) (find call s.mpi_call_id_to_matching_set_id) s refl refl in
    (set, call, s, rw e refl, refl)
register_recv_request-returns n test_id_3 call p s h =
    (matching_set_id_unknown, mpi_call_id_unknown, s, refl, refl)
register_recv_request-returns n other_test_id call p s h = (0, mpi_call_id_unknown, s, refl, refl)

-- For any REMPI_TEST_ID, a record registers every receive on a communicator other than NULL, and then its source, tag and
-- communicator are what rempi_reqmg_get_matching_id reads. Its deregistration ends well and leaves the table
-- of receives without the request and with every other as before.
pub deregister-register_request :
    (request_null : ℕ) (test_id : TestId) (call clock : ℕ) (p : Posted) (s : Requests)
    → p.comm ≢ 0
    → (set : ℕ) × (s' : Requests) × (s'' : Requests) × (register_request request_null test_id
          record_mode call clock p recv_request s
        ≡ done (set, s'))
      × (get_matching_id p.request s' ≡ done (p.rank, p.tag, p.comm))
      × (deregister_request p.request recv_request s' ≡ done s'')
      × ((r : ℕ)
          → find r s''.request_to_recv_args
            ≡ (if p.request == r then none else find r s.request_to_recv_args))
unfolding register_request deregister_request deregister_recv_request deregister_found add_recv_args
    get_matching_id or_err and_then
deregister-register_request n t call clock p s h =
    let (set, id, s1, e, kept) = register_recv_request-returns n t call p s h in
    let args : RecvArgs = record {
      buffer = p.buf;
      count = p.count;
      datatype = p.datatype;
      source = p.rank;
      tag = p.tag;
      comm = p.comm;
      request = p.request;
      mpi_call_id = id;
      matching_set_id = set;
    } in
    let table : List (ℕ × RecvArgs) = insert p.request args s1.request_to_recv_args in
    let found : find p.request table ≡ some args =
      find-insert_self p.request args s1.request_to_recv_args in
    (
      set,
      add_recv_args p id set s1,
      record (add_recv_args p id set s1) { request_to_recv_args = erase p.request table },
      e,
      rw found refl,
      rw found refl,
      λ r. ground (
        arith,
        find-erase r p.request table,
        find-insert r p.request args s1.request_to_recv_args,
        ap (find r) kept,
      ),
    )
