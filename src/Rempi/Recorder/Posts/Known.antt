-- ===== src/Rempi/Recorder/Posts/Known.antt =====
-- What record_irecv of src/rempi/rempi_recorder.cpp leaves for the matching functions.
use re_omp_llvm.Common.{ℕ, ◌≡◌, ◌≢◌, refl, sym, ap, ◌∙◌, Option, none, update}
use re_omp_llvm.Rempi.Event.{create_recv_event}
use re_omp_llvm.Rempi.Requests.{RecvArgs, done, and_then}
use re_omp_llvm.Rempi.Requests.Table.{find, insert, find-insert_self, find-insert_ne}
use re_omp_llvm.Rempi.Requests.Registration.{Posted, recv_request, add_recv_args}
use re_omp_llvm.Rempi.Requests.Assignment.{record_mode, register_request}
use re_omp_llvm.Rempi.Requests.RoundTrip.{register_recv_request-returns}
use re_omp_llvm.Rempi.Requests.Kinds.{Settings}
use re_omp_llvm.Rempi.Recorder.{Recorder}
use re_omp_llvm.Rempi.Recorder.RecordSet.{KindOk}
use re_omp_llvm.Rempi.Recorder.Posts.{register, put_event, record_irecv}

-- A record, with any REMPI_TEST_ID, that posts a receive, on a communicator other than NULL and with a request that has no event yet,
-- returns an event of any source to be pushed; then the request is ready for a matching function, and every
-- other request has the arguments and the event that it had.
pub record_irecv-KindOk :
    (g : Settings) (any_source call event : ℕ) (p : Posted) (w : Recorder) (dest : Option ℕ)
    → g.mode ≡ record_mode
    → p.comm ≢ 0
    → find p.request w.request_to_recv_event ≡ none
    → (w' : Recorder) × (record_irecv g any_source call event p w
        ≡ done (create_recv_event any_source p.request, w'))
      × KindOk recv_request p.request dest w'
      × ((r : ℕ)
          → r ≢ p.request
          → (find r w'.requests.request_to_recv_args ≡ find r w.requests.request_to_recv_args)
            × (find r w'.request_to_recv_event ≡ find r w.request_to_recv_event))
unfolding record_irecv register register_request put_event KindOk add_recv_args and_then
record_irecv-KindOk g any_source call event p w dest rec comm fresh =
    let (set, id, s1, e, kept) =
      register_recv_request-returns g.request_null g.test_id call p w.requests comm in
    let args : RecvArgs = record {
      buffer = p.buf;
      count = p.count;
      datatype = p.datatype;
      source = p.rank;
      tag = p.tag;
      comm = p.comm;
      request = p.request;
      mpi_call_id = id;
      matching_set_id = set;
    } in
    (
      record w {
        requests = add_recv_args p id set s1;
        recv_rank = update w.recv_rank event any_source;
        request_to_recv_event = insert p.request event w.request_to_recv_event;
      },
      rw (rec, e, fresh) refl,
      (
        args,
        find-insert_self p.request args s1.request_to_recv_args,
        comm,
        event,
        find-insert_self p.request event w.request_to_recv_event,
      ),
      λ r h. (
        find-insert_ne r p.request args s1.request_to_recv_args (λ k. h (sym k)) ∙ ap (find r) kept,
        find-insert_ne r p.request event w.request_to_recv_event (λ k. h (sym k)),
      ),
    )
