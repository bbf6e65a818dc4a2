-- ===== src/Rempi/Requests/Registration.antt =====
-- The table entry of a request in src/rempi/rempi_request_mg.cpp, from its registration to its
-- deregistration, and what is read from it. What rempi_reqmg_assign_and_get_matching_set_id gives a receive
-- is an argument here; Sets has that function.
use re_omp_llvm.Common.{ℕ, ◌+◌, Option, none, some, List, [], ◌∷◌, ◌==◌, if◌then◌else◌}
use re_omp_llvm.Rempi.Requests.{
  Requests, RecvArgs, SendArgs, no_such_request, cannot_deregister, null_request, Outcome, done,
  rempi_err, and_then, or_err,
}
use re_omp_llvm.Rempi.Requests.Table.{find, insert, erase}

-- The parameters of a call that posts a send or a receive: `rank` is the source or the destination.
pub record Posted : Type 0 where
  pub buf : ℕ
  pub count : ℕ
  pub datatype : ℕ
  pub rank : ℕ
  pub tag : ℕ
  pub comm : ℕ
  pub request : ℕ

-- rempi_reqmg_register_recv_request, after it has asked for the call id and the matching set
unfoldable pub add_recv_args : Posted → (mpi_call_id matching_set_id : ℕ) → Requests → Requests
unfolding insert
add_recv_args p call set s = record s {
  request_to_recv_args =
      insert p.request
        (record {
          buffer = p.buf;
          count = p.count;
          datatype = p.datatype;
          source = p.rank;
          tag = p.tag;
          comm = p.comm;
          request = p.request;
          mpi_call_id = call;
          matching_set_id = set;
        })
        s.request_to_recv_args;
}

-- rempi_reqmg_register_send_request: `clock` is the local clock
unfoldable pub register_send_request : Posted → (clock : ℕ) → Requests → Requests
unfolding insert
register_send_request p clock s = record s {
  request_to_send_id =
      insert p.request (record { dest = p.rank; clock = clock }) s.request_to_send_id;
}

-- rempi_reqmg_deregister_recv_request, where `o` is what the erasure finds
unfoldable pub deregister_found : (request : ℕ) → Option RecvArgs → Requests → Outcome Requests
unfolding erase
deregister_found request none s = rempi_err cannot_deregister
deregister_found request (some args) s =
    done (record s { request_to_recv_args = erase request s.request_to_recv_args })

unfoldable pub deregister_recv_request : (request : ℕ) → Requests → Outcome Requests
unfolding find deregister_found
deregister_recv_request request s = deregister_found request (find request s.request_to_recv_args) s

-- rempi_reqmg_deregister_send_request returns 1 whatever was erased
unfoldable pub deregister_send_request : (request : ℕ) → Requests → Requests
unfolding erase
deregister_send_request request s = record s {
  request_to_send_id = erase request s.request_to_send_id;
}

-- REMPI_SEND_REQUEST, REMPI_RECV_REQUEST, REMPI_NULL_REQUEST and REMPI_IGNR_REQUEST
pub data RequestType : Type 0 where
  send_request recv_request null_request_type ignr_request : RequestType

-- rempi_reqmg_deregister_request
unfoldable pub deregister_request : (request : ℕ) → RequestType → Requests → Outcome Requests
unfolding deregister_send_request deregister_recv_request
deregister_request request send_request s = done (deregister_send_request request s)
deregister_request request recv_request s = deregister_recv_request request s
deregister_request request null_request_type s = done s
deregister_request request ignr_request s = done s

-- MPI_REQUEST_NULL
module _ (request_null : ℕ) where
  -- rempi_reqmg_get_request_type, by what the two tables hold of the request
  unfoldable pub type_of : (request : ℕ) → Option SendArgs → Option RecvArgs → Outcome RequestType
  type_of request (some a) o = done send_request
  type_of request none (some a) = done recv_request
  type_of request none none =
      if request == request_null
      then done null_request_type
      else if request == 0
      then rempi_err null_request
      else done ignr_request

  unfoldable pub get_request_type : (request : ℕ) → Requests → Outcome RequestType
  unfolding type_of find
  get_request_type request s =
      type_of request (find request s.request_to_send_id) (find request s.request_to_recv_args)

  -- rempi_reqmg_get_null_request_count
  unfoldable pub get_null_request_count : List ℕ → ℕ
  get_null_request_count [] = 0
  get_null_request_count (r ∷ rs) =
      let count = get_null_request_count rs in if r == request_null then 1 + count else count

-- rempi_reqmg_get_matching_id: the source, the tag and the communicator
unfoldable pub get_matching_id : (request : ℕ) → Requests → Outcome (ℕ × ℕ × ℕ)
unfolding find or_err and_then
get_matching_id request s =
    and_then (or_err no_such_request (find request s.request_to_recv_args))
      (λ args. done (args.source, args.tag, args.comm))

-- rempi_reqmg_get_buffer
unfoldable pub get_buffer : (request : ℕ) → Requests → Outcome ℕ
unfolding find or_err and_then
get_buffer request s =
    and_then (or_err no_such_request (find request s.request_to_recv_args))
      (λ args. done args.buffer)

-- rempi_reqmg_get_recv_args
unfoldable pub get_recv_args : (request : ℕ) → Requests → Outcome RecvArgs
unfolding find or_err
get_recv_args request s = or_err no_such_request (find request s.request_to_recv_args)

-- rempi_reqmg_get_send_request_clock
unfoldable pub get_send_request_clock : (request : ℕ) → Requests → Outcome ℕ
unfolding find or_err and_then
get_send_request_clock request s =
    and_then (or_err no_such_request (find request s.request_to_send_id)) (λ args. done args.clock)

-- rempi_reqmg_get_send_request_dest
unfoldable pub get_send_request_dest : (request : ℕ) → Requests → Outcome ℕ
unfolding find or_err and_then
get_send_request_dest request s =
    and_then (or_err no_such_request (find request s.request_to_send_id)) (λ args. done args.dest)

unfoldable pub count_if_found : Option RecvArgs → ℕ → ℕ
count_if_found none n = n
count_if_found (some args) n = 1 + n

-- rempi_reqmg_get_recv_request_count
unfoldable pub get_recv_request_count : List ℕ → Requests → ℕ
unfolding find count_if_found
get_recv_request_count [] s = 0
get_recv_request_count (r ∷ rs) s =
    count_if_found (find r s.request_to_recv_args) (get_recv_request_count rs s)
