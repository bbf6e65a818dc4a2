-- ===== src/Rempi/Requests/Sets.antt =====
-- The matching set of a call, as src/rempi/rempi_request_mg.cpp finds or assigns it. The number of the call
-- (get_mpi_call_id) is a hash of its stack, which is an argument; the mode and REMPI_TEST_ID are settings.
use re_omp_llvm.Common.{
  ℕ, Bool, true, false, not, ◌&&◌, ◌||◌, Option, none, some, List, [], ◌∷◌, ◌==◌, if◌then◌else◌,
}
use re_omp_llvm.Rempi.Requests.{
  Requests, RecvArgs, SendArgs, matching_set_id_unknown, no_such_request, no_such_set,
  inconsistent_set, inconsistent_matching, Outcome, done, rempi_err, and_then, or_err,
}
use re_omp_llvm.Rempi.Requests.Table.{find, insert, add_number}
use re_omp_llvm.Rempi.Requests.Communicators.{comm_get_id, get_msg_id}
use re_omp_llvm.Rempi.Requests.Registration.{get_recv_args}

-- REMPI_REQMG_MPI_CALL_TYPE_SEND, _RECV and _MF
pub data CallType : Type 0 where
  send_call recv_call mf_call : CallType

-- the set of numbers of a call, which is made where there is none
unfoldable pub or_empty : Option (List ℕ) → List ℕ
or_empty none = []
or_empty (some ms) = ms

-- add_comm_and_tag_to_mpi_call_id
unfoldable pub add_comm_and_tag_to_mpi_call_id :
    (mpi_call_id comm tag : ℕ) → Requests → Outcome Requests
unfolding comm_get_id get_msg_id insert add_number or_empty find and_then
add_comm_and_tag_to_mpi_call_id call comm tag s = and_then (comm_get_id comm s) (λ (id, s').
    and_then (get_msg_id comm tag s') (λ (msg_id, s''). done (record s'' {
      mpi_call_id_to_comm_tag =
          insert call (add_number msg_id (or_empty (find call s''.mpi_call_id_to_comm_tag)))
            s''.mpi_call_id_to_comm_tag;
    })))

-- rempi_reqmg_report_message_matching: `tag` is the tag in the status
unfoldable pub report_message_matching : (request tag : ℕ) → Requests → Outcome Requests
unfolding get_recv_args add_comm_and_tag_to_mpi_call_id and_then
report_message_matching request tag s =
    and_then (get_recv_args request s)
      (λ args. add_comm_and_tag_to_mpi_call_id args.mpi_call_id args.comm tag s)

-- what the table of sets holds of a receive
unfoldable pub set_of_receive : RecvArgs → Requests → Outcome (Option ℕ × Requests)
unfolding get_msg_id find and_then
set_of_receive args s =
    and_then (get_msg_id args.comm args.tag s)
      (λ (msg_id, s'). done (find msg_id s'.comm_tag_to_matching_set_id, s'))

-- what the loop of get_matching_set_id_from does with that: `rest` is what follows
unfoldable pub continue_with :
    (is_set : Bool) (matching_set_id : ℕ)
    → (ℕ → Requests → Outcome (Option ℕ × Requests))
    → Option ℕ × Requests
    → Outcome (Option ℕ × Requests)
continue_with is_set set rest (none, s) = done (none, s)
continue_with is_set set rest (some found, s) =
    if is_set && not (found == set) then rempi_err inconsistent_set else rest found s

-- a round of the loop, by what the table of receives holds of the request
unfoldable pub set_of_request :
    (is_set : Bool) (matching_set_id : ℕ)
    → Option RecvArgs
    → Requests
    → (Bool → ℕ → Requests → Outcome (Option ℕ × Requests))
    → Outcome (Option ℕ × Requests)
unfolding set_of_receive continue_with and_then
set_of_request is_set set none s rest = rest is_set set s
set_of_request is_set set (some args) s rest =
    and_then (set_of_receive args s) (continue_with is_set set (rest true))

-- the loop over the requests; the result is a set, or none for the return of -1
unfoldable pub set_of_requests :
    (is_set : Bool) (matching_set_id : ℕ) (requests : List ℕ)
    → Requests
    → Outcome (Option ℕ × Requests)
unfolding find set_of_request
set_of_requests is_set set [] s = done (some set, s)
set_of_requests is_set set (r ∷ rs) s =
    set_of_request is_set set (find r s.request_to_recv_args) s (λ b i. set_of_requests b i rs)

-- get_matching_set_id_from, where `set` is what matching_set_id points at
unfoldable pub get_matching_set_id_from :
    (tag comm : ℕ) (requests : List ℕ)
    → CallType
    → (set : ℕ) → Requests
    → Outcome (Option ℕ × Requests)
unfolding get_msg_id find set_of_requests and_then
get_matching_set_id_from tag comm requests recv_call set s =
    and_then (get_msg_id comm tag s)
      (λ (msg_id, s'). done (find msg_id s'.comm_tag_to_matching_set_id, s'))
get_matching_set_id_from tag comm requests mf_call set s = set_of_requests false set requests s
get_matching_set_id_from tag comm requests send_call set s = done (some matching_set_id_unknown, s)

-- rempi_reqmg_assign_matching_set_id_to_recv for a receive with these arguments
unfoldable pub assign_to_args : (matching_set_id request : ℕ) → RecvArgs → Requests → Requests
unfolding insert
assign_to_args set request args s =
    if args.matching_set_id == matching_set_id_unknown
    then record s {
      request_to_recv_args =
          insert request (record args { matching_set_id = set }) s.request_to_recv_args;
      mpi_call_id_to_matching_set_id = insert args.mpi_call_id set s.mpi_call_id_to_matching_set_id;
    }
    else s

-- MPI_REQUEST_NULL
module _ (request_null : ℕ) where
  unfoldable pub assign_to_request :
      (matching_set_id request : ℕ)
      → Option RecvArgs
      → Option SendArgs
      → Requests
      → Outcome Requests
  unfolding assign_to_args
  assign_to_request set r (some args) o s = done (assign_to_args set r args s)
  assign_to_request set r none (some args) s = done s
  assign_to_request set r none none s =
      if r == request_null then done s else rempi_err no_such_request

  -- rempi_reqmg_assign_matching_set_id_to_recv
  unfoldable pub assign_matching_set_id_to_recv :
      (matching_set_id : ℕ) (requests : List ℕ) → Requests → Outcome Requests
  unfolding find assign_to_request and_then
  assign_matching_set_id_to_recv set [] s = done s
  assign_matching_set_id_to_recv set (r ∷ rs) s =
      and_then
        (assign_to_request set r (find r s.request_to_recv_args) (find r s.request_to_send_id) s)
        (assign_matching_set_id_to_recv set rs)

-- a round of the loop of rempi_reqmg_get_matching_set_id_from_recv
unfoldable pub set_after : (matching_set_id : ℕ) → Option RecvArgs → Option SendArgs → Outcome ℕ
set_after set (some args) o =
    if args.matching_set_id == matching_set_id_unknown
    then done set
    else if (set == matching_set_id_unknown) || (set == args.matching_set_id)
    then done args.matching_set_id
    else rempi_err inconsistent_matching
set_after set none (some args) = done set
set_after set none none = rempi_err no_such_request

unfoldable pub sets_after : (matching_set_id : ℕ) (requests : List ℕ) → Requests → Outcome ℕ
unfolding find set_after and_then
sets_after set [] s = done set
sets_after set (r ∷ rs) s =
    and_then (set_after set (find r s.request_to_recv_args) (find r s.request_to_send_id))
      (λ set'. sets_after set' rs s)

-- rempi_reqmg_get_matching_set_id_from_recv
unfoldable pub get_matching_set_id_from_recv : (requests : List ℕ) → Requests → Outcome ℕ
unfolding sets_after
get_matching_set_id_from_recv rs s = sets_after matching_set_id_unknown rs s

-- the loop of add_comms_and_tags_to_mpi_call_id over the requests of a matching function
unfoldable pub add_if_receive : (mpi_call_id : ℕ) → Option RecvArgs → Requests → Outcome Requests
unfolding add_comm_and_tag_to_mpi_call_id
add_if_receive call none s = done s
add_if_receive call (some args) s = add_comm_and_tag_to_mpi_call_id call args.comm args.tag s

unfoldable pub add_receives : (mpi_call_id : ℕ) (requests : List ℕ) → Requests → Outcome Requests
unfolding find add_if_receive and_then
add_receives call [] s = done s
add_receives call (r ∷ rs) s =
    and_then (add_if_receive call (find r s.request_to_recv_args) s) (add_receives call rs)

-- add_comms_and_tags_to_mpi_call_id
unfoldable pub add_comms_and_tags_to_mpi_call_id :
    (mpi_call_id comm tag : ℕ) (requests : List ℕ) → CallType → Requests → Outcome Requests
unfolding add_comm_and_tag_to_mpi_call_id add_receives
add_comms_and_tags_to_mpi_call_id call comm tag rs recv_call s =
    add_comm_and_tag_to_mpi_call_id call comm tag s
add_comms_and_tags_to_mpi_call_id call comm tag rs mf_call s = add_receives call rs s
add_comms_and_tags_to_mpi_call_id call comm tag rs send_call s = done s

-- rempi_reqmg_get_matching_set_id: `off` is whether rempi_is_test_id is 0
unfoldable pub get_matching_set_id : (off : Bool) (tag comm : ℕ) → Requests → Outcome (ℕ × Requests)
unfolding get_msg_id find or_err and_then
get_matching_set_id true tag comm s = done (0, s)
get_matching_set_id false tag comm s = and_then (get_msg_id comm tag s) (λ (msg_id, s').
    and_then (or_err no_such_set (find msg_id s'.comm_tag_to_matching_set_id))
      (λ set. done (set, s')))
