-- ===== src/Rempi/Requests.antt =====
-- The request manager of src/rempi/rempi_request_mg.cpp: what it keeps of each MPI request, and the
-- matching sets, which say which receives a matching function may complete. A request, a communicator
-- and a buffer are numbers, an `int` is its pattern, and an unordered_map is a list of entries in the order
-- in which it is walked.
pub mod Table
pub mod Communicators
pub mod Registration
pub mod Sets
pub mod Assignment
pub mod Merging
pub mod Kinds
pub mod Classification
pub mod RoundTrip
pub mod Replay
pub mod Identifiers
mod Tests
use re_omp_llvm.Common.{ℕ, ◌-◌, ◌^◌, List, Option, none, some}

-- rempi_reqmg_recv_args
pub record RecvArgs : Type 0 where
  pub buffer : ℕ
  pub count : ℕ
  pub datatype : ℕ
  pub source : ℕ
  pub tag : ℕ
  pub comm : ℕ
  pub request : ℕ
  pub mpi_call_id : ℕ
  pub matching_set_id : ℕ

-- rempi_reqmg_send_args
pub record SendArgs : Type 0 where
  pub dest : ℕ
  pub clock : ℕ

-- The variables of the file, and those of rempi_mpi_comm_get_id: `comm_names` is named_comm_set with the
-- number that stands in the name of each communicator.
pub record Requests : Type 0 where
  pub request_to_recv_args : List (ℕ × RecvArgs)
  pub request_to_send_id : List (ℕ × SendArgs)
  pub mpi_call_id_to_matching_set_id : List (ℕ × ℕ)
  pub comm_tag_to_matching_set_id : List (ℕ × ℕ)
  pub mpi_call_id_to_comm_tag : List (ℕ × List ℕ)
  pub comm_names : List (ℕ × ℕ)
  pub next_comm_id : ℕ

-- REMPI_REQMG_MATCHING_SET_ID_UNKNOWN, -2, and REMPI_REQMG_MPI_CALL_ID_UNKNOWN, -1
abbrev pub matching_set_id_unknown : ℕ
matching_set_id_unknown = 2 ^ 32 - 2

abbrev pub mpi_call_id_unknown : ℕ
mpi_call_id_unknown = 2 ^ 32 - 1

-- The calls of REMPI_ERR and REMPI_ASSERT, and of at() on a missing key, all of which end the process.
pub data Fault : Type 0 where
  null_communicator no_such_request cannot_deregister no_such_set null_request : Fault
  inconsistent_set inconsistent_matching inconsistent_assignment : Fault
  both_tables unknown_request send_and_recv ignored_and_others not_rep no_such_mode : Fault
  no_such_call_type cannot_register : Fault
  too_many_requests out_of_bounds no_recv_event not_a_test_event no_requests : Fault
  other_destination other_message ignored_request broken_record event_list_error : Fault
  event_exists only_receives no_receive_due : Fault

pub data Outcome {ℓ} (A : Type ℓ) : Type ℓ where
  done : A → Outcome A
  rempi_err : Fault → Outcome A

unfoldable pub and_then {ℓ κ} : {A : Type ℓ} {B : Type κ} → Outcome A → (A → Outcome B) → Outcome B
and_then (done a) f = f a
and_then (rempi_err e) f = rempi_err e

-- what follows a lookup that has to find something
unfoldable pub or_err {ℓ} : {A : Type ℓ} → Fault → Option A → Outcome A
or_err e none = rempi_err e
or_err e (some a) = done a
