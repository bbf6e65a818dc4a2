-- ===== src/Rempi/Messages.antt =====
-- The message manager of src/rempi/rempi_message_manager.cpp: the receives that are pending, by request,
-- and those that were matched. It keeps pointers, so an identifier stands with the address of its object,
-- and an operation that allocates is given the address that it gets. The values are `int` patterns.
pub mod Matching
mod Tests
use re_omp_llvm.Common.{
  ℕ, zero, suc, ◌+◌, ◌-◌, ◌%◌, ◌^◌, Bool, true, false, ◌&&◌, ◌||◌, Option, none, some, List, [],
  ◌∷◌, ◌++◌, ltb, ◌==◌, if◌then◌else◌,
}

-- rempi_message_identifier
pub record Identifier : Type 0 where
  pub source : ℕ
  pub tag : ℕ
  pub comm_id : ℕ
  pub test_id : ℕ

-- rempi_message_identifier::operator==
unfoldable pub same_identifier : Identifier → Identifier → Bool
same_identifier a b =
    (a.source == b.source)
    && (a.tag == b.tag)
    && (a.comm_id == b.comm_id)
    && (a.test_id == b.test_id)

-- The calls of REMPI_ERR, which end the process.
pub data Failure : Type 0 where
  too_many_bits already_pending not_pending other_source other_tag not_matched : Failure

pub data Reply {ℓ} (A : Type ℓ) : Type ℓ where
  done : A → Reply A
  rempi_err : Failure → Reply A

-- the loop that `compress_value` stands for: its two shifts have no effect
unfoldable pub compress_value : (bits value compressed : ℕ) → ℕ
compress_value zero value compressed = compressed
compress_value (suc bits) value compressed =
    compress_value bits value
      (if (compressed % 2 == 1) || (value % 2 == 0) then compressed else compressed + 1)

-- rempi_message_identifier::compress; the sum of the bits is an `int`
unfoldable pub compress : (source source_bits tag tag_bits comm_id comm_id_bits : ℕ) → Reply ℕ
unfolding compress_value
compress source source_bits tag tag_bits comm_id comm_id_bits =
    let size : ℕ = (source_bits + tag_bits + comm_id_bits) % 2 ^ 32 in
    if ltb 64 size && ltb size (2 ^ 31)
    then rempi_err too_many_bits
    else done (
        compress_value comm_id_bits comm_id
          (compress_value tag_bits tag (compress_value source_bits source 0)))

-- an object with its address
abbrev pub Pointer : Type 0
Pointer = ℕ × Identifier

-- rempi_message_manager, where `pending_recvs` is an association list
pub record Manager : Type 0 where
  pub pending_recvs : List (ℕ × Pointer)
  pub matched_recvs : List Pointer

unfoldable pub find_pending : ℕ → List (ℕ × Pointer) → Option Pointer
find_pending request [] = none
find_pending request ((r, p) ∷ ps) = if r == request then some p else find_pending request ps

unfoldable pub erase_pending : ℕ → List (ℕ × Pointer) → List (ℕ × Pointer)
erase_pending request [] = []
erase_pending request ((r, p) ∷ ps) =
    let rest = erase_pending request ps in if r == request then rest else (r, p) ∷ rest

-- rempi_message_manager::add_pending_recv
unfoldable pub add_pending_recv : (address request source tag comm_id : ℕ) → Manager → Reply Manager
unfolding find_pending
add_pending_recv address request source tag comm_id m =
    elim (find_pending request m.pending_recvs) [
      | some _ ↦ rempi_err already_pending
      | none ↦
          let msg : Identifier = record {
            source = source;
            tag = tag;
            comm_id = comm_id;
            test_id = 2 ^ 32 - 1;
          } in
          done (record m { pending_recvs = (request, (address, msg)) ∷ m.pending_recvs })
    ]

-- rempi_message_manager::query_pending_comm_id
unfoldable pub query_pending_comm_id : ℕ → Manager → Reply ℕ
unfolding find_pending
query_pending_comm_id request m = elim (find_pending request m.pending_recvs) [
  | none ↦ rempi_err not_pending
  | some (address, msg) ↦ done (msg.comm_id)
]

-- MPI_ANY_SOURCE and MPI_ANY_TAG
module _ (any_source any_tag : ℕ) where
  -- what add_matched_recv does with the pointer that it found
  unfoldable pub match_pending :
      (request source tag test_id : ℕ) → Option Pointer → Manager → Reply (ℕ × Manager)
  unfolding erase_pending
  match_pending request source tag test_id none m = rempi_err not_pending
  match_pending request source tag test_id (some (address, msg)) m =
      if (msg.source == any_source) || (msg.source == source)
      then if (msg.tag == any_tag) || (msg.tag == tag)
        then done (
          msg.comm_id,
          record {
            pending_recvs = erase_pending request m.pending_recvs;
            matched_recvs =
                m.matched_recvs
                ++ (
                  address,
                  record { source = source; tag = tag; comm_id = msg.comm_id; test_id = test_id },
                )
                  ∷ [];
          },
        )
        else rempi_err other_tag
      else rempi_err other_source

  -- rempi_message_manager::add_matched_recv
  unfoldable pub add_matched_recv : (request source tag test_id : ℕ) → Manager → Reply (ℕ × Manager)
  unfolding match_pending find_pending
  add_matched_recv request source tag test_id m =
      match_pending request source tag test_id (find_pending request m.pending_recvs) m

-- std::find on a list of pointers
unfoldable pub find_pointer : ℕ → List Pointer → Bool
find_pointer address [] = false
find_pointer address ((a, msg) ∷ ps) = (a == address) || find_pointer address ps

-- rempi_message_manager::is_matched_recv: the new object has this address
unfoldable pub is_matched_recv : (address : ℕ) → Identifier → Manager → Bool
unfolding find_pointer
is_matched_recv address msg m = find_pointer address m.matched_recvs

-- the loop of remove_matched_recv
unfoldable pub remove_pointer : ℕ → List Pointer → Option (List Pointer)
remove_pointer address [] = none
remove_pointer address ((a, msg) ∷ ps) =
    let rest = remove_pointer address ps in
    if a == address then some ps else elim rest [ none ↦ none | some qs ↦ some ((a, msg) ∷ qs) ]

-- rempi_message_manager::remove_matched_recv
unfoldable pub remove_matched_recv : (address : ℕ) → Identifier → Manager → Reply Manager
unfolding remove_pointer
remove_matched_recv address msg m = elim (remove_pointer address m.matched_recvs) [
  | none ↦ rempi_err not_matched
  | some ps ↦ done (record m { matched_recvs = ps })
]
