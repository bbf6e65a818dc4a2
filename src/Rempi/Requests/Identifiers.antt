-- ===== src/Rempi/Requests/Identifiers.antt =====
-- The matching identifiers of src/rempi/rempi_request_mg.cpp and its header: a source, a tag and the number of
-- a communicator, sets of them, and the hash of the older assignment of matching sets.
use re_omp_llvm.Common.{
  ℕ, ◌+◌, Bool, false, ◌&&◌, ◌||◌, List, [], ◌∷◌, ◌++◌, ◌==◌, if◌then◌else◌, set,
}

-- rempi_matching_id
pub record MatchingId : Type 0 where
  pub source : ℕ
  pub tag : ℕ
  pub comm_id : ℕ

-- MPI_ANY_SOURCE and MPI_ANY_TAG
module _ (any_source any_tag : ℕ) where
  -- rempi_matching_id::has_intersection_with
  unfoldable pub has_intersection_with : (this input : MatchingId) → Bool
  has_intersection_with this input =
      if this.comm_id == input.comm_id
      then if this.source == any_source
        then (input.tag == any_tag) || (input.tag == this.tag)
        else if this.tag == any_tag
        then (input.source == any_source) || (input.source == this.source)
        else (this.source == input.source) && (this.tag == input.tag)
      else false

  -- rempi_matching_id::has_intersection_in
  unfoldable pub has_intersection_in : MatchingId → List MatchingId → Bool
  unfolding has_intersection_with
  has_intersection_in this [] = false
  has_intersection_in this (mid ∷ ids) =
      has_intersection_with this mid || has_intersection_in this ids

unfoldable pub same_id : (source tag comm_id : ℕ) → MatchingId → Bool
same_id source tag comm_id mid =
    (source == mid.source) && (tag == mid.tag) && (comm_id == mid.comm_id)

-- is_contained
unfoldable pub is_contained : (source tag comm_id : ℕ) → List MatchingId → Bool
unfolding same_id
is_contained source tag comm_id [] = false
is_contained source tag comm_id (mid ∷ ids) =
    same_id source tag comm_id mid || is_contained source tag comm_id ids

-- add_matching_id, where the set has this number in rempi_matching_id_vec_vec
unfoldable pub add_matching_id :
    (matching_set_id source tag comm_id : ℕ) → List MatchingId → List MatchingId
unfolding is_contained
add_matching_id set source tag comm_id ids =
    if is_contained source tag comm_id ids
    then ids
    else ids ++ record { source = source; tag = tag; comm_id = comm_id } ∷ []

-- assign_matching_set_id: the number of the first set that has the identifier, or of a new one
unfoldable pub assign_set :
    (source tag comm_id : ℕ) → List (List MatchingId) → ℕ × List (List MatchingId)
unfolding is_contained
assign_set source tag comm_id [] =
    (0, (record { source = source; tag = tag; comm_id = comm_id } ∷ []) ∷ [])
assign_set source tag comm_id (v ∷ vs) =
    let (n, ws) = assign_set source tag comm_id vs in
    if is_contained source tag comm_id v then (0, v ∷ vs) else (1 + n, v ∷ ws)
