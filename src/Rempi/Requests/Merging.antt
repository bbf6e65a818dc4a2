-- ===== src/Rempi/Requests/Merging.antt =====
-- The table of matching sets that a record writes and a replay reads back: what change_matching_set_id,
-- assign_matching_set_id_to_msg_id, rempi_reqmg_get_matching_set_id_map and
-- rempi_reqmg_set_matching_set_id_map of src/rempi/rempi_request_mg.cpp do to it.
pub mod Agree
pub mod Export
use re_omp_llvm.Common.{
  ℕ, ◌≡◌, ◌≢◌, refl, sym, ap, ◌∙◌, Bool, true, false, Option, none, some, List, [], ◌∷◌, map, ◌==◌,
  if◌then◌else◌, arith,
}
use re_omp_llvm.Rempi.Requests.{Requests, Fault, not_rep, Outcome, done, rempi_err, and_then}
use re_omp_llvm.Rempi.Requests.Table.{find, insert, find-insert, contains}

-- the loop of change_matching_set_id
unfoldable pub rename : (old_id new_id : ℕ) → List (ℕ × ℕ) → List (ℕ × ℕ)
rename old_id new_id [] = []
rename old_id new_id ((msg_id, old_set_id) ∷ t) =
    (msg_id, if old_id == old_set_id then new_id else old_set_id) ∷ rename old_id new_id t

-- change_matching_set_id: `rep` is whether rempi_encode is REMPI_ENV_REMPI_ENCODE_REP
unfoldable pub change_matching_set_id :
    (rep : Bool) (old_id new_id : ℕ) → List (ℕ × ℕ) → Outcome (List (ℕ × ℕ))
unfolding rename
change_matching_set_id false old_id new_id t = rempi_err not_rep
change_matching_set_id true old_id new_id t = done (rename old_id new_id t)

-- what the loop of assign_matching_set_id_to_msg_id does with one number, whose set was looked up
unfoldable pub assign_found :
    (rep : Bool) (matching_set_id msg_id : ℕ) → Option ℕ → List (ℕ × ℕ) → Outcome (List (ℕ × ℕ))
unfolding change_matching_set_id insert and_then
assign_found rep set msg_id none t = done (insert msg_id set t)
assign_found rep set msg_id (some old_set_id) t =
    if old_set_id == set
    then done (insert msg_id set t)
    else and_then (change_matching_set_id rep old_set_id set t) (λ t'. done (insert msg_id set t'))

-- the loop
unfoldable pub assign_all :
    (rep : Bool) (matching_set_id : ℕ) (msg_ids : List ℕ) → List (ℕ × ℕ) → Outcome (List (ℕ × ℕ))
unfolding assign_found find and_then
assign_all rep set [] t = done t
assign_all rep set (msg_id ∷ ms) t =
    and_then (assign_found rep set msg_id (find msg_id t) t) (assign_all rep set ms)

-- assign_matching_set_id_to_msg_id, after its search of mpi_call_id_to_comm_tag_umap
unfoldable pub assign_matching_set_id_to_msg_id :
    (rep : Bool) (matching_set_id : ℕ) → Option (List ℕ) → List (ℕ × ℕ) → Outcome (List (ℕ × ℕ))
unfolding assign_all
assign_matching_set_id_to_msg_id rep set none t = done t
assign_matching_set_id_to_msg_id rep set (some ms) t = assign_all rep set ms t

-- the first loop of rempi_reqmg_get_matching_set_id_map
unfoldable pub assign_calls :
    (rep : Bool) (calls : List (ℕ × ℕ)) (msgs : List (ℕ × List ℕ))
    → List (ℕ × ℕ)
    → Outcome (List (ℕ × ℕ))
unfolding assign_matching_set_id_to_msg_id find and_then
assign_calls rep [] msgs t = done t
assign_calls rep ((mpi_call_id, matching_set_id) ∷ calls) msgs t =
    and_then (assign_matching_set_id_to_msg_id rep matching_set_id (find mpi_call_id msgs) t)
      (assign_calls rep calls msgs)

-- rempi_reqmg_get_matching_set_id_map: the numbers and their sets, of which `length` is the length
unfoldable pub get_matching_set_id_map :
    (rep : Bool) → Requests → Outcome (List ℕ × List ℕ × Requests)
unfolding assign_calls and_then
get_matching_set_id_map rep s =
    and_then
      (assign_calls rep s.mpi_call_id_to_matching_set_id s.mpi_call_id_to_comm_tag
        s.comm_tag_to_matching_set_id)
      (λ t.
        done
          (map (λ (m, i). m) t, map (λ (m, i). i) t, record s { comm_tag_to_matching_set_id = t }))

-- the loop of rempi_reqmg_set_matching_set_id_map, over two arrays of the same length
unfoldable pub set_all : (msg_ids matching_set_ids : List ℕ) → List (ℕ × ℕ) → List (ℕ × ℕ)
unfolding insert
set_all [] is t = t
set_all (m ∷ ms) [] t = t
set_all (m ∷ ms) (i ∷ is) t = set_all ms is (insert m i t)

-- rempi_reqmg_set_matching_set_id_map
unfoldable pub set_matching_set_id_map : (msg_ids matching_set_ids : List ℕ) → Requests → Requests
unfolding set_all
set_matching_set_id_map ms is s = record s {
  comm_tag_to_matching_set_id = set_all ms is s.comm_tag_to_matching_set_id;
}
