-- ===== src/Rempi/Cdc/Tests.antt =====
-- The edit script of three events, and the theorem about it at those.
use re_omp_llvm.Common.{
  ℕ, zero, suc, ◌+◌, ◌≤◌, ◌≡◌, ◌≢◌, ◌<◌, refl, Option, some, List, [], ◌∷◌, length, map, arith,
}
use re_omp_llvm.Rempi.Cdc.{
  Edit, ignore, add, remove, clock_at, compress_to_diff, match_rows, match_row, row_found,
  next_start_search_it, find_matched, set_run, add_node, scan_leaves, better, find_shortest_node,
  erase_at, new_node, sweep, convert_to_diff_reversed, diff_of, downwards, change_to_seq_order_id,
  get_shortest_distance,
}
use re_omp_llvm.Rempi.Cdc.Script.{consumed, produced, down_from}
use re_omp_llvm.Rempi.Cdc.Matching.{Ascending}
use re_omp_llvm.Rempi.Cdc.Compress.{compress_to_diff_lem}
use re_omp_llvm.Rempi.Cdc.Distance.{NoneShorter, add_nodes, add_node_shortest}

abbrev clocked : List ℕ
clocked = 5 ∷ 9 ∷ 20 ∷ []

abbrev observed : List ℕ
observed = 9 ∷ 5 ∷ 20 ∷ []

test_diff : List ℕ → List ℕ → Option (List Edit)
unfolding compress_to_diff match_rows match_row row_found next_start_search_it find_matched set_run
    add_node scan_leaves better find_shortest_node erase_at new_node sweep convert_to_diff_reversed
    diff_of downwards change_to_seq_order_id
test_diff = compress_to_diff

-- backwards: 20 stays, 5 is added after 9, which stays, and 5 is removed before it
one_moved :
    test_diff clocked observed ≡ some ((2, ignore) ∷ (0, add) ∷ (1, ignore) ∷ (0, remove) ∷ [])
unfolding test_diff
one_moved = refl

clocked-Ascending : Ascending clocked
clocked-Ascending zero zero h1 h2 = absurd (omega arith)
clocked-Ascending zero (suc zero) h1 h2 = omega arith
clocked-Ascending zero (suc (suc zero)) h1 h2 = omega arith
clocked-Ascending zero (suc (suc (suc j))) h1 h2 = absurd (omega arith)
clocked-Ascending (suc zero) zero h1 h2 = absurd (omega arith)
clocked-Ascending (suc zero) (suc zero) h1 h2 = absurd (omega arith)
clocked-Ascending (suc zero) (suc (suc zero)) h1 h2 = omega arith
clocked-Ascending (suc zero) (suc (suc (suc j))) h1 h2 = absurd (omega arith)
clocked-Ascending (suc (suc i)) j h1 h2 = absurd (omega arith)

observed-found :
    (i : ℕ)
    → i < length observed
    → (k : ℕ) × (k < length clocked) × (clock_at clocked k ≡ clock_at observed i)
observed-found zero h = (1, omega arith, refl)
observed-found (suc zero) h = (0, omega arith, refl)
observed-found (suc (suc zero)) h = (2, omega arith, refl)
observed-found (suc (suc (suc i))) h = absurd (omega arith)

observed-distinct :
    (i j : ℕ) → i < j → j < length observed → clock_at observed i ≢ clock_at observed j
observed-distinct zero zero h1 h2 e = omega arith
observed-distinct zero (suc zero) h1 h2 e = omega (arith, e)
observed-distinct zero (suc (suc zero)) h1 h2 e = omega (arith, e)
observed-distinct zero (suc (suc (suc j))) h1 h2 e = omega arith
observed-distinct (suc zero) zero h1 h2 e = omega arith
observed-distinct (suc zero) (suc zero) h1 h2 e = omega arith
observed-distinct (suc zero) (suc (suc zero)) h1 h2 e = omega (arith, e)
observed-distinct (suc zero) (suc (suc (suc j))) h1 h2 e = omega arith
observed-distinct (suc (suc i)) j h1 h2 e = omega arith

compress_to_diff_lem_example :
    (diff : List Edit) × (compress_to_diff clocked observed ≡ some diff)
    × (consumed diff ≡ down_from (length clocked))
    × (map (clock_at clocked) (produced diff)
        ≡ map (clock_at observed) (down_from (length observed)))
compress_to_diff_lem_example = compress_to_diff_lem clocked observed (record {
  ascending = clocked-Ascending;
  same_length = refl;
  found = observed-found;
  distinct = observed-distinct;
})

-- three matches, of which the second goes back to an earlier column
abbrev places : List (ℕ × ℕ × ℕ)
places = (0, 1, 0) ∷ (1, 0, 0) ∷ []

test_distance : List (ℕ × ℕ × ℕ) → (row column start : ℕ) → Option ℕ
unfolding add_nodes add_node scan_leaves better find_shortest_node erase_at new_node sweep
    get_shortest_distance
test_distance calls row column start =
    get_shortest_distance (add_node row column start (add_nodes calls []))

three_entries : test_distance places 2 2 2 ≡ some 3
unfolding test_distance
three_entries = refl

add_node_shortest_example :
    let leaves = add_nodes places [] in
    let after = add_node 2 2 2 leaves in
    (get_shortest_distance after ≡ some (length (convert_to_diff_reversed after)))
    × NoneShorter 2 2 (length (convert_to_diff_reversed after)) leaves
    × (length (convert_to_diff_reversed after) ≤ 2 + 2)
add_node_shortest_example = add_node_shortest places 2 2 2
