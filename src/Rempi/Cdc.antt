-- ===== src/Rempi/Cdc.antt =====
-- Clock delta compression (src/rempi/rempi_clock_delta_compression.cpp): the receive events in the
-- order of their clocks are turned into the observed order by a short edit script.
pub mod Chains
pub mod Script
pub mod Matching
pub mod Compress
pub mod Distance
mod Tests
use re_omp_llvm.Common.{
  ℕ, zero, suc, ◌+◌, ◌-◌, ◌≤◌, ◌<◌, Bool, true, false, ◌&&◌, ◌||◌, Option, none, some, List, [],
  ◌∷◌, ◌++◌, length, drop, set, replicate, update, ltb, leb, ◌==◌, if◌then◌else◌,
}

-- A clock_node. `parent` is the rest of the list in which it stands first: a node is named by itself
-- and its ancestors.
pub record ClockNode : Type 0 where
  pub row : ℕ
  pub column : ℕ
  pub row_distance : ℕ
  pub column_distance : ℕ
  pub shortest_distance : ℕ

abbrev pub Chain : Type 0
Chain = List ClockNode

-- find_shortest_node: `none` is -1, and else the distance and the node.
unfoldable pub find_shortest_node : (row column : ℕ) → Chain → Option (ℕ × Chain)
find_shortest_node row column [] = none
find_shortest_node row column (s ∷ up) =
    let above = find_shortest_node row column up in
    if leb (s.row + 1) row && leb (s.column + 1) column
    then some (s.shortest_distance + (row - (s.row + 1)) + (column - (s.column + 1)), s ∷ up)
    else above

-- What the loop of add_node has found: the distance, the parent ([] for NULL), and the place of the
-- leaf that is to be erased.
pub record Best : Type 0 where
  pub distance : ℕ
  pub parent : Chain
  pub erased : Option ℕ

-- one leaf; a node that is found is the leaf itself where it has all the ancestors of the leaf
unfoldable pub better : (row column i : ℕ) → Chain → Best → Best
unfolding find_shortest_node
better row column i leaf b = elim (find_shortest_node row column leaf) [
  | none ↦ b
  | some (d, p) ↦
      if ltb d b.distance
      then record {
        distance = d;
        parent = p;
        erased = if length p == length leaf then some i else none;
      }
      else b
]

unfoldable pub scan_leaves : (row column i : ℕ) → List Chain → Best → Best
unfolding better
scan_leaves row column i [] b = b
scan_leaves row column i (leaf ∷ leaves) b =
    scan_leaves row column (i + 1) leaves (better row column i leaf b)

unfoldable pub erase_at {ℓ} : {A : Type ℓ} → ℕ → List A → List A
erase_at i [] = []
erase_at zero (x ∷ xs) = xs
erase_at (suc i) (x ∷ xs) = x ∷ erase_at i xs

-- the new node
unfoldable pub new_node : (row column distance : ℕ) → Chain → Chain
new_node row column distance [] =
    record {
      row = row;
      column = column;
      row_distance = row;
      column_distance = column;
      shortest_distance = row + column + 1;
    }
    ∷ []
new_node row column distance (p ∷ up) =
    record {
      row = row;
      column = column;
      row_distance = row - (p.row + 1);
      column_distance = column - (p.column + 1);
      shortest_distance = distance + 1;
    }
    ∷ p
    ∷ up

abbrev pub node_column : Chain → ℕ
node_column [] = 0
node_column (s ∷ _) = s.column

-- sweep_non_dandidate_leaf
unfoldable pub sweep : ℕ → List Chain → List Chain
sweep start [] = []
sweep start (leaf ∷ leaves) =
    let rest = sweep start leaves in if ltb (node_column leaf) start then rest else leaf ∷ rest

unfoldable pub add_node : (row column start : ℕ) → List Chain → List Chain
unfolding scan_leaves erase_at new_node sweep
add_node row column start leaves =
    let b : Best =
      scan_leaves row column 0 leaves
        (record { distance = row + column + 1; parent = []; erased = none }) in
    let kept : List Chain = elim (b.erased) [ none ↦ leaves | some i ↦ erase_at i leaves ] in
    let added : List Chain = kept ++ new_node row column b.distance b.parent ∷ [] in
    if column == start then sweep start added else added

-- EDIT_IGNORE, EDIT_ADD, EDIT_REMOVE
pub data Kind : Type 0 where
  ignore add remove : Kind

abbrev pub Edit : Type 0
Edit = ℕ × Kind

-- `n` edits of a kind at the numbers below `at`, downwards, from the k-th on
unfoldable pub downwards : (n k at : ℕ) → Kind → List Edit
downwards zero k at kind = []
downwards (suc n) k at kind = (at - 1 - k, kind) ∷ downwards n (k + 1) at kind

unfoldable pub diff_of : Chain → List Edit
unfolding downwards
diff_of [] = []
diff_of (s ∷ up) =
    (s.column, ignore)
    ∷ (downwards s.column_distance 0 s.column remove
        ++ (downwards s.row_distance 0 s.row add ++ diff_of up))

abbrev pub last_leaf : List Chain → Chain
last_leaf [] = []
last_leaf (leaf ∷ []) = leaf
last_leaf (leaf ∷ next ∷ leaves) = last_leaf (next ∷ leaves)

-- convert_to_diff_reversed: the edits backwards, less that of the bottom-right node
unfoldable pub convert_to_diff_reversed : List Chain → List Edit
unfolding diff_of
convert_to_diff_reversed leaves = drop 1 (diff_of (last_leaf leaves))

-- get_shortest_distance, whose leaf_list.back() there is no meaning for where the list is empty
abbrev distance_of : Chain → Option ℕ
distance_of [] = none
distance_of (s ∷ up) = some (s.shortest_distance - 1)

unfoldable pub get_shortest_distance : List Chain → Option ℕ
get_shortest_distance leaves = distance_of (last_leaf leaves)

-- next_start_search_it: where the search begins, as index and as column; `none` is the column -1.
unfoldable pub next_start_search_it :
    (up_clock left_clock search_it start_it : ℕ) → Option ℕ → (start : ℕ) → ℕ × ℕ
next_start_search_it up_clock left_clock search_it start_it none start = (start_it, start)
next_start_search_it up_clock left_clock search_it start_it (some column) start =
    if ltb left_clock up_clock then (start_it, start) else (search_it + 1, column + 1)

-- find_matched_clock_column over what is left of the clocks, with is_matching; `none` is the error
-- that the end is reached.
unfoldable pub find_matched : (left : ℕ) → List ℕ → Option ℕ
find_matched left [] = none
find_matched left (up ∷ ups) =
    let further = find_matched left ups in
    if left == up then some 0 else elim further [ none ↦ none | some k ↦ some (suc k) ]

-- The loop of update_start_it over the bits from the start on. The source reads one past the end where
-- all bits are set; here the loop ends.
unfoldable pub set_run : List Bool → ℕ
set_run [] = 0
set_run (bit ∷ bits) = let more = set_run bits in if bit then suc more else 0

-- The variables of the loop of compress. The iterators are indices into the map of the clocks.
pub record Search : Type 0 where
  pub search_it : ℕ
  pub search_column : Option ℕ
  pub start_it : ℕ
  pub start_column : ℕ
  pub matched_bits : List Bool
  pub clock_to_order : ℕ → ℕ
  pub leaf_list : List Chain

abbrev pub clock_at : List ℕ → ℕ → ℕ
clock_at [] i = 0
clock_at (c ∷ cs) zero = c
clock_at (c ∷ cs) (suc i) = clock_at cs i

-- the row once its search has ended: what compress notes, and update_start_it
unfoldable pub row_found : List ℕ → (i it column : ℕ) → Option ℕ → Search → Option Search
unfolding set_run add_node
row_found clocked i it column none s = none
row_found clocked i it column (some traversed) s =
    let matched : ℕ = column + traversed in
    let bits : List Bool = set s.matched_bits matched true in
    let run : ℕ = set_run (drop s.start_column bits) in
    some (record {
      search_it = it + traversed;
      search_column = some matched;
      start_it = s.start_it + run;
      start_column = s.start_column + run;
      matched_bits = bits;
      clock_to_order = update s.clock_to_order (clock_at clocked (it + traversed)) matched;
      leaf_list = add_node i matched s.start_column s.leaf_list;
    })

-- one observed event, of clock order `left` in row `i`
unfoldable pub match_row : List ℕ → (i left : ℕ) → Search → Option Search
unfolding next_start_search_it find_matched row_found
match_row clocked i left s =
    let (it, column) =
      next_start_search_it (clock_at clocked s.search_it) left s.search_it s.start_it
        s.search_column s.start_column in
    row_found clocked i it column (find_matched left (drop it clocked)) s

unfoldable pub match_rows : List ℕ → ℕ → List ℕ → Search → Option Search
unfolding match_row
match_rows clocked i [] s = some s
match_rows clocked i (left ∷ observed) s = elim (match_row clocked i left s) [
  | none ↦ none
  | some s' ↦ match_rows clocked (i + 1) observed s'
]

-- change_to_seq_order_id
unfoldable pub change_to_seq_order_id : List ℕ → (ℕ → ℕ) → List Edit → List Edit
change_to_seq_order_id observed order [] = []
change_to_seq_order_id observed order ((id, add) ∷ diff) =
    (order (clock_at observed id), add) ∷ change_to_seq_order_id observed order diff
change_to_seq_order_id observed order ((id, ignore) ∷ diff) =
    (id, ignore) ∷ change_to_seq_order_id observed order diff
change_to_seq_order_id observed order ((id, remove) ∷ diff) =
    (id, remove) ∷ change_to_seq_order_id observed order diff

abbrev pub unmatched : ℕ → Search
unmatched n = record {
  search_it = 0;
  search_column = none;
  start_it = 0;
  start_column = 0;
  matched_bits = replicate n false;
  clock_to_order = λ _. 0;
  leaf_list = [];
}

-- compress, up to the edit script: the clock orders in the order of the map, and as observed
unfoldable pub compress_to_diff : (clocked observed : List ℕ) → Option (List Edit)
unfolding match_rows add_node convert_to_diff_reversed change_to_seq_order_id
compress_to_diff clocked observed =
    let n : ℕ = length clocked in
    elim (match_rows clocked 0 observed (unmatched n)) [
      | none ↦ none
      | some s ↦ some (
          change_to_seq_order_id observed s.clock_to_order
            (convert_to_diff_reversed (add_node n n s.start_column s.leaf_list)))
    ]
