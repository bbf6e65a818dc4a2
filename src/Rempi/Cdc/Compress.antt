-- ===== src/Rempi/Cdc/Compress.antt =====
-- The edit script of compress (src/rempi/rempi_clock_delta_compression.cpp) turns the order of the
-- clocks into the observed order.
use re_omp_llvm.Common.{
  ℕ, zero, suc, ◌+◌, ◌-◌, ◌≤◌, ◌<◌, ◌≡◌, ◌≢◌, refl, sym, ap, ap₂, ◌∙◌, subst, true, false, none,
  some, List, [], ◌∷◌, length, drop, set, map, update, update_self, ltb, leb, ◌==◌, ==_iff,
  if◌then◌else◌, Bool-cases, ◌⊎◌, inl, inr, arith,
}
use re_omp_llvm.Rempi.Cdc.{
  Chain, Edit, Search, unmatched, clock_at, next_start_search_it, find_matched, set_run, row_found,
  match_row, match_rows, add_node, diff_of, convert_to_diff_reversed, change_to_seq_order_id,
  compress_to_diff,
}
use re_omp_llvm.Rempi.Cdc.Chains.{
  Walk, Paths, add_node-Added, next_row, next_column, Walk-ext, last-Walk,
}
use re_omp_llvm.Rempi.Cdc.Script.{
  down_from, consumed, produced, gap_consumed, gap_produced, consumed-diff, produced-diff,
}
use re_omp_llvm.Rempi.Cdc.Matching.{
  index_of, Ascending, index_of_self, find_matched-drop, bit_at, bit_at-set, bit_at-replicate,
  bit_at-drop, bit_kept, set_run-bits,
}

-- The observed events are those of the clocks, each once.
pub record Reordered (clocked observed : List ℕ) : Type 0 where
  pub ascending : Ascending clocked
  pub same_length : length observed ≡ length clocked
  pub found :
      (i : ℕ)
      → i < length observed
      → (k : ℕ) × (k < length clocked) × (clock_at clocked k ≡ clock_at observed i)
  pub distinct : (i j : ℕ) → i < j → j < length observed → clock_at observed i ≢ clock_at observed j

module _ (clocked observed : List ℕ) (r : Reordered clocked observed) where
  -- the column of a row
  abbrev column_of : ℕ → ℕ
  column_of i = index_of clocked (clock_at observed i)

  -- with the bottom-right node
  abbrev target_of : ℕ → ℕ
  target_of i = if ltb i (length observed) then column_of i else i

  column_lem :
      (i : ℕ)
      → i < length observed
      → (column_of i < length clocked) × (clock_at clocked (column_of i) ≡ clock_at observed i)
  column_lem i h =
      let (k, lt, eq) = r.found i h in
      let at : column_of i ≡ k =
        ap (index_of clocked) (sym eq) ∙ index_of_self clocked r.ascending k lt in
      (omega (arith, at), ap (clock_at clocked) at ∙ eq)

  -- the states of the loop before row `i`
  record Inv (i : ℕ) (s : Search) : Type 0 where
    searched :
        (s.search_column ≡ none)
        ⊎ ((c : ℕ) × (s.search_column ≡ some c)
            × (s.search_it ≡ c)
            × (0 < i)
            × (c ≡ column_of (i - 1)))
    started : s.start_it ≡ s.start_column
    bits : (c : ℕ) → bit_at s.matched_bits c ≡ true → (j : ℕ) × (j < i) × (column_of j ≡ c)
    below : (c : ℕ) → c < s.start_column → bit_at s.matched_bits c ≡ true
    ids : (j : ℕ) → j < i → s.clock_to_order (clock_at observed j) ≡ column_of j
    paths : Paths target_of s.leaf_list

  module _ (i : ℕ) (here : i < length observed) (s : Search) (inv : Inv i s) where
    start_before : s.start_column ≤ column_of i
    start_before = elim (Bool-cases (leb s.start_column (column_of i))) [
      | inl le ↦ ground arith
      | inr gt ↦
          let (j, lt, same) = inv.bits (column_of i) (inv.below (column_of i) (ground arith)) in
          absurd (
            r.distinct j i lt here (
              sym (column_lem j (omega arith)).1
              ∙ ap (clock_at clocked) same
              ∙ (column_lem i here).1))
    ]

    -- where the search begins: one index for the iterator and the column, at or before the match
    from :
        (f : ℕ) × (next_start_search_it
            (clock_at clocked s.search_it)
            (clock_at observed i)
            s.search_it
            s.start_it
            s.search_column
            s.start_column
          ≡ (f, f))
        × (f ≤ column_of i)
    unfolding next_start_search_it
    from = elim (inv.searched) [
      | inl first ↦
          (s.start_column, rw (first, inv.started, next_start_search_it) refl, start_before)
      | inr (c, at, it, pos, prev) ↦
          elim (Bool-cases (ltb (clock_at observed i) (clock_at clocked s.search_it))) [
            | inl up ↦ (s.start_column, ground (arith, at, up, inv.started), start_before)
            | inr right ↦
                let clock_c : clock_at clocked c ≡ clock_at observed (i - 1) =
                  ap (clock_at clocked) prev ∙ (column_lem (i - 1) (omega (arith, here, pos))).1 in
                let ne : column_of i ≢ c = λ e.
                  r.distinct (i - 1) i (omega (arith, pos)) here
                    (sym clock_c ∙ ap (clock_at clocked) (sym e) ∙ (column_lem i here).1) in
                let not_before : leb c (column_of i) ≡ true =
                  elim (Bool-cases (leb c (column_of i))) [
                    | inl le ↦ le
                    | inr gt ↦
                        let bound = (column_lem (i - 1) (omega (arith, here, pos))).0 in
                        absurd (
                          omega (
                            arith,
                            r.ascending (column_of i) c (ground arith) (omega (arith, bound, prev)),
                            (column_lem i here).1,
                            ltb_of right,
                            ap (clock_at clocked) it,
                          ))
                  ] in
                (c + 1, ground (arith, at, right, it), ground (arith, not_before, ne))
          ]
    ]
      where
        ltb_of :
            ltb (clock_at observed i) (clock_at clocked s.search_it) ≡ false
            → clock_at clocked s.search_it ≤ clock_at observed i
        ltb_of h = ground arith

    -- the state after the row, when its match is at a column of a clock
    abbrev landed : (column clock : ℕ) → Search
    landed column clock = record {
      search_it = column;
      search_column = some column;
      start_it = s.start_it + set_run (drop s.start_column (set s.matched_bits column true));
      start_column =
          s.start_column + set_run (drop s.start_column (set s.matched_bits column true));
      matched_bits = set s.matched_bits column true;
      clock_to_order = update s.clock_to_order clock column;
      leaf_list = add_node i column s.start_column s.leaf_list;
    }

    row_found_eq :
        (f k : ℕ)
        → row_found clocked i f f (some k) s ≡ some (landed (f + k) (clock_at clocked (f + k)))
    unfolding row_found
    row_found_eq f k = refl

    abbrev matched : Search
    matched = landed (column_of i) (clock_at observed i)

    match_row_eq : match_row clocked i (clock_at observed i) s ≡ some matched
    unfolding match_row
    match_row_eq =
        let (f, start, le) = from in
        let there : f + (column_of i - f) ≡ column_of i = omega arith in
        ap
          (λ (p : ℕ × ℕ).
            row_found clocked i p.0 p.1 (find_matched (clock_at observed i) (drop p.0 clocked)) s)
          start
        ∙ ap (λ o. row_found clocked i f f o s)
            (find_matched-drop clocked (clock_at observed i) f (column_lem i here).0 le)
        ∙ row_found_eq f (column_of i - f)
        ∙ ap (λ c. some (landed c (clock_at clocked c))) there
        ∙ ap (λ v. some (landed (column_of i) v)) (column_lem i here).1

    matched-bits :
        (c : ℕ) → bit_at (matched).matched_bits c ≡ true → (j : ℕ) × (j < i + 1) × (column_of j ≡ c)
    matched-bits c h = elim (bit_at-set s.matched_bits (column_of i) c h) [
      | inl new ↦ (i, omega arith, new)
      | inr old ↦ let (j, lt, e) = inv.bits c old in (j, omega arith, e)
    ]

    matched-Inv : Inv (i + 1) matched
    matched-Inv = record {
      searched = inr (column_of i, refl, refl, omega arith, ap column_of (omega arith));
      started =
          ap (λ n. n + set_run (drop s.start_column (set s.matched_bits (column_of i) true)))
            inv.started;
      bits = matched-bits;
      below = λ c h. elim (Bool-cases (ltb c s.start_column)) [
        | inl old ↦ bit_kept s.matched_bits (column_of i) c (inv.below c (ground arith))
        | inr new ↦
            ap (bit_at (set s.matched_bits (column_of i) true))
              {y = s.start_column + (c - s.start_column)} (ground arith)
            ∙ sym (
                bit_at-drop (set s.matched_bits (column_of i) true) s.start_column
                  (c - s.start_column))
            ∙ set_run-bits (drop s.start_column (set s.matched_bits (column_of i) true))
                (c - s.start_column) (ground arith)
      ];
      ids = λ j h. elim (Bool-cases (clock_at observed i == clock_at observed j)) [
        | inl same ↦
            ap (update s.clock_to_order (clock_at observed i) (column_of i))
              (sym ((==_iff (clock_at observed i) (clock_at observed j)).0 same))
            ∙ update_self s.clock_to_order (clock_at observed i) (column_of i)
            ∙ ap (index_of clocked) ((==_iff (clock_at observed i) (clock_at observed j)).0 same)
        | inr other ↦ rw other (
            inv.ids j (elim (Bool-cases (j == i)) [
              | inl now ↦ absurd (ground (arith, ap (clock_at observed) ((==_iff j i).0 now)))
              | inr past ↦ ground arith
            ]))
      ];
      paths =
          (add_node-Added target_of i (column_of i) s.leaf_list s.start_column (ground arith)
            inv.paths).paths;
    }

  match_rows_cons :
      (rest : List ℕ) (i left : ℕ) (s s1 : Search)
      → match_row clocked i left s ≡ some s1
      → match_rows clocked i (left ∷ rest) s ≡ match_rows clocked (i + 1) rest s1
  unfolding match_rows
  match_rows_cons rest i left s s1 h = rw (h, match_rows) refl

  match_rows-Inv :
      (rest : List ℕ) (i : ℕ) (s : Search)
      → i + length rest ≡ length observed
      → ((k : ℕ) → k < length rest → clock_at rest k ≡ clock_at observed (i + k))
      → Inv i s
      → (s' : Search) × (match_rows clocked i rest s ≡ some s') × Inv (length observed) s'
  unfolding match_rows
  match_rows-Inv [] i s e same inv = (s, refl, subst (λ k. Inv k s) (omega arith) inv)
  match_rows-Inv (left ∷ rest) i s e same inv =
      let here : i < length observed = omega arith in
      let first : left ≡ clock_at observed i =
        same 0 (omega arith) ∙ ap (clock_at observed) (omega arith) in
      let (s', eq, inv') =
        match_rows-Inv rest (i + 1) (matched i here s inv) (omega arith)
          (λ k h. same (suc k) (omega arith) ∙ ap (clock_at observed) (omega arith))
          (matched-Inv i here s inv) in
      (
        s',
        match_rows_cons rest i left s (matched i here s inv)
              (ap (λ v. match_row clocked i v s) first ∙ match_row_eq i here s inv)
            ∙ eq,
        inv',
      )

  unmatched-Inv : Inv 0 (unmatched (length clocked))
  unmatched-Inv = record {
    searched = inl refl;
    started = refl;
    bits = λ c h. absurd (ground (arith, bit_at-replicate (length clocked) c));
    below = λ c h. absurd (omega arith);
    ids = λ j h. absurd (omega arith);
    paths = _;
  }

  ids_clocks :
      (s : Search)
      → Inv (length observed) s
      → (n : ℕ) → n ≤ length observed
      → map (clock_at clocked) (map (λ i. s.clock_to_order (clock_at observed i)) (down_from n))
        ≡ map (clock_at observed) (down_from n)
  ids_clocks s inv zero h = refl
  ids_clocks s inv (suc n) h =
      ap₂ (λ x xs. x ∷ xs)
        (ap (clock_at clocked) (inv.ids n (omega arith)) ∙ (column_lem n (omega arith)).1)
        (ids_clocks s inv n (omega arith))

  -- the script of the leaves that the loop leaves, when the bottom-right node has been added
  script :
      (s : Search)
      → Inv (length observed) s
      → let diff = change_to_seq_order_id observed s.clock_to_order (
          convert_to_diff_reversed
            (add_node (length clocked) (length clocked) s.start_column s.leaf_list)) in
        (consumed diff ≡ down_from (length clocked))
        × (produced diff
            ≡ map (λ i. s.clock_to_order (clock_at observed i)) (down_from (length clocked)))
  unfolding convert_to_diff_reversed diff_of
  script s inv =
      let n : ℕ = length clocked in
      let len = r.same_length in
      let ids : ℕ → ℕ = s.clock_to_order in
      let leaves : List Chain = add_node n n s.start_column s.leaf_list in
      let added =
        add_node-Added target_of n n s.leaf_list s.start_column (ground (arith, len)) inv.paths in
      let whole = subst (Walk target_of) added.last (last-Walk target_of leaves added.paths) in
      let tail =
        Walk-ext target_of (λ i. ids (clock_at observed i)) n added.up
          (λ i h. ground (arith, inv.ids i (omega (arith, len)), len))
          (omega (arith, whole.1, added.at_row)) whole.3 in
      let diff_tail =
        ap (λ l. change_to_seq_order_id observed ids (drop 1 (diff_of l))) added.last in
      (
        ap consumed diff_tail
            ∙ gap_consumed observed ids added.node.row_distance added.node.column_distance
                added.node.row added.node.column (next_column added.up) (diff_of added.up) whole.2
                (consumed-diff observed ids (λ i. ids (clock_at observed i)) added.up tail)
            ∙ ap down_from added.at_column,
        ap produced diff_tail
            ∙ gap_produced observed ids added.node.row_distance added.node.column_distance
                added.node.row added.node.column (next_row added.up) (diff_of added.up) whole.1
                (produced-diff observed ids added.up tail)
            ∙ ap (λ k. map (λ i. ids (clock_at observed i)) (down_from k)) added.at_row,
      )

  compress_eq :
      (s : Search)
      → match_rows clocked 0 observed (unmatched (length clocked)) ≡ some s
      → compress_to_diff clocked observed
        ≡ some (
            change_to_seq_order_id observed s.clock_to_order (
              convert_to_diff_reversed
                (add_node (length clocked) (length clocked) s.start_column s.leaf_list)))
  unfolding compress_to_diff
  compress_eq s h = rw (h, compress_to_diff) refl

-- If the clocks ascend and the observed events are those of the clocks in any order, compress meets no
-- error, and its script (which is written backwards) goes over every column once, from the last to
-- the first, and leaves the observed events, from the last to the first: what it ignores and what it
-- adds, an id standing for the clock of its column.
pub compress_to_diff_lem :
    (clocked observed : List ℕ)
    → Reordered clocked observed
    → (diff : List Edit) × (compress_to_diff clocked observed ≡ some diff)
      × (consumed diff ≡ down_from (length clocked))
      × (map (clock_at clocked) (produced diff)
          ≡ map (clock_at observed) (down_from (length observed)))
compress_to_diff_lem clocked observed r =
    let (s, eq, inv) =
      match_rows-Inv clocked observed r observed 0 (unmatched (length clocked)) (omega arith)
        (λ k h. ap (clock_at observed) (omega arith)) (unmatched-Inv clocked observed r) in
    let (took, left) = script clocked observed r s inv in
    (
      change_to_seq_order_id observed s.clock_to_order (
          convert_to_diff_reversed
            (add_node (length clocked) (length clocked) s.start_column s.leaf_list)),
      compress_eq clocked observed r s eq,
      took,
      ap (map (clock_at clocked)) left
          ∙ ap
              (λ n.
                map (clock_at clocked)
                  (map (λ i. s.clock_to_order (clock_at observed i)) (down_from n)))
              (sym r.same_length)
          ∙ ids_clocks clocked observed r s inv (length observed) (omega arith),
    )
