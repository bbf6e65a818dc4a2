-- ===== src/Rempi/Cdc/Distance.antt =====
-- The distances that add_node keeps, and the lengths of edit scripts (src/rempi/rempi_clock_delta_compression.cpp).
use re_omp_llvm.Common.{
  ℕ, zero, suc, ◌+◌, ◌-◌, ◌≤◌, ◌<◌, ◌≡◌, refl, sym, ap, subst, ◌&&◌, Option, none, some, List, [],
  ◌∷◌, ◌++◌, length, length-append, drop, ltb, leb, ◌==◌, Bool-cases, inl, inr, arith,
}
use re_omp_llvm.Rempi.Cdc.{
  ClockNode, Chain, find_shortest_node, Best, better, scan_leaves, erase_at, new_node, node_column,
  sweep, add_node, Kind, downwards, diff_of, convert_to_diff_reversed, get_shortest_distance,
  distance_of,
}
use re_omp_llvm.Rempi.Cdc.Chains.{
  kept_of, best, with_new, add_node_eq, add_node-last, new_node-first,
}

length-downwards : (n k from : ℕ) (kind : Kind) → length (downwards n k from kind) ≡ n
unfolding downwards
length-downwards zero k from kind = refl
length-downwards (suc n) k from kind = ap suc (length-downwards n (k + 1) from kind)

length-diff_of :
    (s : ClockNode) (up : Chain)
    → length (diff_of (s ∷ up)) ≡ suc (s.column_distance + s.row_distance + length (diff_of up))
unfolding diff_of
length-diff_of s up =
    let added = downwards s.row_distance 0 s.row Kind.add in
    omega (
      arith,
      length-append (downwards s.column_distance 0 s.column Kind.remove) (added ++ diff_of up),
      length-append added (diff_of up),
      length-downwards s.column_distance 0 s.column Kind.remove,
      length-downwards s.row_distance 0 s.row Kind.add,
    )

length-script :
    (s : ClockNode) (up : Chain)
    → length (drop 1 (diff_of (s ∷ up))) ≡ s.column_distance + s.row_distance + length (diff_of up)
unfolding diff_of
length-script s up =
    let added = downwards s.row_distance 0 s.row Kind.add in
    omega (
      arith,
      length-append (downwards s.column_distance 0 s.column Kind.remove) (added ++ diff_of up),
      length-append added (diff_of up),
      length-downwards s.column_distance 0 s.column Kind.remove,
      length-downwards s.row_distance 0 s.row Kind.add,
    )

-- A chain goes up to smaller rows and columns, and the distances of a node are the gaps to the one above.
abbrev pub Below : ClockNode → Chain → Type 0
Below s [] = Unit {0}
Below s (p ∷ up) =
    (p.row < s.row)
    × (p.column < s.column)
    × (s.row_distance ≡ s.row - (p.row + 1))
    × (s.column_distance ≡ s.column - (p.column + 1))

-- The distance of each node is the length of its script, itself included.
abbrev pub Measured : Chain → Type 0
Measured [] = Unit {0}
Measured (s ∷ up) = (s.shortest_distance ≡ length (diff_of (s ∷ up))) × Measured up × Below s up

abbrev pub AllMeasured : List Chain → Type 0
AllMeasured [] = Unit {0}
AllMeasured (leaf ∷ leaves) = Measured leaf × AllMeasured leaves

module _ (row column : ℕ) where
  -- The edits of a script that goes on from a node to this place: those of the node, and one for each
  -- row and each column between.
  abbrev pub way_from : ClockNode → Chain → ℕ
  way_from s up = length (diff_of (s ∷ up)) + (row - (s.row + 1)) + (column - (s.column + 1))

  -- The distance of a new node at this place below the chain, itself left out.
  abbrev Fits : ℕ → Chain → Type 0
  Fits d [] = d ≡ row + column + 1
  Fits d (s ∷ up) = (d ≡ way_from s up) × (s.row < row) × (s.column < column)

  find-Fits :
      (chain : Chain)
      → Measured chain
      → (d : ℕ) (p : Chain) → find_shortest_node row column chain ≡ some (d, p)
      → Measured p × Fits d p
  unfolding find_shortest_node
  find-Fits [] h d p e = absurd (ground arith)
  find-Fits (s ∷ up) h d p e =
      elim (Bool-cases (leb (s.row + 1) row && leb (s.column + 1) column)) [
        | inl fits ↦
            let same : s ∷ up ≡ p = ground (arith, e) in
            subst (λ c. Measured c × Fits d c) same
              (h, (ground (arith, e, h.0), ground (arith, fits), ground (arith, fits)))
        | inr other ↦ find-Fits up h.1 d p (ground (arith, e))
      ]

  -- No node of the chain that is above and to the left of this place has a shorter way to it.
  abbrev pub NoShorter : ℕ → Chain → Type 0
  NoShorter n [] = Unit {0}
  NoShorter n (s ∷ up) = (s.row < row → s.column < column → n ≤ way_from s up) × NoShorter n up

  abbrev pub NoneShorter : ℕ → List Chain → Type 0
  NoneShorter n [] = Unit {0}
  NoneShorter n (leaf ∷ leaves) = NoShorter n leaf × NoneShorter n leaves

  -- Above a node the ways get longer.
  above-NoShorter :
      (n : ℕ) (s : ClockNode) (up : Chain)
      → Measured (s ∷ up)
      → s.row < row
      → s.column < column
      → n ≤ way_from s up
      → NoShorter n up
  above-NoShorter n s [] h r c le = _
  above-NoShorter n s (p ∷ up) h r c le =
      let (above, left, rows, columns) = h.2 in
      let further : n ≤ way_from p up =
        omega (arith, le, length-diff_of s (p ∷ up), above, left, rows, columns, r, c) in
      (
        λ _ _. further,
        above-NoShorter n p up h.1 (omega (arith, above, r)) (omega (arith, left, c)) further,
      )

  find-NoShorter :
      (n : ℕ) (chain : Chain)
      → Measured chain
      → ((d : ℕ) (p : Chain) → find_shortest_node row column chain ≡ some (d, p) → n ≤ d)
      → NoShorter n chain
  unfolding find_shortest_node
  find-NoShorter n [] h k = _
  find-NoShorter n (s ∷ up) h k =
      elim (Bool-cases (leb (s.row + 1) row && leb (s.column + 1) column)) [
        | inl fits ↦
            let le : n ≤ way_from s up = omega (
              arith,
              k (s.shortest_distance + (row - (s.row + 1)) + (column - (s.column + 1))) (s ∷ up)
                  (rw fits refl),
              h.0,
            ) in
            (λ _ _. le, above-NoShorter n s up h (ground (arith, fits)) (ground (arith, fits)) le)
        | inr other ↦ (
          λ r c. absurd (ground (arith, other, r, c)),
          find-NoShorter n up h.1 (λ d p e. k d p (rw other e)),
        )
      ]

  -- No leaf offers less.
  abbrev pub Least : ℕ → List Chain → Type 0
  Least n [] = Unit {0}
  Least n (leaf ∷ leaves) =
      ((d : ℕ) (p : Chain) → find_shortest_node row column leaf ≡ some (d, p) → n ≤ d)
      × Least n leaves

  -- A parent is taken only for a distance below the one without a parent.
  abbrev IsShort : ℕ → Chain → Type 0
  IsShort d [] = Unit {0}
  IsShort d (s ∷ up) = d ≤ row + column

  abbrev Sound : Best → Type 0
  Sound b =
      Measured b.parent
      × Fits b.distance b.parent
      × (b.distance ≤ row + column + 1)
      × IsShort b.distance b.parent

  le-IsShort : (d : ℕ) (p : Chain) → d ≤ row + column → IsShort d p
  le-IsShort d [] h = _
  le-IsShort d (s ∷ up) h = h

  better-Sound :
      (i : ℕ) (leaf : Chain) (b : Best)
      → Measured leaf
      → Sound b
      → Sound (better row column i leaf b)
        × ((better row column i leaf b).distance ≤ b.distance)
        × ((d : ℕ) (p : Chain)
            → find_shortest_node row column leaf ≡ some (d, p)
            → (better row column i leaf b).distance ≤ d)
  unfolding better
  better-Sound i leaf b h g = by_found (find_shortest_node row column leaf) refl
    where
      by_found :
          (o : Option (ℕ × Chain))
          → find_shortest_node row column leaf ≡ o
          → Sound (better row column i leaf b)
            × ((better row column i leaf b).distance ≤ b.distance)
            × ((d : ℕ) (p : Chain)
                → find_shortest_node row column leaf ≡ some (d, p)
                → (better row column i leaf b).distance ≤ d)
      by_found none e = rw (e, better) (g, omega arith, λ d p f. absurd cc)
      by_found (some (d, p)) e = elim (Bool-cases (ltb d b.distance)) [
        | inl less ↦
            let found_fits = find-Fits leaf h d p e in
            let below : d < b.distance = ground (arith, less) in
            rw (e, better, less)
              (
                (
                  found_fits.0,
                  found_fits.1,
                  omega (arith, below, g.2),
                  le-IsShort d p (omega (arith, below, g.2)),
                ),
                ground (arith, less),
                λ d' p' f. ground (arith, f),
              )
        | inr more ↦ rw (e, better, more) (g, omega arith, λ d' p' f. ground (arith, f, more))
      ]

  scan-Sound :
      (i : ℕ) (leaves : List Chain) (b : Best)
      → AllMeasured leaves
      → Sound b
      → Sound (scan_leaves row column i leaves b)
        × ((scan_leaves row column i leaves b).distance ≤ b.distance)
        × Least (scan_leaves row column i leaves b).distance leaves
  unfolding scan_leaves
  scan-Sound i [] b h g = (g, omega arith, _)
  scan-Sound i (leaf ∷ leaves) b h g =
      let (g', le, here) = better-Sound i leaf b h.0 g in
      let (g'', le', there) = scan-Sound (i + 1) leaves (better row column i leaf b) h.1 g' in
      (g'', omega (arith, le, le'), (λ d p f. omega (arith, here d p f, le'), there))

  Least-NoneShorter :
      (n : ℕ) (leaves : List Chain) → AllMeasured leaves → Least n leaves → NoneShorter n leaves
  Least-NoneShorter n [] h k = _
  Least-NoneShorter n (leaf ∷ leaves) h k =
      (find-NoShorter n leaf h.0 k.0, Least-NoneShorter n leaves h.1 k.1)

  new_node-Measured :
      (d : ℕ) (p : Chain)
      → Measured p × Fits d p × (d ≤ row + column + 1) × IsShort d p
      → Measured (new_node row column d p)
        × (length (drop 1 (diff_of (new_node row column d p))) ≤ d)
        × (length (drop 1 (diff_of (new_node row column d p))) ≤ row + column)
  unfolding new_node
  new_node-Measured d [] h =
      let s : ClockNode = record {
        row = row;
        column = column;
        row_distance = row;
        column_distance = column;
        shortest_distance = row + column + 1;
      } in
      (
        (omega (arith, length-diff_of s [], no_edits), _, _),
        omega (arith, length-script s [], no_edits, h.1),
        omega (arith, length-script s [], no_edits),
      )
    where
      no_edits : length (diff_of []) ≡ 0
      no_edits = unfold diff_of in refl
  new_node-Measured d (p ∷ up) h =
      let s : ClockNode = record {
        row = row;
        column = column;
        row_distance = row - (p.row + 1);
        column_distance = column - (p.column + 1);
        shortest_distance = d + 1;
      } in
      (
        (omega (arith, length-diff_of s (p ∷ up), h.1.0), h.0, (h.1.1, h.1.2, refl, refl)),
        omega (arith, length-script s (p ∷ up), h.1.0),
        omega (arith, length-script s (p ∷ up), h.1.0, h.3),
      )

erase-Measured :
    (i : ℕ) (leaves : List Chain) → AllMeasured leaves → AllMeasured (erase_at i leaves)
unfolding erase_at
erase-Measured i [] h = h
erase-Measured zero (x ∷ xs) h = h.1
erase-Measured (suc i) (x ∷ xs) h = (h.0, erase-Measured i xs h.1)

kept-Measured :
    (o : Option ℕ) (leaves : List Chain) → AllMeasured leaves → AllMeasured (kept_of o leaves)
kept-Measured none leaves h = h
kept-Measured (some i) leaves h = erase-Measured i leaves h

snoc-Measured :
    (leaves : List Chain) (leaf : Chain)
    → AllMeasured leaves
    → Measured leaf
    → AllMeasured (leaves ++ leaf ∷ [])
snoc-Measured [] leaf h m = (m, _)
snoc-Measured (x ∷ xs) leaf h m = (h.0, snoc-Measured xs leaf h.1 m)

sweep-Measured :
    (start : ℕ) (leaves : List Chain) → AllMeasured leaves → AllMeasured (sweep start leaves)
unfolding sweep
sweep-Measured start [] h = h
sweep-Measured start (leaf ∷ leaves) h = elim (Bool-cases (ltb (node_column leaf) start)) [
  | inl gone ↦ rw gone (sweep-Measured start leaves h.1)
  | inr stays ↦ rw stays (h.0, sweep-Measured start leaves h.1)
]

Least-le :
    (row column m n : ℕ) (leaves : List Chain)
    → m ≤ n
    → Least row column n leaves
    → Least row column m leaves
Least-le row column m n [] le h = _
Least-le row column m n (leaf ∷ leaves) le h =
    ((λ d p e. omega (arith, h.0 d p e, le)), Least-le row column m n leaves le h.1)

distance-Measured :
    (c : Chain) (s : ClockNode) (up : Chain)
    → c ≡ s ∷ up
    → Measured c
    → distance_of c ≡ some (length (drop 1 (diff_of c)))
distance-Measured [] s up e h = absurd cc
distance-Measured (t ∷ ts) s up e h =
    ap some (omega (arith, h.0, length-diff_of t ts, length-script t ts))

module _ (row column start : ℕ) (leaves : List Chain) (h : AllMeasured leaves) where
  new : Chain
  new = new_node row column (best row column leaves).distance (best row column leaves).parent

  found :
      Sound row column (best row column leaves)
      × ((best row column leaves).distance ≤ row + column + 1)
      × Least row column (best row column leaves).distance leaves
  found = scan-Sound row column 0 leaves _ h (_, refl, omega arith, _)

  new-Measured :
      Measured new
      × (length (drop 1 (diff_of new)) ≤ (best row column leaves).distance)
      × (length (drop 1 (diff_of new)) ≤ row + column)
  unfolding new
  new-Measured =
      new_node-Measured row column (best row column leaves).distance (best row column leaves).parent
        (found).0

  add_node-Measured : AllMeasured (add_node row column start leaves)
  unfolding new
  add_node-Measured =
      let kept = kept-Measured (best row column leaves).erased leaves h in
      let all =
        snoc-Measured (kept_of (best row column leaves).erased leaves) new kept (new-Measured).0 in
      subst AllMeasured (sym (add_node_eq row column leaves start))
        (elim (Bool-cases (column == start)) [
          | inl swept ↦ rw swept (sweep-Measured start (with_new row column leaves) all)
          | inr whole ↦ rw whole all
        ])

  -- The distance is that of the script, no leaf offers a shorter one, and it is at most row + column.
  add_node-Least :
      (get_shortest_distance (add_node row column start leaves)
        ≡ some (length (convert_to_diff_reversed (add_node row column start leaves))))
      × Least row column
          (length (convert_to_diff_reversed (add_node row column start leaves)))
          leaves
      × (length (convert_to_diff_reversed (add_node row column start leaves)) ≤ row + column)
  unfolding new get_shortest_distance convert_to_diff_reversed
  add_node-Least =
      let last = add_node-last row column leaves start in
      let (s, up, first, r, c) =
        new_node-first row column (best row column leaves).distance
          (best row column leaves).parent in
      (
        subst (λ l. distance_of l ≡ some (length (drop 1 (diff_of l)))) (sym last)
            (distance-Measured new s up first (new-Measured).0),
        subst (λ l. Least row column (length (drop 1 (diff_of l))) leaves) (sym last)
            (Least-le row column (length (drop 1 (diff_of new))) (best row column leaves).distance
              leaves (new-Measured).1 (found).2),
        subst (λ l. length (drop 1 (diff_of l)) ≤ row + column) (sym last) (new-Measured).2,
      )

-- The leaves after calls of add_node with these rows, columns and starts, from no leaf on.
unfoldable pub add_nodes : List (ℕ × ℕ × ℕ) → List Chain → List Chain
add_nodes [] leaves = leaves
add_nodes ((row, column, start) ∷ calls) leaves = add_nodes calls (add_node row column start leaves)

add_nodes-Measured :
    (calls : List (ℕ × ℕ × ℕ)) (leaves : List Chain)
    → AllMeasured leaves
    → AllMeasured (add_nodes calls leaves)
unfolding add_nodes
add_nodes-Measured [] leaves h = h
add_nodes-Measured ((row, column, start) ∷ calls) leaves h =
    add_nodes-Measured calls (add_node row column start leaves)
      (add_node-Measured row column start leaves h)

-- After any calls of add_node from no leaf on, one more call gives a leaf whose shortest distance, as
-- get_shortest_distance returns it, is the length of the edit script of convert_to_diff_reversed; and this is
-- no longer than the script of any earlier node above and to the left of the new one, among all the leaves
-- that were there and their ancestors, with that node and the rows and the columns between the two; and no
-- longer than the script of the rows and the columns before the new node alone.
pub add_node_shortest :
    (calls : List (ℕ × ℕ × ℕ)) (row column start : ℕ)
    → let leaves = add_nodes calls [] in
      let after = add_node row column start leaves in
      (get_shortest_distance after ≡ some (length (convert_to_diff_reversed after)))
      × NoneShorter row column (length (convert_to_diff_reversed after)) leaves
      × (length (convert_to_diff_reversed after) ≤ row + column)
add_node_shortest calls row column start =
    let measured = add_nodes-Measured calls [] _ in
    let (same, least, short) = add_node-Least row column start (add_nodes calls []) measured in
    (same, Least-NoneShorter row column _ (add_nodes calls []) measured least, short)
