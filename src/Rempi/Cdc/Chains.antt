-- ===== src/Rempi/Cdc/Chains.antt =====
-- The chains that add_node builds go through the matches (src/rempi/rempi_clock_delta_compression.cpp).
use re_omp_llvm.Common.{
  ℕ, zero, suc, ◌+◌, ◌-◌, ◌≤◌, ◌<◌, ◌≡◌, refl, sym, ap, ◌∙◌, subst, false, ◌&&◌, Option, none, some,
  List, [], ◌∷◌, ◌++◌, ltb, leb, ◌==◌, if◌then◌else◌, Bool-cases, inl, inr, arith,
}
use re_omp_llvm.Rempi.Cdc.{
  ClockNode, Chain, find_shortest_node, Best, better, scan_leaves, erase_at, new_node, node_column,
  sweep, add_node, last_leaf,
}

-- the first row and the first column after a chain
abbrev pub next_row : Chain → ℕ
next_row [] = 0
next_row (p ∷ _) = p.row + 1

abbrev pub next_column : Chain → ℕ
next_column [] = 0
next_column (p ∷ _) = p.column + 1

-- A chain goes down and to the right through matches of `order`, and its distances are the gaps.
abbrev pub Walk : (ℕ → ℕ) → Chain → Type 0
Walk order [] = Unit {0}
Walk order (s ∷ up) =
    (order s.row ≡ s.column)
    × (s.row ≡ next_row up + s.row_distance)
    × (s.column ≡ next_column up + s.column_distance)
    × Walk order up

abbrev pub Paths : (ℕ → ℕ) → List Chain → Type 0
Paths order [] = Unit {0}
Paths order (leaf ∷ leaves) = Walk order leaf × Paths order leaves

-- A chain that a node can come after.
abbrev Before : (row column : ℕ) → Chain → Type 0
Before row column up = (next_row up ≤ row) × (next_column up ≤ column)

module _ (order : ℕ → ℕ) (row column : ℕ) where
  find-Walk :
      (chain : Chain)
      → Walk order chain
      → (d : ℕ) (p : Chain) → find_shortest_node row column chain ≡ some (d, p)
      → Walk order p × Before row column p
  unfolding find_shortest_node
  find-Walk [] h d p e = absurd (ground arith)
  find-Walk (s ∷ up) h d p e =
      elim (Bool-cases (leb (s.row + 1) row && leb (s.column + 1) column)) [
        | inl fits ↦
            let same : s ∷ up ≡ p = ground (arith, e) in
            subst (λ c. Walk order c × Before row column c) same (h, (ground arith, ground arith))
        | inr other ↦ find-Walk up h.3 d p (ground (arith, e))
      ]

  Good : Best → Type 0
  Good b = Walk order b.parent × Before row column b.parent

  better-Good :
      (i : ℕ) (leaf : Chain) (b : Best)
      → Walk order leaf
      → Good b
      → Good (better row column i leaf b)
  unfolding better Good
  better-Good i leaf b h g = by_found (find_shortest_node row column leaf) refl
    where
      by_found :
          (o : Option (ℕ × Chain))
          → find_shortest_node row column leaf ≡ o
          → Good (better row column i leaf b)
      by_found none e = rw (e, better) g
      by_found (some (d, p)) e = elim (Bool-cases (ltb d b.distance)) [
        | inl less ↦ rw (e, better, less) (find-Walk leaf h d p e)
        | inr more ↦ rw (e, better, more) g
      ]

  scan-Good :
      (i : ℕ) (leaves : List Chain) (b : Best)
      → Paths order leaves
      → Good b
      → Good (scan_leaves row column i leaves b)
  unfolding scan_leaves
  scan-Good i [] b h g = g
  scan-Good i (leaf ∷ leaves) b h g =
      scan-Good (i + 1) leaves (better row column i leaf b) h.1 (better-Good i leaf b h.0 g)

  new_node-Walk :
      (d : ℕ) (p : Chain)
      → order row ≡ column
      → Walk order p × Before row column p
      → Walk order (new_node row column d p)
  unfolding new_node
  new_node-Walk d [] e h = (e, omega arith, omega arith, _)
  new_node-Walk d (p ∷ up) e h = (e, omega (arith, h.1), omega (arith, h.1), h.0)

erase-Paths :
    (order : ℕ → ℕ) (i : ℕ) (leaves : List Chain)
    → Paths order leaves
    → Paths order (erase_at i leaves)
unfolding erase_at
erase-Paths order i [] h = h
erase-Paths order zero (x ∷ xs) h = h.1
erase-Paths order (suc i) (x ∷ xs) h = (h.0, erase-Paths order i xs h.1)

sweep-Paths :
    (order : ℕ → ℕ) (start : ℕ) (leaves : List Chain)
    → Paths order leaves
    → Paths order (sweep start leaves)
unfolding sweep
sweep-Paths order start [] h = h
sweep-Paths order start (leaf ∷ leaves) h = elim (Bool-cases (ltb (node_column leaf) start)) [
  | inl gone ↦ rw gone (sweep-Paths order start leaves h.1)
  | inr stays ↦ rw stays (h.0, sweep-Paths order start leaves h.1)
]

snoc-Paths :
    (order : ℕ → ℕ) (leaves : List Chain) (leaf : Chain)
    → Paths order leaves
    → Walk order leaf
    → Paths order (leaves ++ leaf ∷ [])
snoc-Paths order [] leaf h p = (p, _)
snoc-Paths order (x ∷ xs) leaf h p = (h.0, snoc-Paths order xs leaf h.1 p)

pub last-snoc : (leaves : List Chain) (leaf : Chain) → last_leaf (leaves ++ leaf ∷ []) ≡ leaf
last-snoc [] leaf = refl
last-snoc (x ∷ []) leaf = refl
last-snoc (x ∷ y ∷ leaves) leaf = last-snoc (y ∷ leaves) leaf

pub sweep-snoc :
    (start : ℕ) (leaves : List Chain) (leaf : Chain)
    → ltb (node_column leaf) start ≡ false
    → sweep start (leaves ++ leaf ∷ []) ≡ sweep start leaves ++ leaf ∷ []
unfolding sweep
sweep-snoc start [] leaf h = rw h refl
sweep-snoc start (x ∷ xs) leaf h = ground (arith, sweep-snoc start xs leaf h)

-- What add_node leaves: chains through the matches, the new one last.
pub record Added (order : ℕ → ℕ) (row column : ℕ) (leaves : List Chain) : Type 0 where
  pub paths : Paths order leaves
  pub up : Chain
  pub node : ClockNode
  pub last : last_leaf leaves ≡ node ∷ up
  pub at_row : node.row ≡ row
  pub at_column : node.column ≡ column

pub new_node-first :
    (row column d : ℕ) (p : Chain)
    → (s : ClockNode) × (up : Chain) × (new_node row column d p ≡ s ∷ up)
      × (s.row ≡ row)
      × (s.column ≡ column)
unfolding new_node
new_node-first row column d [] = (
  record {
    row = row;
    column = column;
    row_distance = row;
    column_distance = column;
    shortest_distance = row + column + 1;
  },
  [],
  refl,
  refl,
  refl,
)
new_node-first row column d (p ∷ up) = (
  record {
    row = row;
    column = column;
    row_distance = row - (p.row + 1);
    column_distance = column - (p.column + 1);
    shortest_distance = d + 1;
  },
  p ∷ up,
  refl,
  refl,
  refl,
)

abbrev pub kept_of : Option ℕ → List Chain → List Chain
kept_of none leaves = leaves
kept_of (some i) leaves = erase_at i leaves

kept-Paths :
    (order : ℕ → ℕ) (o : Option ℕ) (leaves : List Chain)
    → Paths order leaves
    → Paths order (kept_of o leaves)
kept-Paths order none leaves h = h
kept-Paths order (some i) leaves h = erase-Paths order i leaves h

module _ (row column : ℕ) (leaves : List Chain) where
  abbrev pub best : Best
  best =
      scan_leaves row column 0 leaves
        (record { distance = row + column + 1; parent = []; erased = none })

  abbrev pub with_new : List Chain
  with_new = kept_of (best).erased leaves ++ new_node row column (best).distance (best).parent ∷ []

  pub add_node_eq :
      (start : ℕ)
      → add_node row column start leaves
        ≡ (if column == start then sweep start with_new else with_new)
  unfolding add_node
  add_node_eq start = by_erased (best).erased refl
    where
      by_erased :
          (o : Option ℕ)
          → (best).erased ≡ o
          → add_node row column start leaves
            ≡ (if column == start then sweep start with_new else with_new)
      by_erased none h = rw (h, add_node) refl
      by_erased (some i) h = rw (h, add_node) refl

  -- the new leaf stays, and is the last
  pub add_node-last :
      (start : ℕ)
      → last_leaf (add_node row column start leaves)
        ≡ new_node row column (best).distance (best).parent
  add_node-last start =
      let new = new_node row column (best).distance (best).parent in
      let (s, up, first, r, c) = new_node-first row column (best).distance (best).parent in
      ap last_leaf (add_node_eq start) ∙ elim (Bool-cases (column == start)) [
        | inl swept ↦ rw swept (
            ap last_leaf (
              sweep-snoc start (kept_of (best).erased leaves) new
                (ap (λ l. ltb (node_column l) start) first ∙ ground (arith, c)))
            ∙ last-snoc (sweep start (kept_of (best).erased leaves)) new)
        | inr whole ↦ rw whole (last-snoc (kept_of (best).erased leaves) new)
      ]

module _ (order : ℕ → ℕ) (row column : ℕ) (leaves : List Chain) where
  pub add_node-Added :
      (start : ℕ)
      → order row ≡ column
      → Paths order leaves
      → Added order row column (add_node row column start leaves)
  unfolding Good
  add_node-Added start e h =
      let good : Good order row column (best row column leaves) =
        scan-Good order row column 0 leaves _ h (_, (omega arith, omega arith)) in
      let new =
        new_node row column (best row column leaves).distance (best row column leaves).parent in
      let (s, up, first, r, c) =
        new_node-first row column (best row column leaves).distance
          (best row column leaves).parent in
      let newP =
        new_node-Walk order row column (best row column leaves).distance
          (best row column leaves).parent e good in
      let kept = kept-Paths order (best row column leaves).erased leaves h in
      subst (Added order row column) (sym (add_node_eq row column leaves start))
        (elim (Bool-cases (column == start)) [
          | inl swept ↦ rw swept (record {
            paths =
                sweep-Paths order start (with_new row column leaves)
                  (snoc-Paths order (kept_of (best row column leaves).erased leaves) new kept newP);
            up = up;
            node = s;
            last =
                ap last_leaf (
                  sweep-snoc start (kept_of (best row column leaves).erased leaves) new
                    (ap (λ l. ltb (node_column l) start) first ∙ ground (arith, c)))
                ∙ last-snoc (sweep start (kept_of (best row column leaves).erased leaves)) new
                ∙ first;
            at_row = r;
            at_column = c;
          })
          | inr whole ↦ rw whole (record {
            paths = snoc-Paths order (kept_of (best row column leaves).erased leaves) new kept newP;
            up = up;
            node = s;
            last = last-snoc (kept_of (best row column leaves).erased leaves) new ∙ first;
            at_row = r;
            at_column = c;
          })
        ])

-- A chain through matches is one through any matches that agree on its rows.
pub Walk-ext :
    (f g : ℕ → ℕ) (bound : ℕ) (chain : Chain)
    → ((r : ℕ) → r < bound → f r ≡ g r)
    → next_row chain ≤ bound
    → Walk f chain
    → Walk g chain
Walk-ext f g bound [] same le h = _
Walk-ext f g bound (s ∷ up) same le h = (
  sym (same s.row (omega arith)) ∙ h.0,
  h.1,
  h.2,
  Walk-ext f g bound up same (omega (arith, h.1)) h.3,
)

pub last-Walk :
    (order : ℕ → ℕ) (leaves : List Chain) → Paths order leaves → Walk order (last_leaf leaves)
last-Walk order [] h = _
last-Walk order (leaf ∷ []) h = h.0
last-Walk order (leaf ∷ next ∷ leaves) h = last-Walk order (next ∷ leaves) h.1
