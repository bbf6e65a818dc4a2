-- ===== src/Rempi/Cdc/Script.antt =====
-- The edit script of a chain, and what it does (convert_to_diff_reversed and change_to_seq_order_id of
-- src/rempi/rempi_clock_delta_compression.cpp).
use re_omp_llvm.Common.{
  ℕ, zero, suc, ◌+◌, ◌-◌, ◌≡◌, refl, sym, ap, ap₂, ◌∙◌, List, [], ◌∷◌, ◌++◌, map, map-append, arith,
}
use re_omp_llvm.Rempi.Cdc.{
  Chain, ignore, add, remove, Edit, downwards, diff_of, change_to_seq_order_id, clock_at,
}
use re_omp_llvm.Rempi.Cdc.Chains.{Walk, next_row, next_column}

-- The numbers below `n`, downwards.
abbrev pub down_from : ℕ → List ℕ
down_from zero = []
down_from (suc n) = n ∷ down_from n

-- What a script takes from the order of the clocks: it keeps what it ignores and takes out what it
-- removes.
abbrev pub consumed : List Edit → List ℕ
consumed [] = []
consumed ((id, ignore) ∷ diff) = id ∷ consumed diff
consumed ((id, remove) ∷ diff) = id ∷ consumed diff
consumed ((id, add) ∷ diff) = consumed diff

-- What it leaves: what it ignores and what it adds.
abbrev pub produced : List Edit → List ℕ
produced [] = []
produced ((id, ignore) ∷ diff) = id ∷ produced diff
produced ((id, remove) ∷ diff) = produced diff
produced ((id, add) ∷ diff) = id ∷ produced diff

-- the k-th to the (k + n)-th number below `at`
abbrev runs_down : (n k at : ℕ) → List ℕ
runs_down zero k at = []
runs_down (suc n) k at = (at - 1 - k) ∷ runs_down n (k + 1) at

down_from-split :
    (n k at base : ℕ)
    → at ≡ base + n + k
    → down_from (base + n) ≡ runs_down n k at ++ down_from base
down_from-split zero k at base h = ap down_from (omega arith)
down_from-split (suc n) k at base h =
    ap down_from {y = suc (base + n)} (omega arith)
    ∙ ap₂ (λ x xs. x ∷ xs) (omega arith) (down_from-split n (k + 1) at base (omega arith))

module _ (at : ℕ) where
  consumed-removes :
      (rest : List Edit) (n k : ℕ)
      → consumed (downwards n k at remove ++ rest) ≡ runs_down n k at ++ consumed rest
  unfolding downwards
  consumed-removes rest zero k = refl
  consumed-removes rest (suc n) k = ap (λ l. (at - 1 - k) ∷ l) (consumed-removes rest n (k + 1))

  consumed-adds :
      (rest : List Edit) (n k : ℕ) → consumed (downwards n k at add ++ rest) ≡ consumed rest
  unfolding downwards
  consumed-adds rest zero k = refl
  consumed-adds rest (suc n) k = consumed-adds rest n (k + 1)

  -- the edits of a stretch of rows, with the ids that the rows are given
  module _ (observed : List ℕ) (ids : ℕ → ℕ) where
    abbrev id_of : ℕ → ℕ
    id_of r = ids (clock_at observed r)

    change-removes :
        (rest : List Edit) (n k : ℕ)
        → change_to_seq_order_id observed ids (downwards n k at remove ++ rest)
          ≡ downwards n k at remove ++ change_to_seq_order_id observed ids rest
    unfolding downwards change_to_seq_order_id
    change-removes rest zero k = refl
    change-removes rest (suc n) k =
        ap (λ l. (at - 1 - k, remove) ∷ l) (change-removes rest n (k + 1))

    consumed-change :
        (rest : List Edit) (n k : ℕ)
        → consumed (change_to_seq_order_id observed ids (downwards n k at add ++ rest))
          ≡ consumed (change_to_seq_order_id observed ids rest)
    unfolding downwards change_to_seq_order_id
    consumed-change rest zero k = refl
    consumed-change rest (suc n) k = consumed-change rest n (k + 1)

    produced-change :
        (rest : List Edit) (n k : ℕ)
        → produced (change_to_seq_order_id observed ids (downwards n k at add ++ rest))
          ≡ map id_of (runs_down n k at) ++ produced (change_to_seq_order_id observed ids rest)
    unfolding downwards change_to_seq_order_id
    produced-change rest zero k = refl
    produced-change rest (suc n) k =
        ap (λ l. id_of (at - 1 - k) ∷ l) (produced-change rest n (k + 1))

  produced-removes :
      (rest : List Edit) (n k : ℕ) → produced (downwards n k at remove ++ rest) ≡ produced rest
  unfolding downwards
  produced-removes rest zero k = refl
  produced-removes rest (suc n) k = produced-removes rest n (k + 1)

-- What the edits of a node and its ancestors take and leave, less the node itself.
module _ (observed : List ℕ) (ids : ℕ → ℕ) where
  abbrev changed : List Edit → List Edit
  changed = change_to_seq_order_id observed ids

  pub gap_consumed :
      (rd cd row column base : ℕ) (rest : List Edit)
      → column ≡ base + cd
      → consumed (changed rest) ≡ down_from base
      → consumed (changed (downwards cd 0 column remove ++ (downwards rd 0 row add ++ rest)))
        ≡ down_from column
  gap_consumed rd cd row column base rest e h =
      ap consumed (change-removes column observed ids (downwards rd 0 row add ++ rest) cd 0)
      ∙ consumed-removes column (changed (downwards rd 0 row add ++ rest)) cd 0
      ∙ ap (λ l. runs_down cd 0 column ++ l) (consumed-change row observed ids rest rd 0 ∙ h)
      ∙ sym (down_from-split cd 0 column base (omega arith))
      ∙ ap down_from (sym e)

  pub gap_produced :
      (rd cd row column base : ℕ) (rest : List Edit)
      → row ≡ base + rd
      → produced (changed rest) ≡ map (id_of 0 observed ids) (down_from base)
      → produced (changed (downwards cd 0 column remove ++ (downwards rd 0 row add ++ rest)))
        ≡ map (id_of 0 observed ids) (down_from row)
  gap_produced rd cd row column base rest e h =
      ap produced (change-removes column observed ids (downwards rd 0 row add ++ rest) cd 0)
      ∙ produced-removes column (changed (downwards rd 0 row add ++ rest)) cd 0
      ∙ produced-change row observed ids rest rd 0
      ∙ ap (λ l. map (id_of 0 observed ids) (runs_down rd 0 row) ++ l) h
      ∙ sym (map-append (id_of 0 observed ids) (runs_down rd 0 row) (down_from base))
      ∙ ap (map (id_of 0 observed ids))
          (sym (down_from-split rd 0 row base (omega arith)) ∙ ap down_from (sym e))

  pub consumed-diff :
      (order : ℕ → ℕ) (chain : Chain)
      → Walk order chain
      → consumed (changed (diff_of chain)) ≡ down_from (next_column chain)
  unfolding diff_of change_to_seq_order_id
  consumed-diff order [] h = refl
  consumed-diff order (s ∷ up) h =
      ap (λ l. s.column ∷ l)
        (gap_consumed s.row_distance s.column_distance s.row s.column (next_column up) (diff_of up)
          h.2 (consumed-diff order up h.3))
      ∙ ap down_from {x = suc s.column} {y = s.column + 1} (omega arith)

  pub produced-diff :
      (chain : Chain)
      → Walk (id_of 0 observed ids) chain
      → produced (changed (diff_of chain)) ≡ map (id_of 0 observed ids) (down_from (next_row chain))
  unfolding diff_of change_to_seq_order_id
  produced-diff [] h = refl
  produced-diff (s ∷ up) h =
      ap₂ (λ x l. x ∷ l) (sym h.0)
        (gap_produced s.row_distance s.column_distance s.row s.column (next_row up) (diff_of up) h.1
          (produced-diff up h.3))
      ∙ ap (λ n. map (id_of 0 observed ids) (down_from n)) {x = suc s.row} {y = s.row + 1}
          (omega arith)
