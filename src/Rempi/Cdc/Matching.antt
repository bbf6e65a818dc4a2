-- ===== src/Rempi/Cdc/Matching.antt =====
-- The columns that compress finds for the observed events (next_start_search_it,
-- find_matched_clock_column and update_start_it of src/rempi/rempi_clock_delta_compression.cpp).
use re_omp_llvm.Common.{
  ℕ, zero, suc, ◌+◌, ◌-◌, ◌≤◌, ◌<◌, ◌≡◌, refl, sym, ap, ◌∙◌, Bool, true, false, some, List, [], ◌∷◌,
  length, drop, set, replicate, ◌==◌, ==_iff, if◌then◌else◌, Bool-cases, ◌⊎◌, inl, inr, arith,
}
use re_omp_llvm.Rempi.Cdc.{find_matched, set_run, clock_at}

-- The place of a clock among the clocks.
pub index_of : List ℕ → ℕ → ℕ
index_of [] v = 0
index_of (c ∷ cs) v = if v == c then 0 else suc (index_of cs v)

-- Every clock is below the next.
abbrev pub Ascending : List ℕ → Type 0
Ascending cs = (i j : ℕ) → i < j → j < length cs → clock_at cs i < clock_at cs j

pub index_of-at :
    (cs : List ℕ) (k : ℕ)
    → k < length cs
    → (index_of cs (clock_at cs k) ≤ k)
      × (clock_at cs (index_of cs (clock_at cs k)) ≡ clock_at cs k)
unfolding index_of
index_of-at [] k h = absurd (omega arith)
index_of-at (c ∷ cs) zero h = ground arith
index_of-at (c ∷ cs) (suc k) h = elim (Bool-cases (clock_at cs k == c)) [
  | inl same ↦ rw same (omega arith, sym ((==_iff (clock_at cs k) c).0 same))
  | inr other ↦ let (le, eq) = index_of-at cs k (omega arith) in rw other (omega arith, eq)
]

pub index_of_self :
    (cs : List ℕ) → Ascending cs → (k : ℕ) → k < length cs → index_of cs (clock_at cs k) ≡ k
index_of_self cs asc k h =
    let (le, eq) = index_of-at cs k h in
    elim (Bool-cases (index_of cs (clock_at cs k) == k)) [
      | inl same ↦ (==_iff (index_of cs (clock_at cs k)) k).0 same
      | inr other ↦ absurd (omega (arith, asc (index_of cs (clock_at cs k)) k (ground arith) h, eq))
    ]

-- A search that begins at or before the place of a clock finds it.
pub find_matched-drop :
    (cs : List ℕ) (v p : ℕ)
    → index_of cs v < length cs
    → p ≤ index_of cs v
    → find_matched v (drop p cs) ≡ some (index_of cs v - p)
unfolding index_of find_matched
find_matched-drop [] v p h1 h2 = absurd (omega arith)
find_matched-drop (c ∷ cs) v zero h1 h2 = elim (Bool-cases (v == c)) [
  | inl here ↦ rw here refl
  | inr there ↦
      rw (there, find_matched-drop cs v zero (ground arith) (omega arith)) (ap some (omega arith))
]
find_matched-drop (c ∷ cs) v (suc p) h1 h2 = elim (Bool-cases (v == c)) [
  | inl here ↦ absurd (ground arith)
  | inr there ↦
      rw (find_matched-drop cs v p (ground arith) (ground arith), there) (ap some (omega arith))
]

-- The bit of a column; there is none past the end.
abbrev pub bit_at : List Bool → ℕ → Bool
bit_at [] i = false
bit_at (b ∷ bs) zero = b
bit_at (b ∷ bs) (suc i) = bit_at bs i

pub bit_at-set :
    (bs : List Bool) (i j : ℕ) → bit_at (set bs i true) j ≡ true → (i ≡ j) ⊎ (bit_at bs j ≡ true)
bit_at-set [] i j h = inr h
bit_at-set (b ∷ bs) zero zero h = inl refl
bit_at-set (b ∷ bs) zero (suc j) h = inr h
bit_at-set (b ∷ bs) (suc i) zero h = inr h
bit_at-set (b ∷ bs) (suc i) (suc j) h = elim (bit_at-set bs i j h) [
  | inl e ↦ inl (ap suc e)
  | inr e ↦ inr e
]

pub bit_kept : (bs : List Bool) (i j : ℕ) → bit_at bs j ≡ true → bit_at (set bs i true) j ≡ true
bit_kept [] i j h = h
bit_kept (b ∷ bs) zero zero h = refl
bit_kept (b ∷ bs) zero (suc j) h = h
bit_kept (b ∷ bs) (suc i) zero h = h
bit_kept (b ∷ bs) (suc i) (suc j) h = bit_kept bs i j h

pub bit_at-replicate : (n i : ℕ) → bit_at (replicate n false) i ≡ false
bit_at-replicate zero i = refl
bit_at-replicate (suc n) zero = refl
bit_at-replicate (suc n) (suc i) = bit_at-replicate n i

pub bit_at-drop : (bs : List Bool) (p i : ℕ) → bit_at (drop p bs) i ≡ bit_at bs (p + i)
bit_at-drop bs zero i = ap (bit_at bs) (omega arith)
bit_at-drop [] (suc p) i = refl
bit_at-drop (b ∷ bs) (suc p) i =
    bit_at-drop bs p i ∙ ap (bit_at (b ∷ bs)) {x = suc (p + i)} (omega arith)

-- the columns of a run are set
pub set_run-bits : (bs : List Bool) (i : ℕ) → i < set_run bs → bit_at bs i ≡ true
unfolding set_run
set_run-bits [] i h = absurd (omega arith)
set_run-bits (b ∷ bs) zero h = ground arith
set_run-bits (b ∷ bs) (suc i) h = set_run-bits bs i (ground arith)
