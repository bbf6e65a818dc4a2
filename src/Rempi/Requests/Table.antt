-- ===== src/Rempi/Requests/Table.antt =====
-- The std::unordered_map and std::unordered_set of src/rempi/rempi_request_mg.cpp as lists of their entries.
use re_omp_llvm.Common.{
  ℕ, ◌≡◌, refl, ◌≢◌, ◌⊎◌, inl, inr, Bool-cases, ==_iff, Bool, true, false, Option, none, some, List,
  [], ◌∷◌, ◌==◌, if◌then◌else◌, arith,
}

module _ {ℓ} {A : Type ℓ} where
  unfoldable pub find : ℕ → List (ℕ × A) → Option A
  find k [] = none
  find k ((j, a) ∷ t) = let rest = find k t in if j == k then some a else rest

  -- operator[] on the left of an assignment
  unfoldable pub insert : ℕ → A → List (ℕ × A) → List (ℕ × A)
  insert k a [] = (k, a) ∷ []
  insert k a ((j, b) ∷ t) = let rest = insert k a t in if j == k then (k, a) ∷ t else (j, b) ∷ rest

  -- erase(key): a map has one entry of a key at most
  unfoldable pub erase : ℕ → List (ℕ × A) → List (ℕ × A)
  erase k [] = []
  erase k ((j, b) ∷ t) = let rest = erase k t in if j == k then rest else (j, b) ∷ rest

  pub find-insert :
      (j k : ℕ) (a : A) (t : List (ℕ × A))
      → find j (insert k a t) ≡ (if k == j then some a else find j t)
  unfolding find insert
  find-insert j k a [] = refl
  find-insert j k a ((i, b) ∷ t) = ground (arith, find-insert j k a t)

  pub find-insert_self : (k : ℕ) (a : A) (t : List (ℕ × A)) → find k (insert k a t) ≡ some a
  find-insert_self k a t = ground (arith, find-insert k k a t)

  pub find-insert_ne :
      (j k : ℕ) (a : A) (t : List (ℕ × A)) → k ≢ j → find j (insert k a t) ≡ find j t
  find-insert_ne j k a t h = ground (arith, find-insert j k a t)

  pub find-erase :
      (j k : ℕ) (t : List (ℕ × A)) → find j (erase k t) ≡ (if k == j then none else find j t)
  unfolding find erase
  find-erase j k [] = ground arith
  find-erase j k ((i, b) ∷ t) = ground (arith, find-erase j k t)

  pub find-cons :
      (k j : ℕ) (a b : A) (t : List (ℕ × A))
      → find k ((j, b) ∷ t) ≡ some a
      → (j ≡ k) ⊎ (find k t ≡ some a)
  unfolding find
  find-cons k j a b t h = elim (Bool-cases (j == k)) [
    | inl same ↦ inl ((==_iff j k).0 same)
    | inr differs ↦ inr (ground (arith, h, differs))
  ]

-- insert of a set of numbers
unfoldable pub contains : ℕ → List ℕ → Bool
contains k [] = false
contains k (j ∷ js) = let rest = contains k js in if j == k then true else rest

unfoldable pub add_number : ℕ → List ℕ → List ℕ
add_number k [] = k ∷ []
add_number k (j ∷ js) = let rest = add_number k js in if j == k then j ∷ js else j ∷ rest

pub contains-cons :
    (k j : ℕ) (js : List ℕ) → contains k (j ∷ js) ≡ true → (j ≡ k) ⊎ (contains k js ≡ true)
unfolding contains
contains-cons k j js h = ground arith
