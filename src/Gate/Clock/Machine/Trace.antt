-- ===== src/Gate/Clock/Machine/Trace.antt =====
-- What the clock values of a trace of passages determine (the tickets of
-- src/reomp/reomp_gate_clock.cpp).
use re_omp_llvm.Common.{
  ℕ, zero, suc, ◌%◌, ◌^◌, ◌<◌, ◌≤◌, ◌≡◌, refl, sym, ap, ◌∙◌, some, List, [], ◌∷◌, ◌++◌, ◌==◌,
  length, length-append, get_elem?, get_elem?-append_left, get_elem?-append_last, get_elem?-lt, ◌⊎◌,
  inl, inr, Bool-cases, ==_iff, arith,
}
use re_omp_llvm.Gate.Clock.Machine.{Passage, count, order, locks, clocks}

pub length-order : (l : ℕ) (t : List Passage) → length (order l t) ≡ count l t
unfolding order count
length-order l [] = refl
length-order l ((k, j) ∷ t) = ground (arith, length-order l t, length-append (order l t) (j ∷ []))

pub length-clocks : (i : ℕ) (t : List Passage) → length (clocks i t) ≡ length (locks i t)
unfolding clocks locks
length-clocks i [] = refl
length-clocks i ((k, j) ∷ t) = ground (
  arith,
  length-clocks i t,
  length-append (clocks i t) ((count k t % 2 ^ 32) ∷ []),
  length-append (locks i t) (k ∷ []),
)

pub count-le : (l : ℕ) (t : List Passage) → count l t ≤ length t
unfolding count
count-le l [] = omega arith
count-le l ((k, j) ∷ t) = ground (arith, count-le l t)

-- The last element of a list that grew by one, or one of those before.
get_elem?-snoc {ℓ} :
    {A : Type ℓ} (xs : List A) (a b : A) (n : ℕ)
    → get_elem? (xs ++ a ∷ []) n ≡ some b
    → (get_elem? xs n ≡ some b) ⊎ ((n ≡ length xs) × (a ≡ b))
get_elem?-snoc [] a b zero h = inr (refl, ground arith)
get_elem?-snoc [] a b (suc n) h = ground arith
get_elem?-snoc (x ∷ xs) a b zero h = inl h
get_elem?-snoc (x ∷ xs) a b (suc n) h = elim (get_elem?-snoc xs a b n h) [
  | inl e ↦ inl e
  | inr (e, f) ↦ inr (ap suc e, f)
]

get_elem?-left {ℓ} :
    {A : Type ℓ} (xs ys : List A) (a : A) (n : ℕ)
    → n < length xs
    → get_elem? (xs ++ ys) n ≡ some a
    → get_elem? xs n ≡ some a
get_elem?-left xs ys a n h e = sym (get_elem?-append_left xs ys n h) ∙ e

-- A further passage leaves the places of the earlier ones.
order_grows :
    (l c i : ℕ) (p : Passage) (t : List Passage)
    → get_elem? (order l t) c ≡ some i
    → get_elem? (order l (p ∷ t)) c ≡ some i
unfolding order
order_grows l c i (k, j) t e =
    ground (arith, get_elem?-append_left (order l t) (j ∷ []) c (get_elem?-lt (order l t) c i e))

-- The newest passage has the place that its clock value says.
order_newest : (l j : ℕ) (t : List Passage) → get_elem? (order l ((l, j) ∷ t)) (count l t) ≡ some j
unfolding order
order_newest l j t = rw (← length-order l t) (ground (arith, get_elem?-append_last (order l t) j))

-- The `n`-th clock value `c` of a thread on lock `l` says that the thread is the `c`-th there.
pub get_elem?-order :
    (i l n c : ℕ) (t : List Passage)
    → length t < 2 ^ 32
    → get_elem? (clocks i t) n ≡ some c
    → get_elem? (locks i t) n ≡ some l
    → get_elem? (order l t) c ≡ some i
unfolding clocks locks
get_elem?-order i l n c [] b hc hl = ground arith
get_elem?-order i l n c ((k, j) ∷ t) b hc hl = elim (Bool-cases (j == i)) [
  | inr other ↦
      order_grows l c i (k, j) t
        (get_elem?-order i l n c t (omega arith) (ground arith) (ground arith))
  | inl own ↦ elim (get_elem?-snoc (clocks i t) (count k t % 2 ^ 32) c n (ground arith)) [
    | inl e ↦
        order_grows l c i (k, j) t
          (get_elem?-order i l n c t (omega arith) e (
            get_elem?-left (locks i t) (k ∷ []) l n
              (omega (arith, length-clocks i t, get_elem?-lt (clocks i t) n c e)) (ground arith)))
    | inr (e, f) ↦
        newest ((==_iff j i).0 own) (omega (arith, count-le k t))
          (same_lock (e ∙ length-clocks i t) (ground arith)) f
  ]
]
  where
    same_lock : n ≡ length (locks i t) → get_elem? (locks i t ++ k ∷ []) n ≡ some l → k ≡ l
    same_lock e h = ground (arith, get_elem?-append_last (locks i t) k)

    newest :
        j ≡ i
        → count k t < 2 ^ 32
        → k ≡ l
        → count k t % 2 ^ 32 ≡ c
        → get_elem? (order l ((k, j) ∷ t)) c ≡ some i
    newest own small lock f = ground (arith, order_newest k j t)
