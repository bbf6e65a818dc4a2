-- ===== src/Rempi/Compression/Prediction.antt =====
-- Linear prediction is undone by its inverse (src/rempi/rempi_compression_util.cpp).
use native.Mathlib.Nat.{mod-add-mod, add-mul-mod_self_right, mod-eq_of_lt}
use re_omp_llvm.Common.{ℕ, ◌+◌, ◌-◌, ◌*◌, ◌%◌, ◌<◌, ◌≡◌, refl, ap, ◌∙◌, List, [], ◌∷◌, arith}
use re_omp_llvm.Rempi.Compression.{
  predict_loop, restore_loop, compress_by_linear_prediction, decompress_by_linear_prediction,
}

-- Every value is a pattern of the type.
abbrev pub Fits : ℕ → List ℕ → Type 0
Fits m [] = Unit {0}
Fits m (v ∷ vec) = (v < m) × Fits m vec

restore_one :
    (m a t1 t2 : ℕ)
    → a < m
    → t1 < m
    → t2 < m
    → ((a + 2 * m - 2 * t1 + t2) % m + 2 * t1 + m - t2) % m ≡ a
restore_one m a t1 t2 ha h1 h2 =
    ap (λ n. n % m) (omega arith)
    ∙ mod-add-mod (a + 2 * m - 2 * t1 + t2) m (2 * t1 + m - t2)
    ∙ ap (λ n. n % m) (omega arith)
    ∙ add-mul-mod_self_right a 3 m
    ∙ mod-eq_of_lt ha

restore-predict :
    (m t1 t2 : ℕ) (vec : List ℕ)
    → t1 < m
    → t2 < m
    → Fits m vec
    → restore_loop m t1 t2 (predict_loop m t1 t2 vec) ≡ vec
unfolding restore_loop predict_loop
restore-predict m t1 t2 [] h1 h2 f = refl
restore-predict m t1 t2 (t0 ∷ vec) h1 h2 f =
    rw (restore_one m t0 t1 t2 f.0 h1 h2)
      (ap (λ l. t0 ∷ l) (restore-predict m t0 t1 vec f.0 h1 f.1))

-- Linear prediction decompresses what it compressed: any vector of values of a type with m patterns
-- comes back, for every m above 0.
pub decompress-compress_by_linear_prediction :
    (m : ℕ) (vec : List ℕ)
    → 0 < m
    → Fits m vec
    → decompress_by_linear_prediction m (compress_by_linear_prediction m vec) ≡ vec
unfolding decompress_by_linear_prediction compress_by_linear_prediction
decompress-compress_by_linear_prediction m vec h f = restore-predict m 0 0 vec h h f
