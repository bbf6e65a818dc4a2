-- ===== src/Gate/Reduction/Tests.antt =====
-- Reductions of one thread, and the theorem about them at those.
use re_omp_llvm.Common.{ℕ, ◌≡◌, refl, Option, none, some, List, [], ◌∷◌, length, inl, inr}
use re_omp_llvm.Gate.Defs.{ok, err, Result}
use re_omp_llvm.Gate.File.{fwrite, put_words, fseek_end, size_words}
use re_omp_llvm.Gate.File.Transfer.{Reads}
use re_omp_llvm.Gate.Clock.{Cgate, cgate_init, ticket_wait, leave, write_words}
use re_omp_llvm.Gate.Reduction.{
  reductions, reduction, in_bef_reduce_begin, in_aft_reduce_begin, out_reduce_end, fill_method,
  record_reduction_method_init, record_reduction_method, lock_reduction,
}
use re_omp_llvm.Gate.Reduction.RoundTrip.{record_on, replay_on, words_on_disk, reductions_replayed}

abbrev no_files : ℕ → Option (List ℕ)
no_files _ = none

words_left : Result (Option Cgate) → Option (List ℕ)
words_left (ok (some g)) = words_on_disk (g.fds 5).fd
words_left (ok none) = none
words_left (err _) = none

-- A master, a worker and an atomic reduction: the method stands before the ticket that was written
-- earlier.
test_words : List ℕ → Option (List ℕ)
unfolding words_left reductions reduction in_bef_reduce_begin in_aft_reduce_begin out_reduce_end
    fill_method record_reduction_method_init record_reduction_method cgate_init ticket_wait leave
    write_words fwrite put_words fseek_end size_words
test_words ms = words_left (reductions (record_on no_files) 5 ms cgate_init)

written_words : test_words (1 ∷ 0 ∷ 2 ∷ []) ≡ some (1 ∷ 0 ∷ 0 ∷ 0 ∷ 0 ∷ 2 ∷ 0 ∷ 1 ∷ [])
unfolding test_words
written_words = refl

reductions_replayed_example :
    (g g' : Cgate) × (ws : List ℕ) × (reductions (record_on no_files) 5 (1 ∷ 0 ∷ 2 ∷ []) cgate_init
      ≡ ok (some g))
    × (reductions (replay_on (λ i. words_on_disk (g.fds i).fd)) 5 (1 ∷ 0 ∷ 2 ∷ []) cgate_init
        ≡ ok (some g'))
    × (words_on_disk (g.fds 5).fd ≡ some ws)
    × Reads (some ws) (g'.fds 5).fd ws (length ws)
    × (g'.current_clocks lock_reduction ≡ g.current_clocks lock_reduction)
reductions_replayed_example =
    reductions_replayed no_files 5 1 (0 ∷ 2 ∷ []) (inr (inl refl), (inl refl, (inr (inr refl), _)))
