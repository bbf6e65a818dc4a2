-- ===== src/Rempi/Encoder/Writing/Complete.antt =====
-- What is in the file when the loop of write_record has ended (src/rempi/rempi_io_thread.cpp,
-- src/rempi/rempi_encoder_basic.cpp, src/rempi/rempi_event_list.cpp).
use re_omp_llvm.Common.{ℕ, ◌≡◌, false, List, [], ◌∷◌}
use re_omp_llvm.Rempi.EventList.{EventList}
use re_omp_llvm.Rempi.Encoder.Writing.{rank_unknown, Turn, pushes, closes, shows_close, io_turn}
use re_omp_llvm.Rempi.Encoder.Writing.Prompt.{Prompt}

module _ (any_source max_event_length : ℕ) where
  -- Each push is of one event, of which the rank is known where it is a receive.
  abbrev pub KnownPushes : List Turn → Type 0
  KnownPushes [] = Unit {0}
  KnownPushes (pushes e ∷ ts) =
      (e.event_count ≡ 1) × (rank_unknown any_source max_event_length e ≡ false) × KnownPushes ts
  KnownPushes (closes ∷ ts) = KnownPushes ts
  KnownPushes (shows_close ∷ ts) = KnownPushes ts
  KnownPushes (io_turn ∷ ts) = KnownPushes ts
