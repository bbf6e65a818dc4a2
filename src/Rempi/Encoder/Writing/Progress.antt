-- ===== src/Rempi/Encoder/Writing/Progress.antt =====
-- That the I/O thread leaves the loop of write_record (src/rempi/rempi_io_thread.cpp,
-- src/rempi/rempi_encoder_basic.cpp).
use re_omp_llvm.Common.{ℕ, ◌≡◌, false, Option, some}
use re_omp_llvm.Rempi.Event.{Event}
use re_omp_llvm.Rempi.EventList.{EventList}
use re_omp_llvm.Rempi.Encoder.Writing.{Writer, rank_unknown}
use re_omp_llvm.Rempi.Encoder.Writing.Invariant.{in_hand}
use re_omp_llvm.Rempi.Encoder.Writing.Leaving.{AllKnown}

module _ (any_source max : ℕ) where
  -- The list holds events of known ranks only.
  record Known (s : EventList) : Type 0 where
    queued : AllKnown any_source max s.events
    last : (e : Event) → s.previous_recording_event ≡ some e → rank_unknown any_source max e ≡ false

  -- So is the event in hand.
  abbrev AtEase : Writer → Type 0
  AtEase w = Known w.run.list × AllKnown any_source max (in_hand w.stage)
