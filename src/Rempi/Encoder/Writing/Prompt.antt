-- ===== src/Rempi/Encoder/Writing/Prompt.antt =====
-- A list that is marked closed before the I/O thread ends a round (src/rempi/rempi_io_thread.cpp,
-- src/rempi/rempi_encoder_basic.cpp).
use re_omp_llvm.Common.{
  ◌≡◌, refl, Bool, true, false, ◌&&◌, ◌||◌, not, Option, none, some, [], length, ltb, ◌==◌,
  if◌then◌else◌, arith, ℕ,
}
use re_omp_llvm.Rempi.Event.{Event}
use re_omp_llvm.Rempi.EventList.{size, front}
use re_omp_llvm.Rempi.Encoder.Writing.{
  Stage, filling, deciding, draining, ending, over, filling_with, draining_with, Writer, take_front,
  write, rank_unknown, fill, drain, decide, end, io_step, Turn, pushes, closes, shows_close,
  io_turn, turn,
}
use re_omp_llvm.Rempi.Encoder.Writing.Chunks.{length_zero}
use re_omp_llvm.Rempi.Encoder.Writing.Invariant.{Good}

-- The thread sees that the list is closed, and ends no round with events in its input format.
abbrev pub Prompt : Writer → Type 0
Prompt w =
    (w.is_closed ≡ true) × (w.stage ≡ ending → w.input ≡ []) × (w.stage ≡ over → w.input ≡ [])

if-Prompt :
    (b : Bool) (u v : Writer)
    → (b ≡ true → Prompt u)
    → (b ≡ false → Prompt v)
    → Prompt (if b then u else v)
if-Prompt true u v h k = h refl
if-Prompt false u v h k = k refl

module _ (any_source max : ℕ) (w : Writer) (p : Prompt w) where
  fill-Prompt : (o : Option Event) → Prompt (fill any_source max o w)
  unfolding take_front
  fill-Prompt none = (p.0, λ at. absurd cc, λ at. absurd cc)
  fill-Prompt (some e) = (p.0, λ at. absurd cc, λ at. absurd cc)

  drain-Prompt : (o : Option Event) → Prompt (drain any_source max o w)
  unfolding write take_front
  drain-Prompt none = (p.0, λ at. refl, λ at. absurd cc)
  drain-Prompt (some e) = (p.0, λ at. absurd cc, λ at. absurd cc)

  decide-Prompt : Prompt (decide any_source max w)
  decide-Prompt =
      if-Prompt (length w.input == 0) _ _
        (λ nothing. (p.0, (λ at. length_zero w.input nothing), λ at. absurd cc))
        (λ rest.
          if-Prompt (ltb max (length w.input) || w.is_closed) _ _
            (λ enough. (p.0, (λ at. absurd cc), λ at. absurd cc))
            (λ few. absurd (ground (arith, few, p.0))))

  end-Prompt : w.stage ≡ ending → Prompt (end any_source max w)
  end-Prompt at =
      if-Prompt (w.is_closed && (size w.run.list == 0)) _ _
        (λ finished. (p.0, (λ is. absurd cc), λ _. p.1 at))
        (λ more. (p.0, (λ is. absurd cc), λ is. absurd cc))

  io_step-Prompt : (t : Stage) → w.stage ≡ t → Prompt (io_step any_source max t w)
  unfolding io_step
  io_step-Prompt filling at = fill-Prompt (front w.run.list)
  io_step-Prompt deciding at = decide-Prompt
  io_step-Prompt draining at = drain-Prompt (front w.run.list)
  io_step-Prompt ending at = end-Prompt at
  io_step-Prompt over at = p
  io_step-Prompt (filling_with e) at =
      if-Prompt (rank_unknown any_source max e && not w.is_closed) _ _ (λ h. p)
        (λ h. (p.0, (λ is. absurd cc), λ is. absurd cc))
  io_step-Prompt (draining_with e) at =
      if-Prompt (rank_unknown any_source max e) _ _ (λ h. p)
        (λ h. (p.0, (λ is. absurd cc), λ is. absurd cc))

  pub turn-Prompt : (n : ℕ) (t : Turn) → Good max n w → Prompt (turn any_source max t w)
  unfolding turn
  turn-Prompt n (pushes e) good = p
  turn-Prompt n closes good = p
  turn-Prompt n shows_close good = (good.shown p.0, p.1, p.2)
  turn-Prompt n io_turn good = io_step-Prompt w.stage refl
