-- ===== src/Rempi/Encoder/Writing/Leaving.antt =====
-- How the I/O thread leaves the loop of write_record (src/rempi/rempi_io_thread.cpp,
-- src/rempi/rempi_encoder_basic.cpp).
use re_omp_llvm.Common.{
  ℕ, zero, suc, ◌≡◌, refl, sym, ap, subst, ◌∙◌, Bool, true, false, ◌&&◌, ◌||◌, not, Bool-cases, inl,
  inr, List, [], ◌∷◌, length, replicate, ltb, ◌==◌, if◌then◌else◌, arith,
}
use re_omp_llvm.Rempi.Event.{Event}
use re_omp_llvm.Rempi.EventList.{size}
use re_omp_llvm.Rempi.EventList.Recording.{Run, op, pop_op}
use re_omp_llvm.Rempi.Encoder.Writing.{
  Stage, filling, deciding, draining, ending, over, filling_with, draining_with, Writer, take_front,
  add, write, rank_unknown, fill, drain, io_step, io_turn, turn, turns,
}
use re_omp_llvm.Rempi.Encoder.Writing.Pushes.{pop_event_eq}
use re_omp_llvm.Rempi.Encoder.Writing.Chunks.{front_of, front_eq}
use re_omp_llvm.Rempi.Encoder.Writing.Invariant.{in_hand}

if_true {ℓ} : {A : Type ℓ} (x y : A) (b : Bool) → b ≡ true → (if b then x else y) ≡ x
if_true x y b h = rw h refl

if_false {ℓ} : {A : Type ℓ} (x y : A) (b : Bool) → b ≡ false → (if b then x else y) ≡ y
if_false x y b h = rw h refl

pub pop_list :
    (e : Event) (es : List Event) (r : Run)
    → r.list.events ≡ e ∷ es
    → (op pop_op r).list ≡ record (r.list) { events = es }
unfolding op
pop_list e es r was = ground (arith, pop_event_eq r.list e es was)

pop_events :
    (e : Event) (es : List Event) (r : Run)
    → r.list.events ≡ e ∷ es
    → (op pop_op r).list.events ≡ es
pop_events e es r was = ap (λ l. l.events) (pop_list e es r was)

module _ (any_source max : ℕ) where
  abbrev pub AllKnown : List Event → Type 0
  AllKnown [] = Unit {0}
  AllKnown (e ∷ es) = (rank_unknown any_source max e ≡ false) × AllKnown es

  -- Some number of steps of the thread ends its loop.
  abbrev pub Leaves : Writer → Type 0
  Leaves w = (k : ℕ) × ((turns any_source max (replicate k io_turn) w).stage ≡ over)

  then-Leaves : (w v : Writer) → io_step any_source max w.stage w ≡ v → Leaves v → Leaves w
  unfolding turns turn
  then-Leaves w v e (k, h) =
      (suc k, subst (λ u. (turns any_source max (replicate k io_turn) u).stage ≡ over) (sym e) h)

  -- one step from a stage that is known
  next-Leaves :
      (t : Stage) (w v : Writer)
      → w.stage ≡ t
      → io_step any_source max t w ≡ v
      → Leaves v
      → Leaves w
  next-Leaves t w v at e = then-Leaves w v (ap (λ s. io_step any_source max s w) at ∙ e)

  over-Leaves : (w : Writer) → w.stage ≡ over → Leaves w
  unfolding turns
  over-Leaves w at = (zero, at)

  ending-Leaves :
      (w : Writer) → w.is_closed ≡ true → w.run.list.events ≡ [] → w.stage ≡ ending → Leaves w
  unfolding io_step
  ending-Leaves w shut nil at =
      next-Leaves ending w (record w { stage = over }) at
        (if_true _ _ (w.is_closed && (size w.run.list == 0)) (ground (arith, shut, ap length nil)))
        (over-Leaves (record w { stage = over }) refl)

  draining-Leaves :
      (es : List Event) (w : Writer)
      → w.is_closed ≡ true
      → w.run.list.events ≡ es
      → AllKnown es
      → w.stage ≡ draining
      → Leaves w
  unfolding io_step take_front write
  draining-Leaves [] w shut was known at =
      next-Leaves draining w (write w) at
        (ap (λ o. drain any_source max o w) (front_eq w.run.list ∙ ap front_of was))
        (ending-Leaves (write w) shut was refl)
  draining-Leaves (e ∷ es) w shut was known at =
      let w1 = take_front (draining_with e) w in
      next-Leaves draining w w1 at
        (ap (λ o. drain any_source max o w) (front_eq w.run.list ∙ ap front_of was))
        (next-Leaves (draining_with e) w1 (add e draining w1) refl
          (if_false _ _ (rank_unknown any_source max e) known.0)
          (draining-Leaves es (add e draining w1) shut (pop_events e es w.run was) known.1 refl))

  deciding-Leaves :
      (es : List Event) (w : Writer)
      → w.is_closed ≡ true
      → w.run.list.events ≡ es
      → AllKnown es
      → w.stage ≡ deciding
      → Leaves (record w { stage = ending })
      → Leaves w
  unfolding io_step
  deciding-Leaves es w shut was known at last = elim (Bool-cases (length w.input == 0)) [
    | inl nothing ↦
        next-Leaves deciding w (record w { stage = ending }) at
          (if_true _ _ (length w.input == 0) nothing) last
    | inr rest ↦
        next-Leaves deciding w (record w { stage = draining }) at
          (if_false _ _ (length w.input == 0) rest
            ∙ if_true _ _ (ltb max (length w.input) || w.is_closed) (ground (arith, shut)))
          (draining-Leaves es (record w { stage = draining }) shut was known refl)
  ]

  filling-Leaves :
      (es : List Event) (w : Writer)
      → w.is_closed ≡ true
      → w.run.list.events ≡ es
      → AllKnown es
      → w.stage ≡ filling
      → Leaves w
  unfolding io_step take_front
  filling-Leaves [] w shut was known at =
      next-Leaves filling w (record w { stage = deciding }) at
        (ap (λ o. fill any_source max o w) (front_eq w.run.list ∙ ap front_of was))
        (deciding-Leaves [] (record w { stage = deciding }) shut was _ refl
          (ending-Leaves (record w { stage = ending }) shut was refl))
  filling-Leaves (e ∷ es) w shut was known at =
      let w1 = take_front (filling_with e) w in
      next-Leaves filling w w1 at
        (ap (λ o. fill any_source max o w) (front_eq w.run.list ∙ ap front_of was))
        (next-Leaves (filling_with e) w1 (add e filling w1) refl
          (if_false _ _ (rank_unknown any_source max e && not w.is_closed)
            (ground (arith, known.0)))
          (filling-Leaves es (add e filling w1) shut (pop_events e es w.run was) known.1 refl))

  round-Leaves :
      (es : List Event) (w : Writer)
      → w.is_closed ≡ true
      → w.run.list.events ≡ es
      → AllKnown es
      → w.stage ≡ ending
      → Leaves w
  unfolding io_step
  round-Leaves [] w shut was known at = ending-Leaves w shut was at
  round-Leaves (e ∷ es) w shut was known at =
      next-Leaves ending w (record w { stage = filling }) at
        (if_false _ _ (w.is_closed && (size w.run.list == 0)) (ground (arith, ap length was)))
        (filling-Leaves (e ∷ es) (record w { stage = filling }) shut was known refl)

  -- From any stage, where the rank of each event left is known.
  pub closed-Leaves :
      (t : Stage) (w : Writer)
      → w.is_closed ≡ true
      → AllKnown w.run.list.events
      → AllKnown (in_hand t)
      → w.stage ≡ t
      → Leaves w
  unfolding io_step
  closed-Leaves filling w shut known hand at = filling-Leaves w.run.list.events w shut refl known at
  closed-Leaves deciding w shut known hand at =
      deciding-Leaves w.run.list.events w shut refl known at
        (round-Leaves w.run.list.events (record w { stage = ending }) shut refl known refl)
  closed-Leaves draining w shut known hand at =
      draining-Leaves w.run.list.events w shut refl known at
  closed-Leaves ending w shut known hand at = round-Leaves w.run.list.events w shut refl known at
  closed-Leaves over w shut known hand at = over-Leaves w at
  closed-Leaves (filling_with e) w shut known hand at =
      next-Leaves (filling_with e) w (add e filling w) at
        (if_false _ _ (rank_unknown any_source max e && not w.is_closed) (ground (arith, hand.0)))
        (filling-Leaves w.run.list.events (add e filling w) shut refl known refl)
  closed-Leaves (draining_with e) w shut known hand at =
      next-Leaves (draining_with e) w (add e draining w) at
        (if_false _ _ (rank_unknown any_source max e) hand.0)
        (draining-Leaves w.run.list.events (add e draining w) shut refl known refl)
