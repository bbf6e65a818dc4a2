-- ===== src/Rempi/Encoder/Writing/Invariant.antt =====
-- The invariant of the record run of the I/O thread, step by step (src/rempi/rempi_io_thread.cpp,
-- src/rempi/rempi_encoder_basic.cpp).
use re_omp_llvm.Common.{
  ℕ, ◌+◌, ◌^◌, ◌≤◌, ◌<◌, ◌≡◌, ◌≢◌, refl, sym, ap, subst, ◌∙◌, Bool, true, false, ◌&&◌, ◌||◌, not,
  List, [], ◌∷◌, ◌++◌, append_assoc, append-nil, length, length-append, ltb, ◌==◌, if◌then◌else◌,
  inl, inr, arith,
}
use re_omp_llvm.Rempi.Event.{Event}
use re_omp_llvm.Rempi.EventList.{size}
use re_omp_llvm.Rempi.EventList.Recording.{
  op, push_op, pop_op, close_op, Inv, push-Inv, pop-Inv, pop_eq, close-Inv,
}
use re_omp_llvm.Rempi.Encoder.{encode, write_record_file, write_chunks}
use re_omp_llvm.Rempi.Encoder.Writing.{
  Stage, filling, deciding, draining, ending, over, filling_with, draining_with, Writer, take_front,
  add, write, rank_unknown, fill, drain, decide, end, io_step,
}
use re_omp_llvm.Rempi.Encoder.Writing.Pushes.{
  push_returns, push_result, close_result, push_all_returns, pop_event_eq,
}
use re_omp_llvm.Rempi.Encoder.Writing.Chunks.{
  concat, concat-append, write_chunks-append, length_zero, front_of, front_eq,
}

-- the event that the thread has popped and not yet put into the input format
abbrev pub in_hand : Stage → List Event
in_hand (filling_with e) = e ∷ []
in_hand (draining_with e) = e ∷ []
in_hand _ = []

-- The invariant: where the events are that were popped, and that a chunk with more than `max` events is not
-- left behind.
pub record Good (max n : ℕ) (w : Writer) : Type 0 where
  pub small : length w.run.pushed ≤ n
  pub recorded : Inv w.run
  pub taken : w.run.popped ≡ concat w.chunks ++ (w.input ++ in_hand w.stage)
  pub written : w.file ≡ write_chunks [] w.chunks
  pub shown : w.is_closed ≡ true → w.run.list.is_push_closed ≡ true
  pub short : w.stage ≡ ending → length w.input ≤ max
  pub done :
      w.stage ≡ over
      → (w.run.list.is_push_closed ≡ true) × (w.run.list.events ≡ []) × (length w.input ≤ max)

pub if-Good :
    {max n : ℕ} (b : Bool) (u v : Writer)
    → (b ≡ true → Good max n u)
    → (b ≡ false → Good max n v)
    → Good max n (if b then u else v)
if-Good true u v h k = h refl
if-Good false u v h k = k refl

module _ (max n : ℕ) (w : Writer) (good : Good max n w) where
  pub more_Good : Good max (n + 1) w
  more_Good = record {
    small = omega (arith, good.small);
    recorded = good.recorded;
    taken = good.taken;
    written = good.written;
    shown = good.shown;
    short = good.short;
    done = good.done;
  }

  pub push-Good :
      (e : Event)
      → e.event_count ≡ 1
      → n + 1 < 2 ^ 31
      → Good max (n + 1) (record w { run = op (push_op e) w.run })
  push-Good e one small = elim (push_result e w.run) [
    | inl same ↦ subst (λ r. Good max (n + 1) (record w { run = r })) (sym same) more_Good
    | inr (s', h, became) ↦
        let (opened, was) = push_returns e w.run.list s' h in
        subst (λ r. Good max (n + 1) (record w { run = r })) (sym became)
          (record {
            small = omega (arith, good.small, length-append w.run.pushed (e ∷ []));
            recorded =
                subst Inv became
                  (push-Inv w.run good.recorded e one (omega (arith, small, good.small)));
            taken = good.taken;
            written = good.written;
            shown = λ shut. absurd (ground (arith, was, good.shown shut));
            short = good.short;
            done = λ at. absurd (ground (arith, was, (good.done at).0));
          })
  ]

  pub close-Good : Good max n (record w { run = op close_op w.run })
  close-Good = elim (close_result w.run) [
    | inl same ↦ subst (λ r. Good max n (record w { run = r })) (sym same) good
    | inr (s', h, became) ↦
        let (shut, was) = push_all_returns w.run.list s' h in
        subst (λ r. Good max n (record w { run = r })) (sym became)
          (record {
            small = good.small;
            recorded = subst Inv became (close-Inv w.run good.recorded);
            taken = good.taken;
            written = good.written;
            shown = λ _. shut;
            short = good.short;
            done = λ at. absurd (ground (arith, was, (good.done at).0));
          })
  ]

  pub shows_close-Good : Good max n (record w { is_closed = w.run.list.is_push_closed })
  shows_close-Good = record {
    small = good.small;
    recorded = good.recorded;
    taken = good.taken;
    written = good.written;
    shown = λ shut. shut;
    short = good.short;
    done = good.done;
  }

  -- an event from the front of the list
  pub take_front-Good :
      (e : Event) (es : List Event) (t : Stage)
      → w.run.list.events ≡ e ∷ es
      → in_hand w.stage ≡ []
      → in_hand t ≡ e ∷ []
      → t ≢ ending
      → t ≢ over
      → Good max n (take_front t w)
  unfolding take_front
  take_front-Good e es t was free holds ne no_end =
      subst (λ r. Good max n (record w { run = r; stage = t })) (sym became)
        (record {
          small = good.small;
          recorded = subst Inv became (pop-Inv w.run good.recorded);
          taken =
              ap (λ l. l ++ e ∷ []) (good.taken ∙ ap (λ l. concat w.chunks ++ (w.input ++ l)) free)
              ∙ append_assoc (concat w.chunks) (w.input ++ []) (e ∷ [])
              ∙ ap (λ l. concat w.chunks ++ l)
                  (ap (λ l. l ++ e ∷ []) (append-nil w.input) ∙ ap (λ l. w.input ++ l) (sym holds));
          written = good.written;
          shown = good.shown;
          short = λ is. absurd (ne is);
          done = λ is. absurd (no_end is);
        })
    where
      became : op pop_op w.run ≡ record (w.run) {
        list = record (w.run.list) { events = es };
        popped = w.run.popped ++ e ∷ [];
      }
      became =
          pop_eq w.run good.recorded e (record (w.run.list) { events = es })
            (pop_event_eq w.run.list e es was)

  -- The event in hand goes to the input format.
  pub add-Good :
      (e : Event) (t : Stage)
      → in_hand w.stage ≡ e ∷ []
      → in_hand t ≡ []
      → t ≢ ending
      → t ≢ over
      → Good max n (add e t w)
  add-Good e t holds free ne no_end = record {
    small = good.small;
    recorded = good.recorded;
    taken =
        good.taken
        ∙ ap (λ l. concat w.chunks ++ l)
            (ap (λ l. w.input ++ l) holds
              ∙ sym (append-nil (w.input ++ e ∷ []))
              ∙ ap (λ l. (w.input ++ e ∷ []) ++ l) (sym free));
    written = good.written;
    shown = good.shown;
    short = λ is. absurd (ne is);
    done = λ is. absurd (no_end is);
  }

  pub write-Good : in_hand w.stage ≡ [] → Good max n (write w)
  unfolding write
  write-Good free = record {
    small = good.small;
    recorded = good.recorded;
    taken =
        good.taken
        ∙ ap (λ l. concat w.chunks ++ l) (ap (λ l. w.input ++ l) free ∙ append-nil w.input)
        ∙ sym (append-nil _ ∙ concat-append w.chunks w.input);
    written =
        ap (λ f. write_record_file f (encode w.input)) good.written
        ∙ sym (write_chunks-append [] w.chunks w.input);
    shown = good.shown;
    short = λ at. omega arith;
    done = λ at. absurd cc;
  }

  -- A stage changes, with nothing else.
  pub stage-Good :
      (t : Stage)
      → in_hand w.stage ≡ []
      → in_hand t ≡ []
      → (t ≡ ending → length w.input ≤ max)
      → (t ≡ over
          → (w.run.list.is_push_closed ≡ true) × (w.run.list.events ≡ []) × (length w.input ≤ max))
      → Good max n (record w { stage = t })
  stage-Good t free free' s d = record {
    small = good.small;
    recorded = good.recorded;
    taken = good.taken ∙ ap (λ l. concat w.chunks ++ (w.input ++ l)) (free ∙ sym free');
    written = good.written;
    shown = good.shown;
    short = s;
    done = d;
  }

  module _ (any_source : ℕ) where
    pub decide-Good : in_hand w.stage ≡ [] → Good max n (decide any_source max w)
    decide-Good free =
        if-Good (length w.input == 0) _ _
          (λ nothing. stage-Good ending free refl (λ _. ground (arith, nothing)) (λ at. absurd cc))
          (λ rest.
            if-Good (ltb max (length w.input) || w.is_closed) _ _
              (λ enough. stage-Good draining free refl (λ at. absurd cc) (λ at. absurd cc))
              (λ few. stage-Good ending free refl (λ _. ground (arith, few)) (λ at. absurd cc)))

    pub end-Good : w.stage ≡ ending → Good max n (end any_source max w)
    end-Good at =
        if-Good (w.is_closed && (size w.run.list == 0)) _ _
          (λ finished.
            let shut : w.is_closed ≡ true = ground (arith, finished) in
            let nil = length_zero w.run.list.events (ground (arith, finished)) in
            stage-Good over (ap in_hand at) refl (λ is. absurd cc)
              (λ _. (good.shown shut, nil, good.short at)))
          (λ more. stage-Good filling (ap in_hand at) refl (λ is. absurd cc) (λ is. absurd cc))

    pub fill-Good :
        (es : List Event)
        → w.run.list.events ≡ es
        → w.stage ≡ filling
        → Good max n (fill any_source max (front_of es) w)
    fill-Good [] was at =
        stage-Good deciding (ap in_hand at) refl (λ is. absurd cc) (λ is. absurd cc)
    fill-Good (e ∷ es) was at =
        take_front-Good e es (filling_with e) was (ap in_hand at) refl (λ is. absurd cc)
          (λ is. absurd cc)

    pub drain-Good :
        (es : List Event)
        → w.run.list.events ≡ es
        → w.stage ≡ draining
        → Good max n (drain any_source max (front_of es) w)
    drain-Good [] was at = write-Good (ap in_hand at)
    drain-Good (e ∷ es) was at =
        take_front-Good e es (draining_with e) was (ap in_hand at) refl (λ is. absurd cc)
          (λ is. absurd cc)

    pub io_step-Good : (t : Stage) → w.stage ≡ t → Good max n (io_step any_source max t w)
    unfolding io_step
    io_step-Good filling at =
        subst (λ o. Good max n (fill any_source max o w)) (sym (front_eq w.run.list))
          (fill-Good w.run.list.events refl at)
    io_step-Good deciding at = decide-Good (ap in_hand at)
    io_step-Good draining at =
        subst (λ o. Good max n (drain any_source max o w)) (sym (front_eq w.run.list))
          (drain-Good w.run.list.events refl at)
    io_step-Good ending at = end-Good at
    io_step-Good over at = good
    io_step-Good (filling_with e) at =
        if-Good (rank_unknown any_source max e && not w.is_closed) _ _ (λ h. good)
          (λ h. add-Good e filling (ap in_hand at) refl (λ is. absurd cc) (λ is. absurd cc))
    io_step-Good (draining_with e) at =
        if-Good (rank_unknown any_source max e) _ _ (λ h. good)
          (λ h. add-Good e draining (ap in_hand at) refl (λ is. absurd cc) (λ is. absurd cc))
