-- ===== src/Rempi/EventList/Recording/Push.antt =====
-- What one push, pop or close does to what the event list holds (src/rempi/rempi_event_list.cpp).
use re_omp_llvm.Common.{
  ℕ, zero, suc, ◌+◌, ◌^◌, ◌≤◌, ◌<◌, ◌≡◌, refl, sym, ap, ◌∙◌, Bool, true, false, ◌&&◌, Option, none,
  some, List, [], ◌∷◌, ◌++◌, append_assoc, append-nil, length, replicate, leb, ◌==◌, ◌⊎◌, inl, inr,
  Bool-cases, subst, arith,
}
use re_omp_llvm.Rempi.Event.{Event, inputs, bump, same_event}
use re_omp_llvm.Rempi.EventList.{
  EventList, Call, returns, waits, push_was_closed, push_after, push, push_all, pop_event, closed,
}

-- the entries of an event as a single one, and an event as the single ones that it counts
abbrev pub single : Event → List ℕ
single e = inputs (record e { event_count = 1 })

abbrev pub expand : Event → List (List ℕ)
expand e = replicate e.event_count (single e)

unfoldable pub expand_all : List Event → List (List ℕ)
expand_all [] = []
expand_all (e ∷ es) = expand e ++ expand_all es

-- what the list still holds: the queue, and the event that is being counted
abbrev pub counting : EventList → List Event
counting s = elim (s.is_push_closed) [
  | true ↦ []
  | false ↦ elim (s.previous_recording_event) [ none ↦ [] | some e ↦ e ∷ [] ]
]

pub expand_all-append :
    (es fs : List Event) → expand_all (es ++ fs) ≡ expand_all es ++ expand_all fs
unfolding expand_all
expand_all-append [] fs = refl
expand_all-append (e ∷ es) fs =
    ap (λ l. expand e ++ l) (expand_all-append es fs)
    ∙ sym (append_assoc (expand e) (expand_all es) (expand_all fs))

replicate_snoc {ℓ} : {A : Type ℓ} (n : ℕ) (a : A) → replicate (suc n) a ≡ replicate n a ++ a ∷ []
replicate_snoc zero a = refl
replicate_snoc (suc n) a = ap (λ l. a ∷ l) (replicate_snoc n a)

-- Equal events differ in their counts only.
pub same-single :
    (a b : Event)
    → (same_event a b && (a.matching_group_id == b.matching_group_id)) ≡ true
    → single a ≡ single b
unfolding same_event
same-single a b h = ground arith

pub expand-bump :
    (e : Event) → e.event_count + 1 < 2 ^ 31 → expand (bump e) ≡ expand e ++ single e ∷ []
unfolding bump
expand-bump e h =
    ap (λ n. replicate n (single e)) {y = suc e.event_count} (omega arith)
    ∙ replicate_snoc e.event_count (single e)

-- What is held, and that it grew by the event that was pushed.
abbrev pub held : EventList → List (List ℕ)
held s = expand_all (s.events ++ counting s)

abbrev pub Kept : Event → EventList → ℕ → EventList → Type 0
Kept e s n s' =
    (held s' ≡ held s ++ inputs e ∷ [])
    × ((p : Event) → s'.previous_recording_event ≡ some p → p.event_count ≤ suc n)

abbrev pub Keeps : Event → EventList → ℕ → Call EventList → Type 0
Keeps e s n (returns s') = Kept e s n s'
Keeps e s n _ = Unit {0}

pub held_parts :
    (s : EventList) (cs : List Event)
    → counting s ≡ cs
    → held s ≡ expand_all s.events ++ expand_all cs
held_parts s cs h =
    expand_all-append s.events (counting s) ∙ ap (λ l. expand_all s.events ++ expand_all l) h

pub expand_one : (e : Event) → expand_all (e ∷ []) ≡ expand e
unfolding expand_all
expand_one e = append-nil (expand e)

pub expand-single : (e : Event) → e.event_count ≡ 1 → expand e ≡ inputs e ∷ []
expand-single e one =
    ap (λ n. replicate n (single e)) {y = 1} one
    ∙ ap
        (λ n.
          (n ∷ e.type ∷ e.flag ∷ e.rank ∷ e.with_next ∷ e.index ∷ e.msg_id ∷ e.matching_group_id
            ∷ [])
          ∷ [])
        (sym one)

module _ (e : Event) (s : EventList) (n : ℕ) (one : e.event_count ≡ 1)
    (opened : s.is_push_closed ≡ false) where
  first_keeps :
      s.previous_recording_event ≡ none
      → Kept e s n (record s { previous_recording_event = some e })
  first_keeps none_yet = (
    held_parts (record s { previous_recording_event = some e }) (e ∷ []) (ground arith)
        ∙ ap (λ l. expand_all s.events ++ l) (expand_one e ∙ expand-single e one)
        ∙ ap (λ l. l ++ inputs e ∷ []) (sym (held_parts s [] (ground arith) ∙ nothing)),
    λ p h. ground arith,
  )
    where
      nothing : expand_all s.events ++ expand_all [] ≡ expand_all s.events
      nothing = unfold expand_all in append-nil (expand_all s.events)

  count_keeps :
      (prev : Event)
      → s.previous_recording_event ≡ some prev
      → single prev ≡ single e
      → prev.event_count ≤ n
      → n + 1 < 2 ^ 31
      → Kept e s n (record s { previous_recording_event = some (bump prev) })
  count_keeps prev was same le small = (
    held_parts (record s { previous_recording_event = some (bump prev) }) (bump prev ∷ [])
          (ground arith)
        ∙ ap (λ l. expand_all s.events ++ l)
            (expand_one (bump prev)
              ∙ expand-bump prev (omega arith)
              ∙ ap (λ l. expand prev ++ l) (ap (λ x. x ∷ []) same ∙ sym own))
        ∙ sym (append_assoc (expand_all s.events) (expand prev) (inputs e ∷ []))
        ∙ ap (λ l. l ++ inputs e ∷ [])
            (sym (
              held_parts s (prev ∷ []) (ground arith)
              ∙ ap (λ l. expand_all s.events ++ l) (expand_one prev))),
    λ p h. unfold bump in ground arith,
  )
    where
      own : inputs e ∷ [] ≡ single e ∷ []
      own = sym (expand-single e one) ∙ ap (λ n. replicate n (single e)) {y = 1} one

  queue_keeps :
      (prev : Event)
      → s.previous_recording_event ≡ some prev
      → Kept e s n (record s { events = s.events ++ prev ∷ []; previous_recording_event = some e })
  queue_keeps prev was = (
    held_parts (record s { events = s.events ++ prev ∷ []; previous_recording_event = some e })
          (e ∷ []) (ground arith)
        ∙ ap (λ l. expand_all (s.events ++ prev ∷ []) ++ l) (expand_one e ∙ expand-single e one)
        ∙ ap (λ l. l ++ inputs e ∷ [])
            (expand_all-append s.events (prev ∷ [])
              ∙ sym (held_parts s (prev ∷ []) (ground arith))),
    λ p h. ground arith,
  )

push_after_cases :
    (prev e : Event) (s : EventList)
    → ((single prev ≡ single e)
        × (push_after prev e s
            ≡ returns (record s { previous_recording_event = some (bump prev) })))
      ⊎ ((push_after prev e s ≡ waits)
          ⊎ (push_after prev e s
              ≡ returns
                  (record s { events = s.events ++ prev ∷ []; previous_recording_event = some e })))
unfolding push_after
push_after_cases prev e s =
    elim (Bool-cases (same_event prev e && (prev.matching_group_id == e.matching_group_id))) [
      | inl same ↦ inl (same-single prev e same, rw (same, push_after))
      | inr other ↦ inr (elim (Bool-cases (leb s.max_size (length s.events))) [
        | inl full ↦ inl (rw (other, full, push_after))
        | inr room ↦ inr (rw (other, room, push_after))
      ])
    ]

module _ (e : Event) (s : EventList) where
  push_closed : s.is_push_closed ≡ true → push e s ≡ push_was_closed
  unfolding push
  push_closed shut = rw (shut, push)

  pub push_first :
      s.is_push_closed ≡ false
      → s.previous_recording_event ≡ none
      → push e s ≡ returns (record s { previous_recording_event = some e })
  unfolding push
  push_first opened was = ground arith

  pub push_later :
      (prev : Event)
      → s.is_push_closed ≡ false
      → s.previous_recording_event ≡ some prev
      → push e s ≡ push_after prev e s
  unfolding push
  push_later prev opened was = ground arith

-- A push that returns adds its event to what is held.
pub push-Keeps :
    (e : Event) (s : EventList) (n : ℕ)
    → e.event_count ≡ 1
    → ((p : Event) → s.previous_recording_event ≡ some p → p.event_count ≤ n)
    → n + 1 < 2 ^ 31
    → Keeps e s n (push e s)
push-Keeps e s n one le small = by_state s.is_push_closed s.previous_recording_event refl refl
  where
    by_state :
        (b : Bool) (o : Option Event)
        → s.is_push_closed ≡ b
        → s.previous_recording_event ≡ o
        → Keeps e s n (push e s)
    by_state true o shut was = subst (Keeps e s n) (sym (push_closed e s shut)) tt
    by_state false none opened was =
        subst (Keeps e s n) (sym (push_first e s opened was)) (first_keeps e s n one opened was)
    by_state false (some prev) opened was =
        subst (Keeps e s n) (sym (push_later e s prev opened was))
          (elim (push_after_cases prev e s) [
            | inl (same, done) ↦
                subst (Keeps e s n) (sym done)
                  (count_keeps e s n one opened prev was same (le prev was) small)
            | inr (inl full) ↦ subst (Keeps e s n) (sym full) tt
            | inr (inr done) ↦
                subst (Keeps e s n) (sym done) (queue_keeps e s n one opened prev was)
          ])

pub pop_event_held :
    (s : EventList)
    → ((pop_event s ≡ (none, s)))
      ⊎ ((e : Event) × (es : List Event) × (pop_event s ≡ (some e, record s { events = es }))
          × (s.events ≡ e ∷ es))
unfolding pop_event
pop_event_held s = by_events s.events refl
  where
    by_events :
        (q : List Event)
        → s.events ≡ q
        → (pop_event s ≡ (none, s))
          ⊎ ((e : Event) × (es : List Event) × (pop_event s ≡ (some e, record s { events = es }))
              × (s.events ≡ e ∷ es))
    by_events [] h = inl (ground arith)
    by_events (e ∷ es) h = inr (e, es, ground arith, h)

-- Closing moves the event that is being counted into the queue.
abbrev pub Closes : EventList → Call EventList → Type 0
Closes s (returns s') =
    (s'.events ++ counting s' ≡ s.events ++ counting s)
    × (s'.previous_recording_event ≡ s.previous_recording_event)
Closes s _ = Unit {0}

module _ (s : EventList) where
  push_all_closed : s.is_push_closed ≡ true → push_all s ≡ push_was_closed
  unfolding push_all
  push_all_closed shut = rw (shut, push_all)

  closes_empty :
      s.is_push_closed ≡ false → s.previous_recording_event ≡ none → push_all s ≡ returns (closed s)
  unfolding push_all
  closes_empty opened was = ground arith

  closes_counting :
      (prev : Event)
      → s.is_push_closed ≡ false
      → s.previous_recording_event ≡ some prev
      → (push_all s ≡ waits)
        ⊎ (push_all s ≡ returns (closed (record s { events = s.events ++ prev ∷ [] })))
  unfolding push_all
  closes_counting prev opened was = ground arith

pub push_all-Closes : (s : EventList) → Closes s (push_all s)
push_all-Closes s = by_state s.is_push_closed s.previous_recording_event refl refl
  where
    by_state :
        (b : Bool) (o : Option Event)
        → s.is_push_closed ≡ b
        → s.previous_recording_event ≡ o
        → Closes s (push_all s)
    by_state true o shut was = subst (Closes s) (sym (push_all_closed s shut)) tt
    by_state false none opened was =
        subst (Closes s) (sym (closes_empty s opened was)) (ground arith, refl)
    by_state false (some prev) opened was = elim (closes_counting s prev opened was) [
      | inl full ↦ subst (Closes s) (sym full) tt
      | inr done ↦ subst (Closes s) (sym done) (
        append-nil (s.events ++ prev ∷ []) ∙ ap (λ l. s.events ++ l) {x = prev ∷ []} (ground arith),
        refl,
      )
    ]
