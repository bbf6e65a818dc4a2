-- ===== src/Rempi/EventList/Replaying.antt =====
-- Replaying through the event list (enqueue_replay and dequeue_replay of
-- src/rempi/rempi_event_list.cpp): counted events come out one by one.
use re_omp_llvm.Common.{
  ℕ, suc, ◌-◌, ◌^◌, ◌<◌, ◌≡◌, refl, sym, ap, ◌∙◌, Option, none, some, List, [], ◌∷◌, ◌++◌,
  replicate, update, update_self, ◌==◌, if◌then◌else◌, ◌⊎◌, inl, inr, Bool-cases, ==_iff, ◌≢◌,
  subst, arith,
}
use re_omp_llvm.Rempi.Event.{
  Event, inputs, type_test, type_recv, Popped, whole, part, failed, pop, create_test_event,
}
use re_omp_llvm.Rempi.EventList.{
  EventList, Call, returns, waits, push_was_closed, event_error, Dequeued, empty, finish, dequeued,
  take_one, take_next, dequeue_replay,
}
use re_omp_llvm.Rempi.EventList.Recording.Push.{expand-single}
use re_omp_llvm.Rempi.EventList.Recording.{single, expand, expand_all}

-- A test event that counts at least one, or a receive event that counts one.
abbrev pub Playable : Event → Type 0
Playable e =
    ((e.type ≡ type_test) × (0 < e.event_count) × (e.event_count < 2 ^ 31))
    ⊎ ((e.type ≡ type_recv) × (e.event_count ≡ 1))

abbrev pub Playables : List Event → Type 0
Playables [] = Unit {0}
Playables (e ∷ es) = Playable e × Playables es

-- the events still to be played for a key, one by one
abbrev pub at_hand : Option Event → List (List ℕ)
at_hand none = []
at_hand (some e) = expand e

abbrev pub PlayableAt : Option Event → Type 0
PlayableAt none = Unit {0}
PlayableAt (some e) = Playable e

-- pop yields the first of the events that are counted, and what stays counts the others.
abbrev Takes : Event → Popped → Type 0
Takes e (whole a) = (a ≡ e) × (expand e ≡ inputs e ∷ []) × (a.event_count ≡ 1)
Takes e (part a rest) = (expand e ≡ inputs a ∷ expand rest) × Playable rest × (a.event_count ≡ 1)
Takes e (failed err) = ⊥

abbrev first_of_many : Event → Event
first_of_many e =
    record (create_test_event 1 e.flag e.rank e.with_next e.index e.msg_id e.matching_group_id) {
      clock_order = e.clock_order;
      msg_count = e.msg_count;
    }

abbrev others : Event → Event
others e = record e { event_count = e.event_count - 1 }

module _ (e : Event) where
  pop_whole : Playable e → e.event_count ≡ 1 → pop e ≡ whole e
  unfolding pop
  pop_whole p one = ground arith

  pop_part :
      e.type ≡ type_test
      → 1 < e.event_count
      → e.event_count < 2 ^ 31
      → pop e ≡ part (first_of_many e) (others e)
  unfolding pop
  pop_part test many small = ground arith

  expand_first :
      e.type ≡ type_test
      → 1 < e.event_count
      → expand e ≡ inputs (first_of_many e) ∷ expand (others e)
  expand_first test many =
      ap (λ k. replicate k (single e)) {y = suc (e.event_count - 1)} (omega arith)
      ∙ ap
          (λ t.
            (1 ∷ t ∷ e.flag ∷ e.rank ∷ e.with_next ∷ e.index ∷ e.msg_id ∷ e.matching_group_id ∷ [])
            ∷ expand (others e))
          test

pop-Takes : (e : Event) → Playable e → Takes e (pop e)
pop-Takes e p = elim (Bool-cases (e.event_count == 1)) [
  | inl one ↦
      let h : e.event_count ≡ 1 = (==_iff e.event_count 1).0 one in
      subst (Takes e) (sym (pop_whole e p h)) (refl, expand-single e h, h)
  | inr more ↦ several p (ground arith)
]
  where
    several : Playable e → e.event_count ≢ 1 → Takes e (pop e)
    several (inl (test, pos, small)) ne =
        subst (Takes e) (sym (pop_part e test (omega arith) small))
          (expand_first e test (omega arith), inl (test, omega arith, omega arith), refl)
    several (inr (recv, one)) ne = absurd (ne one)

-- One call of dequeue_replay for a key that has a queue, when the events at hand are `view`.
abbrev pub view : ℕ → EventList → List Event → List (List ℕ)
view id s q = at_hand (s.previous_replaying_event id) ++ expand_all q

pub record Ready (id : ℕ) (s : EventList) (q : List Event) : Type 0 where
  pub key : s.replay_events id ≡ some q
  pub queue : Playables q
  pub current : PlayableAt (s.previous_replaying_event id)

-- What a call gives: the first event of the view, as a single one, or word that there is none.
abbrev pub Gives : ℕ → EventList → List (List ℕ) → Call (Dequeued × EventList) → Type 0
Gives id s (x ∷ xs) (returns (dequeued a, s')) =
    (inputs a ≡ x)
    × (a.event_count ≡ 1)
    × ((q' : List Event) × Ready id s' q'
        × (view id s' q' ≡ xs)
        × (s'.is_push_closed ≡ s.is_push_closed))
Gives id s [] (returns (d, s')) = (d ≡ (if s.is_push_closed then finish else empty)) × (s' ≡ s)
Gives id s _ _ = ⊥

-- the state after an event was taken, with `o` kept for the next call
abbrev keeping : ℕ → Option Event → EventList → EventList
keeping id o s = record s { previous_replaying_event = update s.previous_replaying_event id o }

keeping-Gives :
    (id : ℕ) (a : Event) (o : Option Event) (s : EventList) (q : List Event) (x : List ℕ)
    → inputs a ≡ x
    → a.event_count ≡ 1
    → PlayableAt o
    → Playables q
    → s.replay_events id ≡ some q
    → Gives id s (x ∷ (at_hand o ++ expand_all q)) (returns (dequeued a, keeping id o s))
keeping-Gives id a o s q x same one po ps key = (
  same,
  one,
  (
    q,
    record {
      key = key;
      queue = ps;
      current = subst PlayableAt (sym (update_self s.previous_replaying_event id o)) po;
    },
    ap (λ v. at_hand v ++ expand_all q) (update_self s.previous_replaying_event id o),
    refl,
  ),
)

module _ (id : ℕ) (e : Event) (s : EventList) where
  take_whole :
      (a : Event) → pop e ≡ whole a → take_one id e s ≡ returns (dequeued a, keeping id none s)
  unfolding take_one
  take_whole a h = rw (h, take_one)

  take_part :
      (a rest : Event)
      → pop e ≡ part a rest
      → take_one id e s ≡ returns (dequeued a, keeping id (some rest) s)
  unfolding take_one
  take_part a rest h = rw (h, take_one)

take_one-Gives :
    (id : ℕ) (e : Event) (s : EventList) (q : List Event)
    → Playable e
    → Playables q
    → s.replay_events id ≡ some q
    → (x : List ℕ) × (xs : List (List ℕ)) × (expand e ++ expand_all q ≡ x ∷ xs)
      × Gives id s (x ∷ xs) (take_one id e s)
take_one-Gives id e s q p ps key = by_pop (pop e) refl (pop-Takes e p)
  where
    by_pop :
        (r : Popped)
        → pop e ≡ r
        → Takes e r
        → (x : List ℕ) × (xs : List (List ℕ)) × (expand e ++ expand_all q ≡ x ∷ xs)
          × Gives id s (x ∷ xs) (take_one id e s)
    by_pop (whole a) h (same, ex, one) = (
      inputs e,
      expand_all q,
      ap (λ l. l ++ expand_all q) ex,
      subst (Gives id s (inputs e ∷ expand_all q)) (sym (take_whole id e s a h))
          (keeping-Gives id a none s q (inputs e) (ap inputs same) one tt ps key),
    )
    by_pop (part a rest) h (ex, pr, one) = (
      inputs a,
      expand rest ++ expand_all q,
      ap (λ l. l ++ expand_all q) ex,
      subst (Gives id s (inputs a ∷ (expand rest ++ expand_all q)))
          (sym (take_part id e s a rest h))
          (keeping-Gives id a (some rest) s q (inputs a) refl one pr ps key),
    )
    by_pop (failed err) h t = absurd t

-- Taking an event out of the queue first makes no difference to what is given.
Gives-unqueued :
    (id : ℕ) (s : EventList) (q : List Event) (v x : List (List ℕ))
    (c : Call (Dequeued × EventList))
    → (y : List ℕ) → v ≡ y ∷ x
    → Gives id (record s { replay_events = update s.replay_events id (some q) }) (y ∷ x) c
    → Gives id s v c
Gives-unqueued id s q v x c y e g = rw e (same c g)
  where
    same :
        (c : Call (Dequeued × EventList))
        → Gives id (record s { replay_events = update s.replay_events id (some q) }) (y ∷ x) c
        → Gives id s (y ∷ x) c
    same (returns (dequeued a, s')) g = g
    same (returns (empty, s')) g = absurd g
    same (returns (finish, s')) g = absurd g
    same waits g = absurd g
    same push_was_closed g = absurd g
    same (event_error err) g = absurd g

module _ (id : ℕ) (s : EventList) where
  dequeue_current :
      (q : List Event) (e : Event)
      → s.replay_events id ≡ some q
      → s.previous_replaying_event id ≡ some e
      → dequeue_replay id s ≡ take_one id e s
  unfolding dequeue_replay
  dequeue_current q e key h = rw (key, h, dequeue_replay)

  dequeue_next :
      (q : List Event)
      → s.replay_events id ≡ some q
      → s.previous_replaying_event id ≡ none
      → dequeue_replay id s ≡ take_next id q s
  unfolding dequeue_replay
  dequeue_next q key h = rw (key, h, dequeue_replay)

-- For a key with a queue of receive events that count one and test events that count at least one and
-- fewer than 2 ^ 31: dequeue_replay gives the events of the key one by one, in order, each counting
-- one, and keeps the rest ready; and when there is none it changes nothing and says that the replay is
-- finished if the list is closed, and that the queue is empty if it is not.
pub dequeue_replay-Gives :
    (id : ℕ) (s : EventList) (q : List Event)
    → Ready id s q
    → Gives id s (view id s q) (dequeue_replay id s)
dequeue_replay-Gives id s q ready = by_state (s.previous_replaying_event id) refl q ready
  where
    by_state :
        (o : Option Event)
        → s.previous_replaying_event id ≡ o
        → (q : List Event) → Ready id s q
        → Gives id s (view id s q) (dequeue_replay id s)
    by_state (some e) h q ready =
        let (x, xs, split, g) =
          take_one-Gives id e s q (subst PlayableAt h ready.current) ready.queue ready.key in
        subst (Gives id s (view id s q)) (sym (dequeue_current id s q e ready.key h)) (
          subst (λ v. Gives id s v (take_one id e s))
            (sym (ap (λ o. at_hand o ++ expand_all q) h ∙ split)) g)
    by_state none h [] ready =
        subst (Gives id s (view id s [])) (sym (dequeue_next id s [] ready.key h)) (
          subst (λ v. Gives id s v (take_next id [] s))
            (sym (ap (λ o. at_hand o ++ expand_all []) h))
            (unfold take_next expand_all in (refl, refl)))
    by_state none h (e ∷ q') ready =
        let s2 : EventList = record s { replay_events = update s.replay_events id (some q') } in
        let (x, xs, split, g) =
          take_one-Gives id e s2 q' ready.queue.0 ready.queue.1
            (update_self s.replay_events id (some q')) in
        subst (Gives id s (view id s (e ∷ q'))) (sym (dequeue_next id s (e ∷ q') ready.key h)) (
          Gives-unqueued id s q' (view id s (e ∷ q')) xs (take_next id (e ∷ q') s) x
            (ap (λ o. at_hand o ++ expand_all (e ∷ q')) h ∙ unfold expand_all in split)
            (unfold take_next in g))
