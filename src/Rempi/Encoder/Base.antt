-- ===== src/Rempi/Encoder/Base.antt =====
-- The base class of the encoders, src/rempi/rempi_encoder.cpp, with gzip off: the pool of matched events, and
-- a record file that is a row of events with neither a type nor a size.
use re_omp_llvm.Common.{
  ℕ, zero, suc, ◌^◌, ◌≡◌, refl, ap, ◌⊎◌, inl, inr, Bool-cases, Bool, true, false, ◌&&◌, ◌||◌,
  Option, none, some, List, [], ◌∷◌, ◌++◌, map, ◌==◌, if◌then◌else◌, length,
}
use re_omp_llvm.Rempi.Compression.Prediction.{Fits}
use re_omp_llvm.Rempi.Event.{Event, inputs, create_test_event}
use re_omp_llvm.Rempi.EventList.{EventList, Call, enqueue_replay}
use re_omp_llvm.Rempi.Encoder.{bytes_int, ints_bytes, encode}
use re_omp_llvm.Rempi.Encoder.RoundTrip.{int_back}

-- the same source and clock, which are the entries for the rank and for the message
unfoldable pub same_message : (pooled replaying : Event) → Bool
same_message a b = (a.rank == b.rank) && (a.msg_id == b.msg_id)

-- is_event_pooled
unfoldable pub is_event_pooled : Event → (pool : List Event) → Bool
unfolding same_message
is_event_pooled e [] = false
is_event_pooled e (p ∷ ps) = same_message p e || is_event_pooled e ps

-- pop_event_pool: the first such event, and the pool without it
unfoldable pub pop_event_pool : Event → (pool : List Event) → Option Event × List Event
unfolding same_message
pop_event_pool e [] = (none, [])
pop_event_pool e (p ∷ ps) =
    let (found, rest) = pop_event_pool e ps in
    if same_message p e then (some p, ps) else (found, p ∷ rest)

-- write_record_file after encode, which copies the eight entries of each event
unfoldable pub append_events : (file : List ℕ) → List Event → List ℕ
unfolding encode
append_events file es = file ++ encode es

-- read_record_file: the first seven of eight entries become the arguments of create_test_event
unfoldable pub read_event : (file : List ℕ) → Option (Event × List ℕ)
read_event
      (a0 ∷ a1 ∷ a2 ∷ a3 ∷ b0 ∷ b1 ∷ b2 ∷ b3 ∷ c0 ∷ c1 ∷ c2 ∷ c3 ∷ d0 ∷ d1 ∷ d2 ∷ d3 ∷ e0 ∷ e1 ∷ e2
        ∷ e3 ∷ f0 ∷ f1 ∷ f2 ∷ f3 ∷ g0 ∷ g1 ∷ g2 ∷ g3 ∷ h0 ∷ h1 ∷ h2 ∷ h3 ∷ rest) =
    some (
      create_test_event (bytes_int a0 a1 a2 a3) (bytes_int b0 b1 b2 b3) (bytes_int c0 c1 c2 c3)
          (bytes_int d0 d1 d2 d3) (bytes_int e0 e1 e2 e3) (bytes_int f0 f1 f2 f3)
          (bytes_int g0 g1 g2 g3),
      rest,
    )
read_event file = none

-- insert_encoder_input_format_chunk, whose two branches do the same
unfoldable pub insert_event : Event → EventList → Call EventList
unfolding enqueue_replay
insert_event e s = enqueue_replay e 0 s

-- the events that are read with this fuel
unfoldable pub read_all : (fuel : ℕ) (file : List ℕ) → List Event
unfolding read_event
read_all zero file = []
read_all (suc n) file = elim (read_event file) [ none ↦ [] | some (e, rest) ↦ e ∷ read_all n rest ]

-- An event with its type read as its flag, and each entry after that as the next one.
abbrev pub shifted : Event → Event
shifted e = create_test_event e.event_count e.type e.flag e.rank e.with_next e.index e.msg_id

abbrev pub AllFit : List Event → Type 0
AllFit [] = Unit
AllFit (e ∷ es) = Fits (2 ^ 32) (inputs e) × AllFit es

-- A file of events whose entries are patterns of ints is read as the events whose flag is the type, whose rank
-- is the flag, and so on up to the matching group, which is the message; the group is lost.
pub read_all-append_events :
    (es : List Event) → AllFit es → read_all (length es) (append_events [] es) ≡ map shifted es
unfolding read_all append_events encode ints_bytes
read_all-append_events [] h = refl
read_all-append_events (e ∷ es) ((c, (t, (f, (r, (w, (i, (m, (g, end)))))))), later) =
    rw
      (
        int_back e.event_count c,
        int_back e.type t,
        int_back e.flag f,
        int_back e.rank r,
        int_back e.with_next w,
        int_back e.index i,
        int_back e.msg_id m,
      )
      (ap (λ l. shifted e ∷ l) (read_all-append_events es later))

-- The pool finds an event just when it gives one; that one has the same source and clock, and its place in
-- the pool is where the rest closes up.
pub pop_event_pool-is_event_pooled :
    (e : Event) (pool : List Event)
    → ((is_event_pooled e pool ≡ false) × (pop_event_pool e pool ≡ (none, pool)))
      ⊎ ((is_event_pooled e pool ≡ true)
          × (before : List Event) × (found : Event) × (after : List Event) × (pop_event_pool e pool
              ≡ (some found, before ++ after))
          × (pool ≡ before ++ found ∷ after)
          × (same_message found e ≡ true)
          × (is_event_pooled e before ≡ false))
unfolding is_event_pooled pop_event_pool
pop_event_pool-is_event_pooled e [] = inl (refl, refl)
pop_event_pool-is_event_pooled e (p ∷ ps) = elim (Bool-cases (same_message p e)) [
  | inl same ↦ inr (rw same refl, [], p, ps, rw same refl, refl, same, refl)
  | inr differs ↦ elim (pop_event_pool-is_event_pooled e ps) [
    | inl (absent, none_found) ↦ inl (rw (differs, absent) refl, rw (differs, none_found) refl)
    | inr (present, before, found, after, popped, split, same, first) ↦ inr (
      rw (differs, present) refl,
      p ∷ before,
      found,
      after,
      rw (differs, popped) refl,
      ap (λ l. p ∷ l) split,
      same,
      rw (differs, first) refl,
    )
  ]
]
