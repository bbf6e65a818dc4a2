-- ===== src/Rempi/Encoder/RoundTrip.antt =====
-- The I/O thread of a replay puts into the list what the I/O thread of the record run wrote.
use re_omp_llvm.Common.{
  ℕ, zero, suc, ◌+◌, ◌*◌, ◌/◌, ◌%◌, ◌^◌, ◌≤◌, ◌<◌, ◌≡◌, refl, sym, ap, ap₂, ◌∙◌, true, some, List,
  [], ◌∷◌, ◌++◌, append_assoc, append-nil, map, length, length-append, take, drop, leb, ◌==◌,
  if◌then◌else◌, ◌⊎◌, inl, inr, update, arith,
}
use re_omp_llvm.Rempi.Event.{
  Event, inputs, type_recv, type_test, create_recv_event, create_test_event,
}
use re_omp_llvm.Rempi.EventList.{EventList, event_list, returns, enqueue_replay, queue_at}
use re_omp_llvm.Rempi.Compression.Prediction.{Fits}
use re_omp_llvm.Rempi.Encoder.{
  int_bytes, size_bytes, bytes_int, ints_bytes, bytes_ints, encode, write_record_file, read,
  decode_event, decode_ints, read_record_file, insert_chunk, close_push, read_record_lite,
  write_chunks,
}

-- A receive or a test event whose fields are patterns of ints.
abbrev pub Recordable : Event → Type 0
Recordable e = ((e.type ≡ type_recv) ⊎ (e.type ≡ type_test)) × Fits (2 ^ 32) (inputs e)

abbrev pub AllRecordable : List Event → Type 0
AllRecordable [] = Unit {0}
AllRecordable (e ∷ es) = Recordable e × AllRecordable es

-- What comes back of an event: of a receive event only the rank.
abbrev pub decoded : Event → Event
decoded e =
    if e.type == type_recv
    then create_recv_event e.rank 0
    else create_test_event e.event_count e.flag e.rank e.with_next e.index e.msg_id
        e.matching_group_id

pub int_back :
    (n : ℕ)
    → n < 2 ^ 32
    → bytes_int (n % 256) (n / 256 % 256) (n / 65536 % 256) (n / 16777216 % 256) ≡ n
int_back n h = omega arith

pub size_back :
    (n : ℕ)
    → n < 2 ^ 64
    → bytes_int (n % 256) (n / 256 % 256) (n / 65536 % 256) (n / 16777216 % 256)
        + bytes_int
            (n / 2 ^ 32 % 256)
            (n / 2 ^ 32 / 256 % 256)
            (n / 2 ^ 32 / 65536 % 256)
            (n / 2 ^ 32 / 16777216 % 256)
          * 2 ^ 32
      ≡ n
size_back n h = omega arith

ints_back : (ns : List ℕ) → Fits (2 ^ 32) ns → bytes_ints (ints_bytes ns) ≡ ns
unfolding bytes_ints ints_bytes
ints_back [] f = refl
ints_back (n ∷ ns) f = ap₂ (λ x xs. x ∷ xs) (int_back n f.0) (ints_back ns f.1)

all_inputs : List Event → List ℕ
all_inputs [] = []
all_inputs (e ∷ es) = inputs e ++ all_inputs es

ints_bytes-append : (xs ys : List ℕ) → ints_bytes (xs ++ ys) ≡ ints_bytes xs ++ ints_bytes ys
unfolding ints_bytes
ints_bytes-append [] ys = refl
ints_bytes-append (x ∷ xs) ys = ap (λ l. int_bytes x ++ l) (ints_bytes-append xs ys)

encode_ints : (es : List Event) → encode es ≡ ints_bytes (all_inputs es)
unfolding encode all_inputs ints_bytes
encode_ints [] = refl
encode_ints (e ∷ es) =
    ap (λ l. ints_bytes (inputs e) ++ l) (encode_ints es)
    ∙ sym (ints_bytes-append (inputs e) (all_inputs es))

all_inputs-Fits : (es : List Event) → AllRecordable es → Fits (2 ^ 32) (all_inputs es)
unfolding all_inputs
all_inputs-Fits [] h = _
all_inputs-Fits (e ∷ es) h =
    let f = h.0.1 in
    (
      f.0,
      (
        f.1.0,
        (
          f.1.1.0,
          (
            f.1.1.1.0,
            (
              f.1.1.1.1.0,
              (f.1.1.1.1.1.0, (f.1.1.1.1.1.1.0, (f.1.1.1.1.1.1.1.0, all_inputs-Fits es h.1))),
            ),
          ),
        ),
      ),
    )

event_back :
    (e : Event)
    → Recordable e
    → decode_event e.event_count e.type e.flag e.rank e.with_next e.index e.msg_id
        e.matching_group_id
      ≡ some (decoded e)
unfolding decode_event
event_back e h = elim (h.0) [ inl r ↦ ground arith | inr t ↦ ground arith ]

decode_back :
    (es : List Event) → AllRecordable es → decode_ints (all_inputs es) ≡ read (map decoded es)
unfolding decode_ints all_inputs
decode_back [] h = refl
decode_back (e ∷ es) h = rw (event_back e h.0, decode_back es h.1) refl

take_prefix : (xs ys : List ℕ) → take (length xs) (xs ++ ys) ≡ xs
take_prefix [] ys = refl
take_prefix (x ∷ xs) ys = ap (λ l. x ∷ l) (take_prefix xs ys)

pub drop_prefix : (xs ys : List ℕ) → drop (length xs) (xs ++ ys) ≡ ys
drop_prefix [] ys = refl
drop_prefix (x ∷ xs) ys = drop_prefix xs ys

encode_back :
    (es : List Event)
    → AllRecordable es
    → decode_ints (bytes_ints (encode es)) ≡ read (map decoded es)
encode_back es h =
    ap (λ l. decode_ints (bytes_ints l)) (encode_ints es)
    ∙ ap decode_ints (ints_back (all_inputs es) (all_inputs-Fits es h))
    ∙ decode_back es h

-- One record at the front of a file.
record_back :
    (es : List Event) (rest : List ℕ)
    → AllRecordable es
    → length (encode es) < 2 ^ 64
    → read_record_file (size_bytes (length (encode es)) ++ (encode es ++ rest))
      ≡ read (map decoded es, rest)
unfolding read_record_file
record_back es rest h small =
    rw
      (
        size_back (length (encode es)) small,
        fits,
        take_prefix (encode es) rest,
        encode_back es h,
        size_back (length (encode es)) small,
        drop_prefix (encode es) rest,
      )
      refl
  where
    fits : leb (length (encode es)) (length (encode es ++ rest)) ≡ true
    fits = ground (arith, length-append (encode es) rest)

-- The records of a number of chunks.
records : List (List Event) → List ℕ
records [] = []
records (es ∷ chunks) = (size_bytes (length (encode es)) ++ encode es) ++ records chunks

write_chunks-records :
    (file : List ℕ) (chunks : List (List Event)) → write_chunks file chunks ≡ file ++ records chunks
unfolding write_chunks records write_record_file
write_chunks-records file [] = sym (append-nil file)
write_chunks-records file (es ∷ chunks) =
    write_chunks-records (file ++ (size_bytes (length (encode es)) ++ encode es)) chunks
    ∙ append_assoc file (size_bytes (length (encode es)) ++ encode es) (records chunks)

-- Each chunk is of recordable events and of a length that a size_t can hold.
abbrev pub Chunks : List (List Event) → Type 0
Chunks [] = Unit {0}
Chunks (es ∷ chunks) = AllRecordable es × (length (encode es) < 2 ^ 64) × Chunks chunks

abbrev pub all_decoded : List (List Event) → List Event
all_decoded [] = []
all_decoded (es ∷ chunks) = map decoded es ++ all_decoded chunks

enqueue_eq :
    (e : Event) (s : EventList)
    → length (queue_at 0 s) < s.max_size
    → enqueue_replay e 0 s
      ≡ returns
          (record s { replay_events = update s.replay_events 0 (some (queue_at 0 s ++ e ∷ [])) })
unfolding enqueue_replay
enqueue_eq e s room = ground arith

insert_cons :
    (e : Event) (es : List Event) (s s1 : EventList)
    → enqueue_replay e 0 s ≡ returns s1
    → insert_chunk (e ∷ es) s ≡ insert_chunk es s1
unfolding insert_chunk
insert_cons e es s s1 h = rw (h, insert_chunk) refl

read_cons :
    (fuel : ℕ) (file rest : List ℕ) (es : List Event) (s s1 : EventList)
    → read_record_file file ≡ read (es, rest)
    → insert_chunk es s ≡ returns s1
    → read_record_lite (suc fuel) file s ≡ read_record_lite fuel rest s1
unfolding read_record_lite
read_cons fuel file rest es s s1 h1 h2 = rw (h1, h2, read_record_lite) refl

insert-Inserted :
    (es : List Event) (s : EventList)
    → length (queue_at 0 s) + length es ≤ s.max_size
    → (s' : EventList) × (insert_chunk es s ≡ returns s')
      × (queue_at 0 s' ≡ queue_at 0 s ++ es)
      × (s'.max_size ≡ s.max_size)
unfolding insert_chunk
insert-Inserted [] s room = (s, refl, sym (append-nil (queue_at 0 s)), refl)
insert-Inserted (e ∷ es) s room =
    let s1 : EventList = record s {
      replay_events = update s.replay_events 0 (some (queue_at 0 s ++ e ∷ []));
    } in
    let at1 : queue_at 0 s1 ≡ queue_at 0 s ++ e ∷ [] = unfold queue_at in refl in
    let (s2, e2, at2, m2) =
      insert-Inserted es s1 (omega (arith, ap length at1, length-append (queue_at 0 s) (e ∷ []))) in
    (
      s2,
      insert_cons e es s s1 (enqueue_eq e s (omega arith)) ∙ e2,
      at2 ∙ ap (λ l. l ++ es) at1 ∙ append_assoc (queue_at 0 s) (e ∷ []) es,
      m2,
    )

read_records :
    (chunks : List (List Event)) (fuel : ℕ) (s : EventList)
    → Chunks chunks
    → length chunks < fuel
    → length (queue_at 0 s) + length (all_decoded chunks) ≤ s.max_size
    → (s' : EventList) × (read_record_lite fuel (records chunks) s ≡ read (returns s'))
      × (queue_at 0 s' ≡ queue_at 0 s ++ all_decoded chunks)
      × (s'.is_push_closed ≡ true)
unfolding read_record_lite records read_record_file queue_at
read_records chunks zero s h more room = absurd (omega arith)
read_records [] (suc fuel) s h more room =
    (close_push s, refl, sym (append-nil (queue_at 0 s)), refl)
read_records (es ∷ chunks) (suc fuel) s h more room =
    let (s1, e1, at1, m1) =
      insert-Inserted (map decoded es) s
        (omega (arith, room, length-append (map decoded es) (all_decoded chunks))) in
    let (s2, e2, at2, closed2) = read_records chunks fuel s1 h.2 (omega arith) (
      omega (
        arith,
        ap length at1,
        length-append (queue_at 0 s) (map decoded es),
        length-append (map decoded es) (all_decoded chunks),
      )) in
    let front =
      ap read_record_file
        (append_assoc (size_bytes (length (encode es))) (encode es) (records chunks))
      ∙ record_back es (records chunks) h.0 h.1 in
    (
      s2,
      read_cons fuel (records (es ∷ chunks)) (records chunks) (map decoded es) s s1 front e1 ∙ e2,
      at2
          ∙ ap (λ l. l ++ all_decoded chunks) at1
          ∙ append_assoc (queue_at 0 s) (map decoded es) (all_decoded chunks),
      closed2,
    )

-- The I/O thread of a record run writes chunks of receive and test events to an empty file, and each
-- chunk is shorter than 2 ^ 64 bytes. If the event list of the replay has room for all of them, then
-- reading the file, with fuel for more records than there are chunks, ends with all events in the
-- queue that is replayed, in order, and with the list closed. A receive event comes back with its rank
-- alone.
pub record_replayed :
    (max_size fuel : ℕ) (chunks : List (List Event))
    → Chunks chunks
    → length chunks < fuel
    → length (all_decoded chunks) ≤ max_size
    → (s : EventList) × (read_record_lite fuel (write_chunks [] chunks) (event_list max_size)
        ≡ read (returns s))
      × (queue_at 0 s ≡ all_decoded chunks)
      × (s.is_push_closed ≡ true)
unfolding event_list queue_at
record_replayed max_size fuel chunks h more room =
    let (s, e, q, closed) =
      read_records chunks fuel (event_list max_size) h more (omega (arith, room)) in
    (
      s,
      ap (λ f. read_record_lite fuel f (event_list max_size)) (write_chunks-records [] chunks) ∙ e,
      q,
      closed,
    )
