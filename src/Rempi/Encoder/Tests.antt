-- ===== src/Rempi/Encoder/Tests.antt =====
-- Two chunks of events written and read back, and the theorem about them at those.
use re_omp_llvm.Common.{ℕ, ◌≡◌, refl, true, List, [], ◌∷◌, length, inl, inr, arith}
use re_omp_llvm.Rempi.Event.{Event, create_test_event, create_recv_event}
use re_omp_llvm.Rempi.EventList.{EventList, event_list, returns, queue_at}
use re_omp_llvm.Rempi.Encoder.{
  encode, ints_bytes, write_record_file, read_record_lite, write_chunks, read,
}
use re_omp_llvm.Rempi.Encoder.RoundTrip.{all_decoded, record_replayed}
use re_omp_llvm.Rempi.Encoder.Base.{append_events, read_all, read_all-append_events}

abbrev chunks : List (List Event)
chunks =
    (create_test_event 3 1 2 0 0 700 4 ∷ create_recv_event 5 9 ∷ [])
    ∷ (create_test_event 1 0 0 0 0 0 4 ∷ [])
    ∷ []

test_file : List (List Event) → ℕ
unfolding write_chunks write_record_file encode ints_bytes
test_file cs = length (write_chunks [] cs)

file_length : test_file chunks ≡ 112
unfolding test_file
file_length = refl

record_replayed_example :
    (s : EventList) × (read_record_lite 3 (write_chunks [] chunks) (event_list 10)
      ≡ read (returns s))
    × (queue_at 0 s ≡ all_decoded chunks)
    × (s.is_push_closed ≡ true)
unfolding encode ints_bytes
record_replayed_example =
    record_replayed 10 3 chunks
      (
        (
          (
            inr refl,
            (
              omega arith,
              (
                omega arith,
                (
                  omega arith,
                  (omega arith, (omega arith, (omega arith, (omega arith, (omega arith, _))))),
                ),
              ),
            ),
          ),
          (
            (
              inl refl,
              (
                omega arith,
                (
                  omega arith,
                  (
                    omega arith,
                    (omega arith, (omega arith, (omega arith, (omega arith, (omega arith, _))))),
                  ),
                ),
              ),
            ),
            _,
          ),
        ),
        omega arith,
        (
          (
            (
              inr refl,
              (
                omega arith,
                (
                  omega arith,
                  (
                    omega arith,
                    (omega arith, (omega arith, (omega arith, (omega arith, (omega arith, _))))),
                  ),
                ),
              ),
            ),
            _,
          ),
          omega arith,
          _,
        ),
      )
      (omega arith) (omega arith)

-- One event through the base class: a test event (type 2) that matched (flag 1) rank 5.
abbrev one_event : List Event
one_event = create_test_event 1 1 5 0 2 0 9 ∷ []

read_all-append_events_example :
    read_all 1 (append_events [] one_event) ≡ create_test_event 1 2 1 5 0 2 0 ∷ []
read_all-append_events_example = read_all-append_events one_event (
  (
    omega arith,
    (
      omega arith,
      (omega arith, (omega arith, (omega arith, (omega arith, (omega arith, (omega arith, tt)))))),
    ),
  ),
  tt,
)
