-- ===== src/Rempi/Encoder.antt =====
-- The basic encoder without gzip (src/rempi/rempi_encoder_basic.cpp), and the loop of the I/O thread
-- that reads a record (read_record_lite of src/rempi/rempi_io_thread.cpp). A file is a list of bytes.
pub mod Base
pub mod RoundTrip
pub mod Writing
mod Tests
use re_omp_llvm.Common.{
  ℕ, zero, suc, ◌+◌, ◌-◌, ◌*◌, ◌/◌, ◌%◌, ◌^◌, ◌&&◌, Bool, true, false, Option, none, some, List, [],
  ◌∷◌, ◌++◌, length, take, drop, ltb, leb, ◌==◌, if◌then◌else◌, ◌||◌, not,
}
use re_omp_llvm.Rempi.Event.{
  Event, inputs, type_recv, type_test, create_recv_event, create_test_event,
}
use re_omp_llvm.Rempi.EventList.{
  EventList, Call, returns, waits, push_was_closed, event_error, enqueue_replay,
}

-- An `int` and a `size_t` in memory, the low byte first.
abbrev pub int_bytes : ℕ → List ℕ
int_bytes n = n % 256 ∷ n / 256 % 256 ∷ n / 65536 % 256 ∷ n / 16777216 % 256 ∷ []

abbrev pub size_bytes : ℕ → List ℕ
size_bytes n = int_bytes n ++ int_bytes (n / 2 ^ 32)

abbrev pub bytes_int : (a b c d : ℕ) → ℕ
bytes_int a b c d = a + b * 256 + c * 65536 + d * 16777216

unfoldable pub ints_bytes : List ℕ → List ℕ
ints_bytes [] = []
ints_bytes (n ∷ ns) = int_bytes n ++ ints_bytes ns

-- as many whole `int`s as there are
unfoldable pub bytes_ints : List ℕ → List ℕ
bytes_ints (a ∷ b ∷ c ∷ d ∷ rest) = bytes_int a b c d ∷ bytes_ints rest
bytes_ints _ = []

-- encode: the events of the chunk, one after the other
unfoldable pub encode : List Event → List ℕ
unfolding ints_bytes
encode [] = []
encode (e ∷ es) = ints_bytes (inputs e) ++ encode es

-- write_record_file appends to the file.
unfoldable pub write_record_file : List ℕ → List ℕ → List ℕ
write_record_file file whole_data = file ++ (size_bytes (length whole_data) ++ whole_data)

-- What reading a record comes to.
pub data Reading (A : Type 0) : Type 0 where
  read : A → Reading A
  no_more : Reading A
  no_such_event : Reading A
  short_record : Reading A

-- The events that read_record_file makes of the `int`s of a record.
unfoldable pub decode_event : (count type flag rank with_next index msg_id group : ℕ) → Option Event
decode_event count type flag rank with_next index msg_id group =
    if type == type_recv
    then some (create_recv_event rank 0)
    else if type == type_test
    then some (create_test_event count flag rank with_next index msg_id group)
    else none

abbrev pub and_then : Option Event → Reading (List Event) → Reading (List Event)
and_then none r = no_such_event
and_then (some e) (read es) = read (e ∷ es)
and_then (some e) r = r

unfoldable pub decode_ints : List ℕ → Reading (List Event)
unfolding decode_event
decode_ints [] = read []
decode_ints (c ∷ t ∷ f ∷ r ∷ w ∷ i ∷ m ∷ g ∷ rest) =
    and_then (decode_event c t f r w i m g) (decode_ints rest)
decode_ints _ = short_record

-- read_record_file: the events of the next record and what is left of the file. A file that ends
-- within a record is none that the encoder writes.
unfoldable pub read_record_file : List ℕ → Reading (List Event × List ℕ)
unfolding bytes_ints decode_ints
read_record_file [] = no_more
read_record_file (a ∷ b ∷ c ∷ d ∷ e ∷ f ∷ g ∷ h ∷ rest) =
    let record_size : ℕ = bytes_int a b c d + bytes_int e f g h * 2 ^ 32 in
    if leb record_size (length rest)
    then elim (decode_ints (bytes_ints (take record_size rest))) [
      | read es ↦ read (es, drop record_size rest)
      | no_more ↦ no_more
      | no_such_event ↦ no_such_event
      | short_record ↦ short_record
    ]
    else short_record
read_record_file _ = short_record

-- insert_encoder_input_format_chunk
unfoldable pub insert_chunk : List Event → EventList → Call EventList
unfolding enqueue_replay
insert_chunk [] s = returns s
insert_chunk (e ∷ es) s = elim (enqueue_replay e 0 s) [
  | returns s' ↦ insert_chunk es s'
  | waits ↦ waits
  | push_was_closed ↦ push_was_closed
  | event_error x ↦ event_error x
]

-- close_push
abbrev pub close_push : EventList → EventList
close_push s = record s { is_push_closed = true }

-- read_record_lite, where `fuel` bounds the number of records
unfoldable pub read_record_lite : (fuel : ℕ) → List ℕ → EventList → Reading (Call EventList)
unfolding read_record_file insert_chunk
read_record_lite zero file s = short_record
read_record_lite (suc fuel) file s = elim (read_record_file file) [
  | no_more ↦ read (returns (close_push s))
  | no_such_event ↦ no_such_event
  | short_record ↦ short_record
  | read (es, rest) ↦ elim (insert_chunk es s) [
    | returns s' ↦ read_record_lite fuel rest s'
    | waits ↦ read waits
    | push_was_closed ↦ read push_was_closed
    | event_error x ↦ read (event_error x)
  ]
]

-- the file that the record run leaves after a number of chunks
unfoldable pub write_chunks : List ℕ → List (List Event) → List ℕ
unfolding write_record_file encode
write_chunks file [] = file
write_chunks file (es ∷ chunks) = write_chunks (write_record_file file (encode es)) chunks
