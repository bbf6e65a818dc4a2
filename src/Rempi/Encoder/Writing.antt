-- ===== src/Rempi/Encoder/Writing.antt =====
-- The I/O thread of a record run: write_record of src/rempi/rempi_io_thread.cpp with
-- extract_encoder_input_format_chunk of src/rempi/rempi_encoder_basic.cpp, and the recorder that pushes
-- events and closes the list between any two of its steps. An event keeps the rank with which it was pushed:
-- record_mf, which may set the rank of a receive later, is not among the turns.
mod Pushes
mod Chunks
pub mod Invariant
mod Prompt
mod Leaving
pub mod Complete
pub mod Progress
mod Tests
use re_omp_llvm.Common.{
  ℕ, Bool, true, false, ◌&&◌, ◌||◌, not, Option, none, some, List, [], ◌∷◌, ◌++◌, length, ltb, ◌==◌,
  if◌then◌else◌,
}
use re_omp_llvm.Rempi.Event.{Event, type_recv}
use re_omp_llvm.Rempi.EventList.{EventList, size, front}
use re_omp_llvm.Rempi.EventList.Recording.{Run, op, push_op, pop_op, close_op, fresh}
use re_omp_llvm.Rempi.Encoder.{encode, write_record_file}

-- Where the I/O thread stands: in the first or the second loop of extract_encoder_input_format_chunk,
-- at their front or with an event that it has popped, at the test between them, at the end of a round of
-- write_record, or behind its loop.
pub data Stage : Type 0 where
  filling deciding draining ending over : Stage
  filling_with draining_with : Event → Stage

-- `input` is the input format, and `chunks` holds the chunks that were written, the oldest first. `run` is
-- the list with the calls of the recorder as they return; push_all puts the last event into the queue before
-- close_push stores is_push_closed, and `is_closed` is what the I/O thread reads of that.
pub record Writer : Type 0 where
  pub run : Run
  pub is_closed : Bool
  pub input : List Event
  pub file : List ℕ
  pub chunks : List (List Event)
  pub stage : Stage

unfoldable pub writer : (max_size : ℕ) → Writer
writer max_size = record {
  run = fresh max_size;
  is_closed = false;
  input = [];
  file = [];
  chunks = [];
  stage = filling;
}

-- the front of the list is popped
abbrev pub take_front : Stage → Writer → Writer
unfolding op
take_front t w = record w { run = op pop_op w.run; stage = t }

-- the event goes to the input format
abbrev pub add : Event → Stage → Writer → Writer
add e t w = record w { input = w.input ++ e ∷ []; stage = t }

-- encode, write_record_file, and a new input format
abbrev pub write : Writer → Writer
unfolding encode write_record_file
write w = record w {
  input = [];
  file = write_record_file w.file (encode w.input);
  chunks = w.chunks ++ w.input ∷ [];
  stage = ending;
}

-- A turn is one of the recorder or one of the I/O thread: `closes` is push_all up to close_push, and
-- `shows_close` is close_push.
pub data Turn : Type 0 where
  pushes : Event → Turn
  closes shows_close : Turn
  io_turn : Turn

-- MPI_ANY_SOURCE, and rempi_max_event_length
module _ (any_source max_event_length : ℕ) where
  -- a receive of which the rank is not known
  abbrev pub rank_unknown : Event → Bool
  rank_unknown e = (e.type == type_recv) && (e.rank == any_source)

  abbrev pub fill : Option Event → Writer → Writer
  fill none w = record w { stage = deciding }
  fill (some e) w = take_front (filling_with e) w

  abbrev pub drain : Option Event → Writer → Writer
  drain none w = write w
  drain (some e) w = take_front (draining_with e) w

  -- the loops that wait for the rank of the popped event: only the first looks whether the list is closed
  abbrev pub wait_filling : Event → Writer → Writer
  wait_filling e w = if rank_unknown e && not w.is_closed then w else add e filling w

  abbrev pub wait_draining : Event → Writer → Writer
  wait_draining e w = if rank_unknown e then w else add e draining w

  abbrev pub decide : Writer → Writer
  decide w =
      if length w.input == 0
      then record w { stage = ending }
      else if ltb max_event_length (length w.input) || w.is_closed
      then record w { stage = draining }
      else record w { stage = ending }

  abbrev pub end : Writer → Writer
  end w =
      if w.is_closed && (size w.run.list == 0)
      then record w { stage = over }
      else record w { stage = filling }

  -- one step of the I/O thread
  unfoldable pub io_step : Stage → Writer → Writer
  unfolding front
  io_step filling w = fill (front w.run.list) w
  io_step deciding w = decide w
  io_step draining w = drain (front w.run.list) w
  io_step (filling_with e) w = wait_filling e w
  io_step (draining_with e) w = wait_draining e w
  io_step ending w = end w
  io_step over w = w

  unfoldable pub turn : Turn → Writer → Writer
  unfolding io_step op
  turn (pushes e) w = record w { run = op (push_op e) w.run }
  turn closes w = record w { run = op close_op w.run }
  turn shows_close w = record w { is_closed = w.run.list.is_push_closed }
  turn io_turn w = io_step w.stage w

  unfoldable pub turns : List Turn → Writer → Writer
  unfolding turn
  turns [] w = w
  turns (t ∷ ts) w = turns ts (turn t w)
