-- ===== src/Lib.antt =====
-- ReMPI/ReOMP records the order in which the threads of an OpenMP program pass its critical places, and
-- the order in which an MPI process receives its messages, and replays a run in the recorded order.
--
-- Gate is src/reomp. Gate/File models the record files of the threads (reomp_fd_t, reomp_get_fd,
-- reomp_fwrite, reomp_fread of src/reomp/reomp_gate_clock.cpp), Gate/Clock the clock gate
-- (reomp_cgate_in, reomp_cgate_out and what they call). Gate/Clock/Machine runs any number of threads
-- through the gate under a schedule, Gate/Clock/Record and Gate/Clock/Replay hold the invariants of a
-- run in record and in replay mode, and Gate/Clock/Order joins the two.
--
-- Gate/Concurrent models the concurrent gate (reomp_ccgate_in, reomp_ccgate_out and what they call), the
-- default. Gate/Concurrent/Epochs follows the tickets of one lock in record mode, from memory that holds
-- anything, with the resets of old entries at any time; Gate/Concurrent/Together replays them.
--
-- Gate/Tid models the thread-id gate of src/reomp/reomp_gate_tid.cpp, and Gate/Tid/Replay its replay. A round
-- of its loop, in which a thread tests the id and tries the mutex, is one step.
--
-- Gate/Speculative models the speculative gate. Gate/Speculative/Record has the invariant of its record mode,
-- Replay puts its replay beside that of the clock gate, and RoundTrip joins the two.
--
-- Gate/Settings models src/reomp/reomp_config.cpp, and Gate/Control the entry points of src/reomp/reomp.cpp over
-- the gates, which are a record of operations that Gate/Control/Filled fills for the clock gate.
--
-- Gate/Reduction models the gates around a reduction; its Writing and Reading follow the file of the
-- thread through the parts of a reduction, and RoundTrip joins them.
--
-- Rempi is src/rempi. Rempi/Compression models src/rempi/rempi_compression_util.cpp but for its calls of
-- zlib, Rempi/Event src/rempi/rempi_event.cpp, and Rempi/EventList src/rempi/rempi_event_list.cpp.
-- Rempi/SpscQueue models src/rempi/rempi_spsc_queue.h on a heap of nodes. Rempi/SpscQueue/Interleaving lets its
-- producer and its consumer take their steps in any order, and Rempi/SpscQueue/Fifo has the invariant.
-- Rempi/Cdc models the search for an edit path in src/rempi/rempi_clock_delta_compression.cpp: Chains follows
-- the nodes, Matching the columns, Script the edits, Compress joins them, and Distance is about the distances.
-- Rempi/Clock models src/rempi/rempi_clock.cpp, and Rempi/Messages src/rempi/rempi_message_manager.cpp.
-- Rempi/Requests models src/rempi/rempi_request_mg.cpp: Table the maps, Communicators the numbers of communicators
-- and messages (src/rempi/rempi_mpi_init.cpp), Registration the table entries, Sets and Assignment the matching
-- sets, Kinds what a matching function learns of its requests, Merging the table that goes from a record to a
-- replay, and Identifiers the rest. A variable that the source reads and never sets is given as unknown (-1).
-- Rempi/Recorder models the matching functions of src/rempi/rempi_recorder.cpp over these tables and the event
-- list: record_mf, and in its child modules Input (replay_mf_input), NextEvents (get_next_events, whose fuel
-- counts the calls of dequeue_replay), Replay (replay_mf), Probe (replay_pf, with the same fuel) and Posts
-- (record_isend, record_irecv, replay_isend, replay_irecv and the cancellations). What MPI gives a call is an
-- argument.
-- Rempi/Footer models write_footer and read_footer of src/rempi/rempi_encoder_cdc.cpp; its fuel is the length of
-- the file, of which each size takes eight bytes.
-- Rempi/Encoder models src/rempi/rempi_encoder_basic.cpp with gzip off, down to the bytes of the record
-- file, and the loop of src/rempi/rempi_io_thread.cpp that reads it; its fuel counts records.
-- Rempi/Encoder/Base models the pool and the file of src/rempi/rempi_encoder.cpp; its fuel counts events.
-- Rempi/Encoder/Writing models the loop that writes it, step by step, while the recorder goes on, with events
-- whose rank does not change once they are pushed. Its Invariant says where the events are, Complete
-- what is in the file at the end, Prompt and Progress what follows once the thread sees that the list is closed.
--
-- An `int` is its pattern below 2 ^ 32 and a `size_t` a number below 2 ^ 64, with the wrap-around written
-- out. A call of MUTIL_ERR or REMPI_ERR ends the process, and is an error value. A wait is a value too:
-- the thread takes its step again later. Schedules are arbitrary lists of thread numbers, so they need no
-- fuel; a loop with no fuel named here is structural recursion.
--
-- Not modelled: timers and debug output; MPI, OpenMP and zlib, which are libraries; the MPI wrappers,
-- which pass arguments on; the recorders for clocks; the encoders for clocks but for their edit scripts
-- and the footer; the compiler pass; the reclamation of memory.
pub mod Common
pub mod Gate
pub mod Rempi
