-- ===== src/Rempi/Encoder/Writing/Tests.antt =====
-- A short record run of the I/O thread, and the theorem about it at that.
use re_omp_llvm.Common.{ℕ, zero, suc, ◌≡◌, refl, true, ◌++◌, List, [], ◌∷◌}
use re_omp_llvm.Rempi.Event.{Event, create_test_event, bump, same_event}
use re_omp_llvm.Rempi.EventList.{event_list, push, push_after, push_all, pop_event, front}
use re_omp_llvm.Rempi.EventList.Recording.{op}
use re_omp_llvm.Rempi.Encoder.Writing.{
  filling, over, Writer, writer, Turn, pushes, closes, shows_close, io_turn, turns, turn, io_step,
  take_front, write,
}

abbrev no_match : Event
no_match = create_test_event 1 0 0 0 0 0 4

abbrev a_match : Event
a_match = create_test_event 1 1 2 0 0 7 4

abbrev io_turns : ℕ → List Turn → List Turn
io_turns zero ts = ts
io_turns (suc n) ts = io_turn ∷ io_turns n ts

-- The list is closed between the test of its length and the end of a round, and marked closed in the next
-- round.
abbrev to_the_close : List Turn
to_the_close =
    pushes no_match
    ∷ pushes no_match
    ∷ pushes a_match
    ∷ io_turns 4 (closes ∷ io_turn ∷ shows_close ∷ [])

abbrev after_the_close : List Turn
after_the_close = io_turns 9 []

abbrev schedule : List Turn
schedule = to_the_close ++ after_the_close

-- A schedule runs where the steps compute.
test_turns : ℕ → ℕ → List Turn → Writer → Writer
unfolding turns turn io_step take_front write writer op event_list push push_after push_all
    pop_event front same_event bump
test_turns = turns

one_chunk : (turns 99 10 schedule (writer 5)).chunks ≡ (bump no_match ∷ a_match ∷ []) ∷ []
unfolding test_turns
one_chunk = refl

to_the_close_filling :
    let v = turns 99 10 to_the_close (writer 5) in (v.is_closed ≡ true) × (v.stage ≡ filling)
unfolding test_turns
to_the_close_filling = (refl, refl)

-- The I/O thread takes both events before it sees that the list is closed, and ends its round after that.
abbrev late : List Turn
late = pushes no_match ∷ pushes a_match ∷ closes ∷ io_turns 6 (shows_close ∷ io_turns 1 [])

late_drops :
    let w = turns 99 10 late (writer 5) in
    (w.stage ≡ over) × (w.chunks ≡ []) × (w.input ≡ no_match ∷ a_match ∷ [])
unfolding test_turns
late_drops = (refl, refl, refl)
