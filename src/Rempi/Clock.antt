-- ===== src/Rempi/Clock.antt =====
-- The logical clock of src/rempi/rempi_clock.cpp: a send ticks it, and a receive moves it past the
-- clock of the message. It is a `size_t`, so it wraps around at 2 ^ 64.
pub mod Order
mod Tests
use re_omp_llvm.Common.{
  ℕ, ◌+◌, ◌%◌, ◌^◌, Bool, true, false, Option, none, some, List, [], ◌∷◌, get_elem?, ltb, ◌==◌,
  if◌then◌else◌,
}

-- REMPI_RECV_REQUEST
abbrev pub recv_request : ℕ
recv_request = 152

abbrev pub add_one : ℕ → ℕ
add_one c = (c + 1) % 2 ^ 64

-- rempi_clock_sync_clock for one message
unfoldable pub sync_clock : (clock request_type local_clock : ℕ) → ℕ
sync_clock clock request_type local_clock =
    if request_type == recv_request
    then add_one (if ltb local_clock clock then clock else local_clock)
    else local_clock

-- array_of_indices[i], or i where the array is NULL
abbrev pub index_of : Option (List ℕ) → ℕ → Option ℕ
index_of none i = some i
index_of (some indices) i = get_elem? indices i

-- request_info[matched_request_index]; `none` is a read out of bounds
abbrev pub info_at : List ℕ → Option ℕ → Option ℕ
info_at infos none = none
info_at infos (some i) = get_elem? infos i

module _ (indices : Option (List ℕ)) (infos : List ℕ) where
  -- the loop of rempi_clock_sync_clock from index `i` on; `none` is a read out of bounds
  unfoldable pub sync_from : (i : ℕ) (clocks : List ℕ) (local_clock : ℕ) → Option ℕ
  unfolding sync_clock
  sync_from i [] local_clock = some local_clock
  sync_from i (clock ∷ clocks) local_clock = elim (info_at infos (index_of indices i)) [
    | none ↦ none
    | some request_type ↦ sync_from (i + 1) clocks (sync_clock clock request_type local_clock)
  ]

  -- rempi_clock_sync_clock of `outcount` messages, whose clocks are the list
  unfoldable pub sync_clocks : (is_rep : Bool) (clocks : List ℕ) (local_clock : ℕ) → Option ℕ
  unfolding sync_from
  sync_clocks true [] local_clock = some (add_one local_clock)
  sync_clocks true (clock ∷ clocks) local_clock = sync_from 0 (clock ∷ clocks) local_clock
  sync_clocks false clocks local_clock = sync_from 0 clocks local_clock

-- rempi_clock_mpi_isend
unfoldable pub clock_isend : ℕ → ℕ
clock_isend local_clock = add_one local_clock
