-- ===== src/Gate/Concurrent.antt =====
-- The concurrent clock gate (reomp_ccgate_in and reomp_ccgate_out of src/reomp/reomp_gate_clock.cpp).
-- Accesses of one kind that follow each other get the same ticket, and a replay lets them run
-- together.
pub mod Epochs
pub mod Together
mod Tests
use re_omp_llvm.Common.{
  ℕ, zero, suc, ◌+◌, ◌-◌, ◌/◌, ◌%◌, ◌^◌, Bool, true, false, ◌||◌, not, Option, none, some, update,
  ltb, ◌==◌, if◌then◌else◌,
}
use re_omp_llvm.Gate.Defs.{Mode, recording, replaying, disabled, Result, ok, err, ◌>>=◌, incr32}
use re_omp_llvm.Gate.Clock.{
  Config, Cgate, Wait, reentered, locking, spinning, ticket_wait_begin, filter_reentry_out,
  record_ticket_number,
}

-- The kinds of an access (reomp.h).
abbrev pub type_null : ℕ
type_null = 0

abbrev pub is_load : ℕ → Bool
is_load rw = (rw == 101) || (rw == 110)

abbrev pub is_store : ℕ → Bool
is_store rw = (rw == 102) || (rw == 111)

-- REOMP_CCGATE_PREVIOUSE_SIZE
abbrev pub previous_size : ℕ
previous_size = 1024

-- The gate, and for each lock the kinds of the last accesses, where the clock modulo the size is the
-- index.
pub record Ccgate : Type 0 where
  pub gate : Cgate
  pub previous : ℕ → ℕ → ℕ

abbrev pub store_kind : (index rw lock_id : ℕ) → Ccgate → Ccgate
store_kind index rw lock_id s = record s {
  previous = update s.previous lock_id (update (s.previous lock_id) index rw);
}

-- reomp_ccgate_set_concecutive_load_store
unfoldable pub set_consecutive : (clock rw lock_id : ℕ) → Ccgate → Ccgate
set_consecutive clock rw lock_id s = store_kind (clock % previous_size) rw lock_id s

-- the loop of reomp_ccgate_test_concecutive_load_store, where `n` rounds are left
unfoldable pub count_same : (n i clock rw : ℕ) → (ℕ → ℕ) → ℕ
count_same zero i clock rw kinds = 0
count_same (suc n) i clock rw kinds =
    let rest = count_same n (i + 1) clock rw kinds in
    if kinds ((clock + previous_size - i) % previous_size) == rw then suc rest else 0

unfoldable pub test_consecutive : (clock rw lock_id : ℕ) → Ccgate → ℕ
unfolding count_same
test_consecutive clock rw lock_id s =
    if is_load rw || is_store rw then count_same 10 1 clock rw (s.previous lock_id) else 0

-- reomp_ccgate_reset_concecutive_load_store
unfoldable pub reset_consecutive : (clock lock_id : ℕ) → Ccgate → Ccgate
reset_consecutive clock lock_id s =
    store_kind ((clock + previous_size / 3) % previous_size) type_null lock_id s

-- what reomp_ccgate_is_next_store returns: -1, 0 and 1
pub data NextStore : Type 0 where
  unknown : NextStore
  no_store : NextStore
  a_store : NextStore

unfoldable pub is_next_store : (clock lock_id : ℕ) → Ccgate → NextStore
is_next_store clock lock_id s =
    let rw : ℕ = s.previous lock_id ((clock + 1) % previous_size) in
    if rw == type_null then unknown else if is_store rw then a_store else no_store

-- `a > b` for the patterns of two `int`s
abbrev pub signed_gt : ℕ → ℕ → Bool
signed_gt a b = ltb ((b + 2 ^ 31) % 2 ^ 32) ((a + 2 ^ 31) % 2 ^ 32)

-- reomp_ccgate_in begins as reomp_cgate_ticket_wait does, but a replay waits only for a clock that is
-- not yet reached. `none`: the thread waits on.
unfoldable pub cc_in_pass : (tid lock_id : ℕ) → Wait → Cgate → Option Cgate
cc_in_pass tid lock_id reentered g = some g
cc_in_pass tid lock_id locking g = elim (g.omp_locks lock_id) [
  | none ↦
      some (record g { omp_locks = update g.omp_locks lock_id (some tid); current_tid = some tid })
  | some _ ↦ none
]
cc_in_pass tid lock_id (spinning clock) g =
    if signed_gt clock (g.current_clocks lock_id)
    then none
    else some (record g { current_tid = some tid })

unfoldable pub ccgate_in : Config → (num_threads tid lock_id : ℕ) → Ccgate → Result (Option Ccgate)
unfolding cc_in_pass ticket_wait_begin
ccgate_in c num_threads tid lock_id s = if num_threads == 1 then ok (some s) else (do
  (w, g) ← ticket_wait_begin c tid s.gate
  elim (cc_in_pass tid lock_id w g) [
    | none ↦ ok none
    | some g' ↦ ok (some (record s { gate = g' }))
  ])

-- the part of reomp_ccgate_out under the lock, in record mode: the clock of the access and how many
-- of the same kind stand before it
unfoldable pub out_locked : (rw lock_id : ℕ) → Ccgate → (ℕ × ℕ) × Ccgate
unfolding set_consecutive test_consecutive
out_locked rw lock_id s =
    let clock : ℕ = s.gate.current_clocks lock_id in
    let ticked : Ccgate = record s {
      gate = record (s.gate) {
        current_clocks = update s.gate.current_clocks lock_id (incr32 clock);
      };
    } in
    let marked : Ccgate = set_consecutive clock rw lock_id ticked in
    ((clock, test_consecutive clock rw lock_id marked), marked)

-- A store keeps its count only if the next access is seen to be a store. The loop that waits for the
-- next access has the condition `!retry` with retry = 100, so that it does not run.
unfoldable pub settle : (rw count : ℕ) → NextStore → ℕ
settle rw count a_store = count
settle rw count _ = if is_store rw then 0 else count

-- the ticket that is recorded
unfoldable pub epoch_of : (clock count : ℕ) → ℕ
epoch_of clock count = (clock + 2 ^ 32 - count) % 2 ^ 32

-- the part after the lock is released
unfoldable pub out_unlocked : Config → (tid rw lock_id clock count : ℕ) → Ccgate → Result Ccgate
unfolding settle is_next_store epoch_of record_ticket_number reset_consecutive
out_unlocked c tid rw lock_id clock count s = do
  let n : ℕ = settle rw count (is_next_store clock lock_id s)
  g ← record_ticket_number c tid (epoch_of clock n) s.gate
  ok (reset_consecutive clock lock_id (record s { gate = g }))

abbrev pub unlock : ℕ → Ccgate → Ccgate
unlock lock_id s = record s {
  gate = record (s.gate) { omp_locks = update s.gate.omp_locks lock_id none };
}

-- the end of reomp_ccgate_out in replay mode
unfoldable pub out_replay : ℕ → Cgate → Cgate
out_replay lock_id g = record g {
  current_clocks = update g.current_clocks lock_id (incr32 (g.current_clocks lock_id));
}

unfoldable pub ccgate_out : Config → (num_threads tid rw lock_id : ℕ) → Ccgate → Result Ccgate
unfolding filter_reentry_out out_locked out_unlocked out_replay
ccgate_out c num_threads tid rw lock_id s =
    if num_threads == 1
    then ok s
    else let (reentry, g) = filter_reentry_out tid s.gate in
      if reentry
      then ok (record s { gate = g })
      else let s1 : Ccgate = record s { gate = record g { current_tid = none } } in
        elim (c.mode) [
          | recording ↦
              let ((clock, count), s2) = out_locked rw lock_id s1 in
              out_unlocked c tid rw lock_id clock count (unlock lock_id s2)
          | _ ↦ ok (record s1 { gate = out_replay lock_id s1.gate })
        ]
