-- ===== src/Gate/Reduction.antt =====
-- Reductions at the clock gate (reomp_cgate_in_bef_reduce_begin, reomp_cgate_in_aft_reduce_begin and
-- reomp_cgate_out_reduce_end of src/reomp/reomp_gate_clock.cpp). A thread leaves room in its file,
-- and fills in the method that the OpenMP runtime chose once it is known.
pub mod Writing
pub mod Reading
pub mod RoundTrip
mod Tests
use re_omp_llvm.Common.{
  ℕ, ◌+◌, ◌%◌, ◌^◌, Option, none, some, List, [], ◌∷◌, update, ◌==◌, if◌then◌else◌,
}
use re_omp_llvm.Gate.Defs.{
  Mode, recording, replaying, disabled, Error, Result, ok, err, ◌>>=◌, sub64,
}
use re_omp_llvm.Gate.File.{Stream, ReompFd, get_fd, fwrite, fseek_end, size_words, size_value}
use re_omp_llvm.Gate.Clock.{Config, Cgate, write_words, read_words, ticket_wait, leave}

-- REOMP_REDUCE_LOCK_MASTER, REOMP_REDUCE_LOCK_WORKER, REOMP_REDUCE_ATOMIC and REOMP_REDUCE_NULL, and
-- REOMP_RR_LOCK_REDUCTION
abbrev pub lock_worker : ℕ
lock_worker = 0

abbrev pub lock_master : ℕ
lock_master = 1

abbrev pub atomic : ℕ
atomic = 2

abbrev pub null_method : ℕ
null_method = 3

abbrev pub lock_reduction : ℕ
lock_reduction = 1

-- reomp_cgate_read_reduction_method
unfoldable pub read_reduction_method : Config → ℕ → Cgate → Result (ℕ × Cgate)
unfolding read_words
read_reduction_method c tid g = do (ws, g') ← read_words c tid 2 g; ok (size_value ws, g')

-- the table entry in which the place of the method is remembered
abbrev pub mark_reduction : ReompFd → ReompFd
mark_reduction f = record f { write_bytes_at_reduction = f.total_write_bytes }

-- reomp_cgate_record_reduction_method_init
unfoldable pub record_reduction_method_init : Config → ℕ → Cgate → Result Cgate
unfolding write_words
record_reduction_method_init c tid g =
    if (g.fds tid).write_bytes_at_reduction == 0
    then write_words c tid (size_words null_method)
        (record g { fds = update g.fds tid (mark_reduction (g.fds tid)) })
    else err Error.reduction_pending

-- back to the end of the file, with no reduction pending
abbrev pub end_reduction : ReompFd → ReompFd
end_reduction f = record f {
  fd = elim f.fd [ none ↦ none | some s ↦ some (fseek_end s 0) ];
  write_bytes_at_reduction = 0;
}

-- reomp_cgate_record_reduction_method, on the table entry
unfoldable pub fill_method : Mode → Option (List ℕ) → ReompFd → ℕ → Result ReompFd
unfolding get_fd fwrite fseek_end
fill_method mode disk f reduction_method = do
  s ← get_fd mode disk f
  let back : ℕ = sub64 f.total_write_bytes f.write_bytes_at_reduction
  f' ← fwrite mode disk (record f { fd = some (fseek_end s back) }) (size_words reduction_method)
  ok (end_reduction f')

unfoldable pub record_reduction_method : Config → ℕ → ℕ → Cgate → Result Cgate
unfolding fill_method
record_reduction_method c tid reduction_method g = do
  f ← fill_method c.mode (c.disk tid) (g.fds tid) reduction_method
  ok (record g { fds = update g.fds tid f })

-- What a method asks for; an unknown one ends the process.
abbrev pub by_method {ℓ} : {A : Type ℓ} → ℕ → (master worker atomic : Result A) → Result A
by_method m a b c =
    if m == lock_master
    then a
    else if m == lock_worker
    then b
    else if m == atomic
    then c
    else err Error.no_such_method

-- reomp_cgate_in_bef_reduce_begin. `none`: the thread waits.
unfoldable pub in_bef_reduce_begin : Config → ℕ → Cgate → Result (Option Cgate)
unfolding record_reduction_method_init read_reduction_method ticket_wait
in_bef_reduce_begin c tid g = elim (c.mode) [
  | recording ↦ do g' ← record_reduction_method_init c tid g; ok (some g')
  | replaying ↦ do
    (m, g') ← read_reduction_method c tid g
    if m == lock_master then ticket_wait c tid lock_reduction g' else ok (some g')
  | disabled ↦ err Error.no_such_mode
]

-- reomp_cgate_in_aft_reduce_begin
unfoldable pub in_aft_reduce_begin :
    Config → (tid reduction_method : ℕ) → Cgate → Result (Option Cgate)
unfolding record_reduction_method ticket_wait
in_aft_reduce_begin c tid m g = elim (c.mode) [
  | recording ↦
      by_method m (ticket_wait c tid lock_reduction g)
        (record_reduction_method c tid m g >>= λ g'. ok (some g'))
        (ticket_wait c tid lock_reduction g)
  | replaying ↦ by_method m (ok (some g)) (ok (some g)) (ticket_wait c tid lock_reduction g)
  | disabled ↦ err Error.no_such_mode
]

-- reomp_cgate_out_reduce_end, which reomp_cgate_out_aft_reduce_end calls
unfoldable pub out_reduce_end : Config → (tid reduction_method : ℕ) → Cgate → Result Cgate
unfolding record_reduction_method leave
out_reduce_end c tid m g = elim (c.mode) [
  | recording ↦
      by_method m (leave c tid lock_reduction g >>= λ g'. record_reduction_method c tid m g') (ok g)
        (leave c tid lock_reduction g >>= λ g'. record_reduction_method c tid m g')
  | replaying ↦ by_method m (leave c tid lock_reduction g) (ok g) (leave c tid lock_reduction g)
  | disabled ↦ err Error.no_such_mode
]

-- the rest of an operation, if the thread need not wait
abbrev pub unless_waiting :
    Result (Option Cgate) → (Cgate → Result (Option Cgate)) → Result (Option Cgate)
unless_waiting (ok (some g)) f = f g
unless_waiting (ok none) f = ok none
unless_waiting (err e) f = err e

-- A reduction of one thread with the method that the runtime chooses. A worker does not reach the end
-- of a reduction, where it would do nothing.
unfoldable pub reduction : Config → (tid reduction_method : ℕ) → Cgate → Result (Option Cgate)
unfolding in_bef_reduce_begin in_aft_reduce_begin out_reduce_end
reduction c tid m g = unless_waiting (in_bef_reduce_begin c tid g) (λ g1.
    unless_waiting (in_aft_reduce_begin c tid m g1)
      (λ g2. out_reduce_end c tid m g2 >>= λ g3. ok (some g3)))

-- one reduction after the other
unfoldable pub reductions : Config → ℕ → List ℕ → Cgate → Result (Option Cgate)
unfolding reduction
reductions c tid [] g = ok (some g)
reductions c tid (m ∷ ms) g = unless_waiting (reduction c tid m g) (λ g'. reductions c tid ms g')
