-- ===== src/Gate/Reduction/Reading.antt =====
-- What the parts of a reduction do to the file of the thread in replay mode.
use re_omp_llvm.Common.{
  ℕ, zero, suc, ◌+◌, ◌-◌, ◌≡◌, refl, sym, ap, ◌∙◌, Option, none, some, List, [], ◌∷◌, length, drop,
  update, update_self, subst, arith,
}
use re_omp_llvm.Gate.Defs.{replaying, ok, incr32}
use re_omp_llvm.Gate.File.{ReompFd, size_value}
use re_omp_llvm.Gate.File.Transfer.{Reads, read_to, fread_next}
use re_omp_llvm.Gate.Clock.{
  Config, Cgate, read_words, ticket_wait, leave, ticket_wait_begin, ticket_wait_pass, leave_begin,
  leave_end, get_clock_replay, leave_release, filter_reentry_in, filter_reentry_out, ticket_read,
}
use re_omp_llvm.Gate.Reduction.{read_reduction_method, lock_reduction}

-- The state of a thread between two operations of a run in replay mode: the words of its file that
-- are still to be read, how deep it is in gates, and the clock of the reductions.
pub record At (disk : Option (List ℕ)) (tid : ℕ) (g : Cgate) (ws : List ℕ) (p nest clock : ℕ)
    : Type 0 where
  pub reads : Reads disk (g.fds tid).fd ws p
  pub nested : g.nest_num tid ≡ nest
  pub clocked : g.current_clocks lock_reduction ≡ clock

drop_nil : (n : ℕ) → drop {A = ℕ} n [] ≡ []
drop_nil zero = refl
drop_nil (suc n) = refl

pub drop-add : (ws : List ℕ) (p n : ℕ) → drop (p + n) ws ≡ drop n (drop p ws)
drop-add ws zero n = ap (λ k. drop k ws) (omega arith)
drop-add [] (suc p) n = drop_nil (suc p + n) ∙ sym (drop_nil n)
drop-add (w ∷ ws) (suc p) n =
    ap (λ k. drop k (w ∷ ws)) {y = suc (p + n)} (omega arith) ∙ drop-add ws p n

pub length-drop : (ws : List ℕ) (p : ℕ) → length (drop p ws) ≡ length ws - p
length-drop ws zero = omega arith
length-drop [] (suc p) = omega arith
length-drop (w ∷ ws) (suc p) = omega (arith, length-drop ws p)

module _ (c : Config) (mode : c.mode ≡ replaying) (tid : ℕ) (g : Cgate) (ws : List ℕ)
    (p k : ℕ) where
  pub read_At :
      (lo hi : ℕ) (rest : List ℕ)
      → drop p ws ≡ lo ∷ hi ∷ rest
      → At (c.disk tid) tid g ws p 0 k
      → (g' : Cgate) × (read_reduction_method c tid g ≡ ok (size_value (lo ∷ hi ∷ []), g'))
        × At (c.disk tid) tid g' ws (p + 2) 0 k
  unfolding read_reduction_method read_words
  read_At lo hi rest e h =
      let f : ReompFd = read_to (g.fds tid) ws (p + 2) in
      (
        record g { fds = update g.fds tid f },
        rw
            (
              mode,
              fread_next (c.disk tid) (g.fds tid) ws p 2 h.reads
                  (omega (arith, length-drop ws p, ap length e)),
              e,
            )
            refl,
        record {
          reads =
              subst (λ x. Reads (c.disk tid) x.fd ws (p + 2)) (sym (update_self g.fds tid f))
                (refl, refl);
          nested = h.nested;
          clocked = h.clocked;
        },
      )

  pub wait_At :
      (rest : List ℕ)
      → drop p ws ≡ k ∷ rest
      → At (c.disk tid) tid g ws p 0 k
      → (g' : Cgate) × (ticket_wait c tid lock_reduction g ≡ ok (some g'))
        × At (c.disk tid) tid g' ws (p + 1) 1 k
  unfolding ticket_wait ticket_wait_begin ticket_wait_pass filter_reentry_in ticket_read
      get_clock_replay read_words
  wait_At rest e h =
      let f : ReompFd = read_to (g.fds tid) ws (p + 1) in
      (
        record g {
          nest_num = update g.nest_num tid 1;
          fds = update g.fds tid f;
          current_tid = some tid;
        },
        rw
            (
              h.nested,
              mode,
              fread_next (c.disk tid) (g.fds tid) ws p 1 h.reads
                  (omega (arith, length-drop ws p, ap length e)),
              e,
              h.clocked,
            )
            (ground arith),
        record {
          reads =
              subst (λ x. Reads (c.disk tid) x.fd ws (p + 1)) (sym (update_self g.fds tid f))
                (refl, refl);
          nested = ground arith;
          clocked = h.clocked;
        },
      )

  pub leave-At :
      At (c.disk tid) tid g ws p 1 k
      → (g' : Cgate) × (leave c tid lock_reduction g ≡ ok g')
        × At (c.disk tid) tid g' ws p 0 (incr32 k)
  unfolding leave leave_begin leave_end leave_release filter_reentry_out
  leave-At h = (
    record g {
      nest_num = update g.nest_num tid 0;
      current_clocks = update g.current_clocks lock_reduction (incr32 k);
      current_tid = none;
    },
    rw (h.nested, mode, h.clocked) refl,
    record { reads = h.reads; nested = ground arith; clocked = ground arith },
  )
