-- ===== src/Gate/Reduction/Writing.antt =====
-- What the parts of a reduction do to the file of the thread in record mode.
use re_omp_llvm.Common.{
  ℕ, suc, ◌+◌, ◌*◌, ◌/◌, ◌%◌, ◌^◌, ◌<◌, ◌≡◌, refl, sym, ap, ap₂, ◌∙◌, Option, none, some, List, [],
  ◌∷◌, ◌++◌, length, length-append, take, drop, update, update_self, subst, arith,
}
use re_omp_llvm.Gate.Defs.{recording, ok, add64, sub64, incr32}
use re_omp_llvm.Gate.File.{Stream, ReompFd, put_words, get_fd, fwrite, fseek_end, size_words}
use re_omp_llvm.Gate.File.Transfer.{Logs, written, fwrite_end}
use re_omp_llvm.Gate.Clock.{
  Config, Cgate, write_words, ticket_wait, leave, ticket_wait_begin, ticket_wait_pass, leave_begin,
  leave_end, record_ticket_number, leave_release, filter_reentry_in, filter_reentry_out,
  ticket_read,
}
use re_omp_llvm.Gate.Reduction.{
  record_reduction_method_init, record_reduction_method, fill_method, mark_reduction,
  lock_reduction, null_method,
}

take_prefix : (xs ys : List ℕ) → take (length xs) (xs ++ ys) ≡ xs
take_prefix [] ys = refl
take_prefix (x ∷ xs) ys = ap (λ l. x ∷ l) (take_prefix xs ys)

drop_prefix : (xs ys : List ℕ) (n : ℕ) → drop (length xs + n) (xs ++ ys) ≡ drop n ys
drop_prefix [] ys n = ap (λ k. drop k ys) (omega arith)
drop_prefix (x ∷ xs) ys n =
    ap (λ k. drop k (x ∷ (xs ++ ys))) {y = suc (length xs + n)} (omega arith) ∙ drop_prefix xs ys n

-- A write over two words in the middle of a file.
put_words_mid :
    (ws more : List ℕ) (a b x y : ℕ)
    → put_words (record { words = ws ++ a ∷ b ∷ more; pos = length ws }) (x ∷ y ∷ [])
      ≡ record { words = ws ++ x ∷ y ∷ more; pos = length ws + 2 }
unfolding put_words
put_words_mid ws more a b x y =
    rw (take_prefix ws (a ∷ b ∷ more), drop_prefix ws (a ∷ b ∷ more) 2) refl

-- The words that a reduction has written since it began, when the number of their bytes is known.
abbrev pub Pending : ℕ → ReompFd → Type 0
Pending back f =
    (sub64 f.total_write_bytes f.write_bytes_at_reduction ≡ back)
    × (f.write_bytes_at_reduction < 2 ^ 64)

-- the table entry at the end of a reduction
abbrev pub filled : ReompFd → List ℕ → ReompFd
filled f ws = record {
  fd = some (record { words = ws; pos = length ws });
  total_write_bytes = add64 f.total_write_bytes 8;
  write_bytes_at_reduction = 0;
}

seek_back :
    (ws more : List ℕ) (a b : ℕ)
    → fseek_end
        (record { words = ws ++ a ∷ b ∷ more; pos = length (ws ++ a ∷ b ∷ more) })
        (4 * (2 + length more))
      ≡ record { words = ws ++ a ∷ b ∷ more; pos = length ws }
unfolding fseek_end
seek_back ws more a b = ground (arith, length-append ws (a ∷ b ∷ more))

seek_end :
    (ws more : List ℕ) (a b : ℕ)
    → fseek_end (record { words = ws ++ a ∷ b ∷ more; pos = length ws + 2 }) 0
      ≡ record { words = ws ++ a ∷ b ∷ more; pos = length (ws ++ a ∷ b ∷ more) }
unfolding fseek_end
seek_end ws more a b = ground arith

-- The method is written where the room for it was left, and the next write is at the end again.
pub fill_method_at :
    (disk : Option (List ℕ)) (f : ReompFd) (ws more : List ℕ) (a b m : ℕ)
    → f.fd ≡ some (record { words = ws ++ a ∷ b ∷ more; pos = length (ws ++ a ∷ b ∷ more) })
    → sub64 f.total_write_bytes f.write_bytes_at_reduction ≡ 4 * (2 + length more)
    → fill_method recording disk f m ≡ ok (filled f (ws ++ (size_words m ++ more)))
unfolding fill_method get_fd fwrite size_words
fill_method_at disk f ws more a b m h back =
    rw
      (
        h,
        back,
        seek_back ws more a b,
        put_words_mid ws more a b (m % 2 ^ 32) (m / 2 ^ 32 % 2 ^ 32),
        seek_end ws more (m % 2 ^ 32) (m / 2 ^ 32 % 2 ^ 32),
      )
      refl

same_stream :
    (s : Stream) (ws : List ℕ)
    → s.words ≡ ws
    → s.pos ≡ length ws
    → s ≡ record { words = ws; pos = length ws }
same_stream s ws h p = ap₂ stream_of h p
  where
    stream_of : List ℕ → ℕ → Stream
    stream_of w n = record { words = w; pos = n }

-- The state of a thread between two operations of a run in record mode: what its file holds, how deep
-- it is in gates, who has the lock of the reductions, and the clock of that lock.
pub record At (tid : ℕ) (g : Cgate) (ws : List ℕ) (nest : ℕ) (lock : Option ℕ) (clock : ℕ)
    : Type 0 where
  pub logs : Logs (g.fds tid).fd ws
  pub bytes : (g.fds tid).total_write_bytes < 2 ^ 64
  pub nested : g.nest_num tid ≡ nest
  pub locked : g.omp_locks lock_reduction ≡ lock
  pub clocked : g.current_clocks lock_reduction ≡ clock

module _ (c : Config) (mode : c.mode ≡ recording) (tid : ℕ) (g : Cgate) (ws : List ℕ) (k : ℕ) where
  pub wait_At :
      At tid g ws 0 none k
      → (g' : Cgate) × (ticket_wait c tid lock_reduction g ≡ ok (some g'))
        × At tid g' ws 1 (some tid) k
        × (g'.fds ≡ g.fds)
  unfolding ticket_wait ticket_wait_begin ticket_wait_pass filter_reentry_in ticket_read
  wait_At h = (
    record g {
      nest_num = update g.nest_num tid 1;
      omp_locks = update g.omp_locks lock_reduction (some tid);
      current_tid = some tid;
    },
    rw (h.nested, mode, h.locked) refl,
    record {
      logs = h.logs;
      bytes = h.bytes;
      nested = ground arith;
      locked = ground arith;
      clocked = h.clocked;
    },
    refl,
  )

  pub leave-At :
      At tid g ws 1 (some tid) k
      → Pending 8 (g.fds tid)
      → (g' : Cgate) × (leave c tid lock_reduction g ≡ ok g')
        × At tid g' (ws ++ k ∷ []) 0 none (incr32 k)
        × Pending 12 (g'.fds tid)
  unfolding leave leave_begin leave_end record_ticket_number write_words leave_release
      filter_reentry_out
  leave-At h p =
      let f : ReompFd = written (g.fds tid) ws (k ∷ []) in
      (
        record g {
          nest_num = update g.nest_num tid 0;
          omp_locks = update g.omp_locks lock_reduction none;
          current_clocks = update g.current_clocks lock_reduction (incr32 k);
          current_tid = none;
          fds = update g.fds tid f;
        },
        rw (h.nested, mode, h.clocked, fwrite_end (c.disk tid) (g.fds tid) ws (k ∷ []) h.logs) refl,
        record {
          logs =
              subst (λ e. Logs e.fd (ws ++ k ∷ [])) (sym (update_self g.fds tid f))
                (refl, omega (arith, length-append ws (k ∷ [])));
          bytes = ground arith;
          nested = ground arith;
          locked = ground arith;
          clocked = ground arith;
        },
        subst (Pending 12) (sym (update_self g.fds tid f)) (omega (arith, p.0, p.1, h.bytes), p.1),
      )

  init_eq :
      (g.fds tid).write_bytes_at_reduction ≡ 0
      → record_reduction_method_init c tid g
        ≡ write_words c tid
            (size_words null_method)
            (record g { fds = update g.fds tid (mark_reduction (g.fds tid)) })
  unfolding record_reduction_method_init
  init_eq zero_at = ground arith

  write_words_eq :
      (f0 : ReompFd)
      → Logs f0.fd ws
      → write_words c tid (size_words null_method) (record g { fds = update g.fds tid f0 })
        ≡ ok (record g {
          fds = update (update g.fds tid f0) tid (written f0 ws (size_words null_method));
        })
  unfolding write_words
  write_words_eq f0 l =
      rw (update_self g.fds tid f0, mode, fwrite_end (c.disk tid) f0 ws (size_words null_method) l)
        refl

  pub init_At :
      At tid g ws 0 none k
      → (g.fds tid).write_bytes_at_reduction ≡ 0
      → (g' : Cgate) × (record_reduction_method_init c tid g ≡ ok g')
        × At tid g' (ws ++ size_words null_method) 0 none k
        × Pending 8 (g'.fds tid)
  unfolding size_words
  init_At h zero_at =
      let f0 : ReompFd = mark_reduction (g.fds tid) in
      let f : ReompFd = written f0 ws (size_words null_method) in
      let same = update_self (update g.fds tid f0) tid f in
      (
        record g { fds = update (update g.fds tid f0) tid f },
        init_eq zero_at ∙ write_words_eq f0 h.logs,
        record {
          logs =
              subst (λ e. Logs e.fd (ws ++ size_words null_method)) (sym same)
                (refl, omega (arith, length-append ws (size_words null_method)));
          bytes = subst (λ e. e.total_write_bytes < 2 ^ 64) (sym same) (omega arith);
          nested = h.nested;
          locked = h.locked;
          clocked = h.clocked;
        },
        subst (Pending 8) (sym same) (omega (arith, h.bytes), h.bytes),
      )

  pub fill_At :
      (more : List ℕ) (a b m : ℕ)
      → At tid g (ws ++ a ∷ b ∷ more) 0 none k
      → Pending (4 * (2 + length more)) (g.fds tid)
      → (g' : Cgate) × (record_reduction_method c tid m g ≡ ok g')
        × At tid g' (ws ++ (size_words m ++ more)) 0 none k
        × ((g'.fds tid).write_bytes_at_reduction ≡ 0)
  unfolding record_reduction_method
  fill_At more a b m h p = by_fd (g.fds tid).fd refl h.logs
    where
      f : ReompFd
      f = filled (g.fds tid) (ws ++ (size_words m ++ more))

      by_fd :
          (o : Option Stream)
          → (g.fds tid).fd ≡ o
          → Logs o (ws ++ a ∷ b ∷ more)
          → (g' : Cgate) × (record_reduction_method c tid m g ≡ ok g')
            × At tid g' (ws ++ (size_words m ++ more)) 0 none k
            × ((g'.fds tid).write_bytes_at_reduction ≡ 0)
      by_fd none e l = absurd (omega (arith, length-append ws (a ∷ b ∷ more), ap length l))
      by_fd (some s) e l = (
        record g { fds = update g.fds tid f },
        rw
            (
              mode,
              fill_method_at (c.disk tid) (g.fds tid) ws more a b m
                  (e ∙ ap some (same_stream s (ws ++ a ∷ b ∷ more) l.0 l.1)) p.0,
            )
            refl,
        record {
          logs =
              subst (λ e. Logs e.fd (ws ++ (size_words m ++ more))) (sym (update_self g.fds tid f))
                (refl, refl);
          bytes = ground arith;
          nested = h.nested;
          locked = h.locked;
          clocked = h.clocked;
        },
        ap (λ e. e.write_bytes_at_reduction) (update_self g.fds tid f),
      )
