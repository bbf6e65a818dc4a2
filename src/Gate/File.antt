-- ===== src/Gate/File.antt =====
-- The per-thread record files of src/reomp/reomp_gate_clock.cpp: reomp_fd_t, reomp_get_fd,
-- reomp_fwrite and reomp_fread. A file is the list of its 32-bit words; an `int` is one word and a
-- `size_t` two, the low one first.
pub mod Transfer
use re_omp_llvm.Common.{
  ℕ, suc, ◌+◌, ◌-◌, ◌*◌, ◌/◌, ◌%◌, ◌^◌, ◌≤◌, ◌<◌, ◌≡◌, refl, Option, none, some, List, [], ◌∷◌,
  ◌++◌, length, take, drop, leb, if◌then◌else◌, arith,
}
use re_omp_llvm.Gate.Defs.{
  Mode, recording, replaying, disabled, Error, Result, ok, err, ◌>>=◌, add64,
}

-- An open stream: what the file holds, and the position of the next transfer.
pub record Stream : Type 0 where
  pub words : List ℕ
  pub pos : ℕ

-- reomp_fd_t
pub record ReompFd : Type 0 where
  pub fd : Option Stream
  pub total_write_bytes : ℕ
  pub write_bytes_at_reduction : ℕ

-- an entry of reomp_cgate_init_file
abbrev pub closed_fd : ReompFd
closed_fd = record { fd = none; total_write_bytes = 0; write_bytes_at_reduction = 0 }

-- `fopen(path, "w+")` empties the file, `fopen(path, "r")` fails where there is none.
unfoldable pub fopen : Mode → Option (List ℕ) → Result Stream
fopen recording disk = ok (record { words = []; pos = 0 })
fopen _ none = err Error.open_failed
fopen _ (some ws) = ok (record { words = ws; pos = 0 })

-- reomp_get_fd: the thread's stream, opened at its first use.
unfoldable pub get_fd : Mode → Option (List ℕ) → ReompFd → Result Stream
unfolding fopen
get_fd mode disk f = elim f.fd [ some s ↦ ok s | none ↦ fopen mode disk ]

-- `fwrite` at the position of the stream.
unfoldable pub put_words : Stream → List ℕ → Stream
put_words s ws = record {
  words = take s.pos s.words ++ (ws ++ drop (s.pos + length ws) s.words);
  pos = s.pos + length ws;
}

-- reomp_fwrite
unfoldable pub fwrite : Mode → Option (List ℕ) → ReompFd → List ℕ → Result ReompFd
unfolding get_fd
fwrite mode disk f ws = do
  s ← get_fd mode disk f
  ok (record {
    fd = some (put_words s ws);
    total_write_bytes = add64 f.total_write_bytes (4 * length ws);
    write_bytes_at_reduction = f.write_bytes_at_reduction;
  })

-- reomp_fread of `n` words: a short read ends the run.
unfoldable pub fread : Mode → Option (List ℕ) → ReompFd → ℕ → Result (List ℕ × ReompFd)
unfolding get_fd
fread mode disk f n = do
  s ← get_fd mode disk f
  if leb (s.pos + n) (length s.words)
      then ok (take n (drop s.pos s.words), record f { fd = some (record s { pos = s.pos + n }) })
      else err Error.end_of_record

-- `fseek(fd, offset, SEEK_END)` for an offset that lies `back` bytes before the end; it fails, and
-- its result is not tested, where that is before the start.
unfoldable pub fseek_end : Stream → ℕ → Stream
fseek_end s back =
    if leb back (4 * length s.words) then record s { pos = length s.words - back / 4 } else s

-- the words of a `size_t`
unfoldable pub size_words : ℕ → List ℕ
size_words v = (v % 2 ^ 32) ∷ (v / 2 ^ 32 % 2 ^ 32) ∷ []

unfoldable pub size_value : List ℕ → ℕ
size_value [] = 0
size_value (lo ∷ []) = lo
size_value (lo ∷ hi ∷ _) = lo + hi * 2 ^ 32
