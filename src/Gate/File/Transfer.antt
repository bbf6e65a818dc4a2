-- ===== src/Gate/File/Transfer.antt =====
-- The record files as one thread sees them: a file written from its start grows at its end, and a
-- file read from its start yields its words in order (reomp_fwrite and reomp_fread).
use re_omp_llvm.Common.{
  ℕ, zero, suc, ◌+◌, ◌*◌, ◌≤◌, ◌≡◌, refl, sym, ap, Option, none, some, List, [], ◌∷◌, ◌++◌, length,
  take, drop, get_elem?, get_elem?-lt, drop-suc, append-nil, ◌∙◌, arith,
}
use re_omp_llvm.Gate.Defs.{recording, replaying, ok, add64}
use re_omp_llvm.Gate.File.{Stream, ReompFd, get_fd, put_words, fwrite, fread}

-- The stream has been written from its start, and holds `ws`.
abbrev pub Logs : Option Stream → List ℕ → Type 0
Logs none ws = ws ≡ []
Logs (some s) ws = (s.words ≡ ws) × (s.pos ≡ length ws)

-- The stream, or the file that its first use opens, holds `ws`, and `p` words have been read.
abbrev pub Reads : Option (List ℕ) → Option Stream → List ℕ → ℕ → Type 0
Reads disk none ws p = (disk ≡ some ws) × (p ≡ 0)
Reads disk (some s) ws p = (s.words ≡ ws) × (s.pos ≡ p)

pub take-length {ℓ} : {A : Type ℓ} (xs : List A) → take (length xs) xs ≡ xs
take-length [] = refl
take-length (x ∷ xs) = ap (λ l. x ∷ l) (take-length xs)

pub drop-ge_length {ℓ} : {A : Type ℓ} (xs : List A) (n : ℕ) → length xs ≤ n → drop n xs ≡ []
drop-ge_length [] zero h = refl
drop-ge_length [] (suc n) h = refl
drop-ge_length (x ∷ xs) zero h = absurd (omega arith)
drop-ge_length (x ∷ xs) (suc n) h = drop-ge_length xs n (omega arith)

pub length-append' : (xs ys : List ℕ) → length (xs ++ ys) ≡ length xs + length ys
length-append' [] ys = omega arith
length-append' (x ∷ xs) ys = omega (arith, length-append' xs ys)

-- At the end of the file a write appends.
pub put_words_end :
    (s : Stream) (ws vs : List ℕ)
    → s.words ≡ ws
    → s.pos ≡ length ws
    → put_words s vs ≡ record { words = ws ++ vs; pos = length ws + length vs }
unfolding put_words
put_words_end s ws vs h p =
    rw (h, p, take-length, drop-ge_length ws (length ws + length vs) (omega arith), append-nil)

-- the table entry after a write of `vs` to a file that held `ws`
abbrev pub written : ReompFd → List ℕ → List ℕ → ReompFd
written f ws vs = record {
  fd = some (record { words = ws ++ vs; pos = length ws + length vs });
  total_write_bytes = add64 f.total_write_bytes (4 * length vs);
  write_bytes_at_reduction = f.write_bytes_at_reduction;
}

-- the stream of a file that is written from its start
get_fd-Logs :
    (disk : Option (List ℕ)) (f : ReompFd) (ws : List ℕ)
    → Logs f.fd ws
    → (s : Stream) × (get_fd recording disk f ≡ ok s) × (s.words ≡ ws) × (s.pos ≡ length ws)
unfolding get_fd
get_fd-Logs disk f ws = by_fd f.fd refl
  where
    by_fd :
        (o : Option Stream)
        → f.fd ≡ o
        → Logs o ws
        → (s : Stream) × (get_fd recording disk f ≡ ok s) × (s.words ≡ ws) × (s.pos ≡ length ws)
    by_fd none e h = (record { words = []; pos = 0 }, rw e, sym h, ground arith)
    by_fd (some s) e h = (s, rw e, h.0, h.1)

pub fwrite_end :
    (disk : Option (List ℕ)) (f : ReompFd) (ws vs : List ℕ)
    → Logs f.fd ws
    → fwrite recording disk f vs ≡ ok (written f ws vs)
unfolding fwrite
fwrite_end disk f ws vs h =
    let (s, e, hw, hp) = get_fd-Logs disk f ws h in rw (e, put_words_end s ws vs hw hp)

get_fd-Reads :
    (disk : Option (List ℕ)) (f : ReompFd) (ws : List ℕ) (p : ℕ)
    → Reads disk f.fd ws p
    → (s : Stream) × (get_fd replaying disk f ≡ ok s) × (s.words ≡ ws) × (s.pos ≡ p)
unfolding get_fd
get_fd-Reads disk f ws p = by_fd f.fd refl
  where
    by_fd :
        (o : Option Stream)
        → f.fd ≡ o
        → Reads disk o ws p
        → (s : Stream) × (get_fd replaying disk f ≡ ok s) × (s.words ≡ ws) × (s.pos ≡ p)
    by_fd none e h = (record { words = ws; pos = 0 }, rw (e, h.0), refl, sym h.1)
    by_fd (some s) e h = (s, rw e, h.0, h.1)

-- the table entry after `p` words of a file that holds `ws` were read
abbrev pub read_to : ReompFd → List ℕ → ℕ → ReompFd
read_to f ws p = record f { fd = some (record { words = ws; pos = p }) }

pub fread_next :
    (disk : Option (List ℕ)) (f : ReompFd) (ws : List ℕ) (p n : ℕ)
    → Reads disk f.fd ws p
    → p + n ≤ length ws
    → fread replaying disk f n ≡ ok (take n (drop p ws), read_to f ws (p + n))
unfolding fread
fread_next disk f ws p n h room =
    let (s, e, hw, hp) = get_fd-Reads disk f ws p h in rw (e, hw, hp) (ground arith)

-- The next word of a file.
pub fread_word :
    (disk : Option (List ℕ)) (f : ReompFd) (ws : List ℕ) (p c : ℕ)
    → Reads disk f.fd ws p
    → get_elem? ws p ≡ some c
    → fread replaying disk f 1 ≡ ok (c ∷ [], read_to f ws (p + 1))
fread_word disk f ws p c h e =
    fread_next disk f ws p 1 h (omega (arith, get_elem?-lt ws p c e)) ∙ rw (drop-suc ws p c e) refl
