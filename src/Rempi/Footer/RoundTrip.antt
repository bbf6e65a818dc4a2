-- ===== src/Rempi/Footer/RoundTrip.antt =====
-- What read_footer of src/rempi/rempi_encoder_cdc.cpp reads of a file that write_footer ended.
use re_omp_llvm.Common.{
  ℕ, zero, suc, ◌^◌, ◌≤◌, ◌<◌, ◌≡◌, refl, sym, ap, ◌∙◌, subst, Bool, true, false, List, [], ◌∷◌,
  ◌++◌, append_assoc, append-nil, map, leb, ◌==◌, ◌||◌, length, length-append, arith,
}
use re_omp_llvm.Rempi.Compression.Prediction.{Fits}
use re_omp_llvm.Rempi.Encoder.{int_bytes, size_bytes, ints_bytes}
use re_omp_llvm.Rempi.Encoder.RoundTrip.{int_back, size_back, drop_prefix}
use re_omp_llvm.Rempi.Requests.{Requests, Outcome, done, rempi_err, and_then}
use re_omp_llvm.Rempi.Requests.Merging.{
  get_matching_set_id_map, set_matching_set_id_map, assign_calls,
}
use re_omp_llvm.Rempi.Footer.{
  sizes_bytes, footer_bytes, write_footer, read_ints, read_sizes, read_int, read_size, skip_chunks,
  read_map, read_footer,
}

read_ints-ints_bytes :
    (ns rest : List ℕ)
    → Fits (2 ^ 32) ns
    → read_ints (length ns) (ints_bytes ns ++ rest) ≡ done (ns, rest)
unfolding read_ints ints_bytes and_then
read_ints-ints_bytes [] rest f = refl
read_ints-ints_bytes (n ∷ ns) rest f = rw (read_ints-ints_bytes ns rest f.1, int_back n f.0) refl

read_sizes-sizes_bytes :
    (ns rest : List ℕ)
    → Fits (2 ^ 64) ns
    → read_sizes (length ns) (sizes_bytes ns ++ rest) ≡ done (ns, rest)
unfolding read_sizes sizes_bytes and_then
read_sizes-sizes_bytes [] rest f = refl
read_sizes-sizes_bytes (n ∷ ns) rest f =
    rw (read_sizes-sizes_bytes ns rest f.1, size_back n f.0) refl

-- chunks of bytes, each with its size before it
abbrev pub chunk_bytes : List (List ℕ) → List ℕ
chunk_bytes [] = []
chunk_bytes (c ∷ cs) = size_bytes (length c) ++ (c ++ chunk_bytes cs)

abbrev pub IsChunks : List (List ℕ) → Type 0
IsChunks [] = Unit
IsChunks (c ∷ cs) = (0 < length c) × (length c < 2 ^ 64) × IsChunks cs

-- The loop over the chunks finds the separator with any fuel above their number.
skip_chunks-chunk_bytes :
    (fuel : ℕ) (cs : List (List ℕ)) (rest : List ℕ)
    → IsChunks cs
    → length cs < fuel
    → skip_chunks fuel (chunk_bytes cs ++ (size_bytes 0 ++ rest)) ≡ done rest
unfolding skip_chunks read_size and_then
skip_chunks-chunk_bytes zero cs rest h k = ground arith
skip_chunks-chunk_bytes (suc n) [] rest h k = refl
skip_chunks-chunk_bytes (suc n) (c ∷ cs) rest (pos, small, h) k =
    let tail : List ℕ = chunk_bytes cs ++ (size_bytes 0 ++ rest) in
    let some_bytes : (length c == 0) ≡ false = ground (arith, pos) in
    rw
      (
        size_back (length c) small,
        some_bytes,
        append_assoc c (chunk_bytes cs) (size_bytes 0 ++ rest),
        drop_prefix c tail,
      )
      (skip_chunks-chunk_bytes n cs rest h (omega arith))

chunk_bytes-length : (cs : List (List ℕ)) → IsChunks cs → length cs ≤ length (chunk_bytes cs)
chunk_bytes-length [] h = omega arith
chunk_bytes-length (c ∷ cs) (pos, small, h) =
    omega (arith, chunk_bytes-length cs h, length-append c (chunk_bytes cs))

-- the two arrays of the table have one length
abbrev SameLengths : Outcome (List ℕ × List ℕ × Requests) → Type 0
SameLengths (done (ms, is, s)) = length ms ≡ length is
SameLengths (rempi_err e) = Unit

get_matching_set_id_map-SameLengths :
    (rep : Bool) (s : Requests) → SameLengths (get_matching_set_id_map rep s)
unfolding get_matching_set_id_map
get_matching_set_id_map-SameLengths rep s = both (
    assign_calls rep s.mpi_call_id_to_matching_set_id s.mpi_call_id_to_comm_tag
      s.comm_tag_to_matching_set_id)
  where
    halves : (t : List (ℕ × ℕ)) → length (map (λ (m, i). m) t) ≡ length (map (λ (m, i). i) t)
    halves [] = refl
    halves (x ∷ t) = ap suc (halves t)

    both :
        (o : Outcome (List (ℕ × ℕ)))
        → SameLengths (
            and_then o (λ t. done (
              map (λ (m, i). m) t,
              map (λ (m, i). i) t,
              record s { comm_tag_to_matching_set_id = t },
            )))
    both (done t) = unfold and_then in halves t
    both (rempi_err e) = unfold and_then in tt

read_map-lem :
    (ms is rest : List ℕ) (r : Requests)
    → length ms ≡ length is
    → length ms < 2 ^ 31
    → 0 < length ms
    → Fits (2 ^ 64) ms
    → Fits (2 ^ 32) is
    → read_map (length ms) (sizes_bytes ms ++ (ints_bytes is ++ rest)) r
      ≡ done (set_matching_set_id_map ms is r)
unfolding read_map and_then
read_map-lem ms is rest r same small pos fm fi =
    let has_some : ((length ms == 0) || leb (2 ^ 31) (length ms)) ≡ false =
      ground (arith, pos, small) in
    rw
      (
        has_some,
        read_sizes-sizes_bytes ms (ints_bytes is ++ rest) fm,
        same,
        read_ints-ints_bytes is rest fi,
      )
      refl

read_map-map_bytes :
    (ms is : List ℕ) (r : Requests)
    → length ms ≡ length is
    → length ms < 2 ^ 31
    → Fits (2 ^ 64) ms
    → Fits (2 ^ 32) is
    → read_map (length ms) (sizes_bytes ms ++ ints_bytes is) r
      ≡ done (set_matching_set_id_map ms is r)
unfolding read_map set_matching_set_id_map
read_map-map_bytes [] [] r same small fm fi = refl
read_map-map_bytes [] (i ∷ is) r same small fm fi = ground (arith, same)
read_map-map_bytes (m ∷ ms) is r same small fm fi =
    ap (λ l. read_map (length (m ∷ ms)) (sizes_bytes (m ∷ ms) ++ l) r)
      (sym (append-nil (ints_bytes is)))
    ∙ read_map-lem (m ∷ ms) is [] r same small (omega arith) fm fi

-- A record of chunks with at least one byte each is ended with the footer of a table of matching sets, with
-- fewer than 2 ^ 31 entries, that rempi_reqmg_get_matching_set_id_map gives with the REP encoder. A replay
-- that reads the file finds the footer behind the chunks, and puts this table into its own. The ranks, the
-- message numbers and the sets fit their types.
pub read_footer-write_footer :
    (chunks : List (List ℕ)) (ranks ms is : List ℕ) (s s' r : Requests)
    → IsChunks chunks
    → Fits (2 ^ 32) ranks
    → length ranks < 2 ^ 64
    → get_matching_set_id_map true s ≡ done (ms, is, s')
    → length ms < 2 ^ 31
    → Fits (2 ^ 64) ms
    → Fits (2 ^ 32) is
    → (file : List ℕ) × (write_footer true ranks (chunk_bytes chunks) s ≡ done (file, s'))
      × (read_footer file r ≡ done (set_matching_set_id_map ms is r))
unfolding write_footer read_footer and_then footer_bytes read_size read_int
read_footer-write_footer cs ranks ms is s s' r chunks fr lr made small fm fi =
    let same : length ms ≡ length is =
      subst SameLengths made (get_matching_set_id_map-SameLengths true s) in
    let footer : List ℕ = footer_bytes ranks ms is in
    let file : List ℕ = chunk_bytes cs ++ (size_bytes 0 ++ footer) in
    let enough : length cs < length file = omega (
      arith,
      chunk_bytes-length cs chunks,
      length-append (chunk_bytes cs) (size_bytes 0 ++ footer),
    ) in
    let table : List ℕ = sizes_bytes ms ++ ints_bytes is in
    (
      file,
      rw made refl,
      rw
          (
            skip_chunks-chunk_bytes (length file) cs footer chunks enough,
            size_back (length ranks) lr,
            read_ints-ints_bytes ranks (int_bytes (length ms) ++ table) fr,
            int_back (length ms) (omega arith),
          )
          (read_map-map_bytes ms is r same small fm fi),
    )
