-- ===== src/Rempi/Footer.antt =====
-- The footer of a record file, write_footer and read_footer of src/rempi/rempi_encoder_cdc.cpp: the ranks that
-- sent to this one, and the table of matching sets. A file is a list of bytes. Where a file ends within a
-- number the source does not look at what read returns; such a file is broken here.
pub mod RoundTrip
mod Tests
use re_omp_llvm.Common.{
  ℕ, zero, suc, ◌+◌, ◌*◌, ◌^◌, Bool, true, false, ◌||◌, List, [], ◌∷◌, ◌++◌, drop, leb, ◌==◌,
  if◌then◌else◌, length,
}
use re_omp_llvm.Rempi.Encoder.{int_bytes, size_bytes, bytes_int, ints_bytes}
use re_omp_llvm.Rempi.Requests.{Requests, broken_record, Outcome, done, rempi_err, and_then}
use re_omp_llvm.Rempi.Requests.Merging.{get_matching_set_id_map, set_matching_set_id_map}

unfoldable pub sizes_bytes : List ℕ → List ℕ
sizes_bytes [] = []
sizes_bytes (n ∷ ns) = size_bytes n ++ sizes_bytes ns

-- the bytes of a footer after the separator, which is a size of 0
unfoldable pub footer_bytes : (ranks msg_ids matching_set_ids : List ℕ) → List ℕ
unfolding ints_bytes sizes_bytes
footer_bytes ranks ms is =
    size_bytes (length ranks)
    ++ (ints_bytes ranks ++ (int_bytes (length ms) ++ (sizes_bytes ms ++ ints_bytes is)))

-- write_footer: `ranks` is all_epoch_rank_uset
unfoldable pub write_footer :
    (rep : Bool) (ranks file : List ℕ) → Requests → Outcome (List ℕ × Requests)
unfolding footer_bytes get_matching_set_id_map and_then
write_footer rep ranks file s =
    and_then (get_matching_set_id_map rep s)
      (λ (ms, is, s'). done (file ++ (size_bytes 0 ++ footer_bytes ranks ms is), s'))

-- read of a number of `int`s, and of `size_t`s: what they are, and the rest of the file
unfoldable pub read_ints : (count : ℕ) (file : List ℕ) → Outcome (List ℕ × List ℕ)
unfolding and_then
read_ints zero file = done ([], file)
read_ints (suc n) (a ∷ b ∷ c ∷ d ∷ rest) =
    and_then (read_ints n rest) (λ (is, rest'). done (bytes_int a b c d ∷ is, rest'))
read_ints (suc n) file = rempi_err broken_record

unfoldable pub read_sizes : (count : ℕ) (file : List ℕ) → Outcome (List ℕ × List ℕ)
unfolding and_then
read_sizes zero file = done ([], file)
read_sizes (suc n) (a ∷ b ∷ c ∷ d ∷ e ∷ f ∷ g ∷ h ∷ rest) =
    and_then (read_sizes n rest)
      (λ (is, rest'). done ((bytes_int a b c d + bytes_int e f g h * 2 ^ 32) ∷ is, rest'))
read_sizes (suc n) file = rempi_err broken_record

unfoldable pub read_int : (file : List ℕ) → Outcome (ℕ × List ℕ)
read_int (a ∷ b ∷ c ∷ d ∷ rest) = done (bytes_int a b c d, rest)
read_int file = rempi_err broken_record

unfoldable pub read_size : (file : List ℕ) → Outcome (ℕ × List ℕ)
read_size (a ∷ b ∷ c ∷ d ∷ e ∷ f ∷ g ∷ h ∷ rest) =
    done (bytes_int a b c d + bytes_int e f g h * 2 ^ 32, rest)
read_size file = rempi_err broken_record

-- The first loop of read_footer: a size, and a seek over the chunk, up to a size of 0. The fuel counts sizes.
unfoldable pub skip_chunks : (fuel : ℕ) (file : List ℕ) → Outcome (List ℕ)
unfolding read_size and_then
skip_chunks zero file = rempi_err broken_record
skip_chunks (suc n) file = and_then (read_size file) (λ (size, rest).
    let more = skip_chunks n (drop size rest) in if size == 0 then done rest else more)

-- the table of matching sets; a length that is negative or 0 means that there is none
unfoldable pub read_map : (len : ℕ) (file : List ℕ) → Requests → Outcome Requests
unfolding read_sizes read_ints set_matching_set_id_map and_then
read_map len file s =
    if (len == 0) || leb (2 ^ 31) len
    then done s
    else and_then (read_sizes len file) (λ (ms, rest).
      and_then (read_ints len rest) (λ (is, rest'). done (set_matching_set_id_map ms is s)))

-- read_footer; each size takes 8 bytes, so that the length of the file is enough fuel
unfoldable pub read_footer : (file : List ℕ) → Requests → Outcome Requests
unfolding skip_chunks read_size read_ints read_int read_map and_then
read_footer file s = and_then (skip_chunks (length file) file) (λ rest.
    and_then (read_size rest) (λ (count, rest1).
      and_then (read_ints count rest1)
        (λ (ranks, rest2). and_then (read_int rest2) (λ (len, rest3). read_map len rest3 s))))
