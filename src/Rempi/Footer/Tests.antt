-- ===== src/Rempi/Footer/Tests.antt =====
-- The theorem on the footer at a concrete record.
use re_omp_llvm.Common.{ℕ, ◌≡◌, refl, true, List, [], ◌∷◌, arith}
use re_omp_llvm.Rempi.Requests.{Requests, done, rempi_err, broken_record}
use re_omp_llvm.Rempi.Requests.Merging.{get_matching_set_id_map, set_matching_set_id_map}
use re_omp_llvm.Rempi.Footer.{write_footer, read_footer}
use re_omp_llvm.Rempi.Footer.RoundTrip.{chunk_bytes, read_footer-write_footer}

-- Message 7 is in the set 9, and the call 5 had this set and got the message 8.
abbrev recorded : Requests
recorded = record {
  request_to_recv_args = [];
  request_to_send_id = [];
  mpi_call_id_to_matching_set_id = (5, 9) ∷ [];
  comm_tag_to_matching_set_id = (7, 9) ∷ [];
  mpi_call_id_to_comm_tag = (5, 8 ∷ []) ∷ [];
  comm_names = [];
  next_comm_id = 1;
}

abbrev merged : Requests
merged = record recorded { comm_tag_to_matching_set_id = (7, 9) ∷ (8, 9) ∷ [] }

abbrev replaying : Requests
replaying = record recorded {
  mpi_call_id_to_matching_set_id = [];
  comm_tag_to_matching_set_id = [];
  mpi_call_id_to_comm_tag = [];
}

abbrev chunks : List (List ℕ)
chunks = (1 ∷ 2 ∷ []) ∷ (3 ∷ []) ∷ []

recorded-merged : get_matching_set_id_map true recorded ≡ done (7 ∷ 8 ∷ [], 9 ∷ 9 ∷ [], merged)
unfolding get_matching_set_id_map
recorded-merged = refl

read_footer-write_footer_example :
    (file : List ℕ) × (write_footer true (3 ∷ []) (chunk_bytes chunks) recorded
      ≡ done (file, merged))
    × (read_footer file replaying
        ≡ done (set_matching_set_id_map (7 ∷ 8 ∷ []) (9 ∷ 9 ∷ []) replaying))
read_footer-write_footer_example =
    read_footer-write_footer chunks (3 ∷ []) (7 ∷ 8 ∷ []) (9 ∷ 9 ∷ []) recorded merged replaying
      (omega arith, omega arith, (omega arith, omega arith, tt)) (omega arith, tt) (omega arith)
      recorded-merged (omega arith) (omega arith, (omega arith, tt))
      (omega arith, (omega arith, tt))

-- A file without a footer is broken.
no_footer : read_footer (chunk_bytes chunks) replaying ≡ rempi_err broken_record
unfolding read_footer
no_footer = refl
