-- ===== src/Rempi/Messages/Tests.antt =====
-- One receive from any source, and the theorems about the message manager at it.
use re_omp_llvm.Common.{◌≡◌, refl, inl, inr, true, false, none, [], ◌∷◌, arith}
use re_omp_llvm.Rempi.Messages.{
  Identifier, done, rempi_err, not_matched, Manager, find_pending, add_pending_recv,
  query_pending_comm_id, add_matched_recv, is_matched_recv, remove_matched_recv, same_identifier,
}
use re_omp_llvm.Rempi.Messages.Matching.{
  with_pending, with_matched, pending_matched, matched_not_found,
}

-- an older receive has been matched at the address 40, and one is pending
abbrev old : Manager
old = record {
  pending_recvs = (7, (41, record { source = 1; tag = 2; comm_id = 3; test_id = 0 })) ∷ [];
  matched_recvs = (40, record { source = 5; tag = 6; comm_id = 3; test_id = 9 }) ∷ [];
}

not_yet_pending : find_pending 8 old.pending_recvs ≡ none
unfolding find_pending
not_yet_pending = refl

pending_matched_example :
    (add_pending_recv 42 8 99 6 3 old ≡ done (with_pending 99 98 42 8 99 6 3 old))
    × (query_pending_comm_id 8 (with_pending 99 98 42 8 99 6 3 old) ≡ done 3)
    × (add_matched_recv 99 98 8 5 6 1 (with_pending 99 98 42 8 99 6 3 old)
        ≡ done (3, with_matched 99 98 42 8 99 6 3 old 5 6 1))
pending_matched_example =
    pending_matched 99 98 42 8 99 6 3 old 5 6 1 not_yet_pending (inl refl) (inr refl)

-- the values of the receive that was matched, in a new object
abbrev same_values : Identifier
same_values = record { source = 5; tag = 6; comm_id = 3; test_id = 9 }

equals_the_matched : same_identifier same_values same_values ≡ true
unfolding same_identifier
equals_the_matched = refl

matched_not_found_example :
    (is_matched_recv 43 same_values old ≡ false)
    × (remove_matched_recv 43 same_values old ≡ rempi_err not_matched)
matched_not_found_example = matched_not_found 43 same_values old ((λ e. omega (arith, e)), _)
