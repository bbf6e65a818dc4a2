-- ===== src/Rempi/Messages/Matching.antt =====
-- What becomes of a receive in src/rempi/rempi_message_manager.cpp.
use re_omp_llvm.Common.{
  ℕ, ◌-◌, ◌^◌, ◌≡◌, ◌≢◌, ◌⊎◌, Bool, ◌%◌, ◌&&◌, ltb, ◌==◌, refl, false, none, some, List, [], ◌∷◌,
  ◌++◌, arith,
}
use re_omp_llvm.Rempi.Messages.{
  query_pending_comm_id, Identifier, done, rempi_err, not_matched, Pointer, Manager, find_pending,
  erase_pending, add_pending_recv, match_pending, add_matched_recv, find_pointer, is_matched_recv,
  remove_pointer, remove_matched_recv,
}

erase-find_pending :
    (request : ℕ) (ps : List (ℕ × Pointer))
    → find_pending request ps ≡ none
    → erase_pending request ps ≡ ps
unfolding find_pending erase_pending
erase-find_pending request [] h = refl
erase-find_pending request ((r, p) ∷ ps) h = ground (arith, h, erase-find_pending request ps)

module _ (any_source any_tag : ℕ) (address request source tag comm_id : ℕ) (m : Manager) where
  -- the receive that add_pending_recv makes
  abbrev pub pending : Identifier
  pending = record { source = source; tag = tag; comm_id = comm_id; test_id = 2 ^ 32 - 1 }

  abbrev pub with_pending : Manager
  with_pending = record m { pending_recvs = (request, (address, pending)) ∷ m.pending_recvs }

  -- the manager after a message from `from` with the tag `tagged` matched it
  abbrev pub with_matched : (from tagged test_id : ℕ) → Manager
  with_matched from tagged test_id = record m {
    matched_recvs =
        m.matched_recvs
        ++ (address, record { source = from; tag = tagged; comm_id = comm_id; test_id = test_id })
          ∷ [];
  }

  -- A receive that is posted for a request with no pending one is pending under its communicator; a
  -- message that the receive admits by its source and its tag moves it, with the source and the tag of
  -- the message, to the end of the matched ones, and gives back the communicator; and no other receive
  -- is touched.
  pub pending_matched :
      (from tagged test_id : ℕ)
      → find_pending request m.pending_recvs ≡ none
      → (source ≡ any_source) ⊎ (source ≡ from)
      → (tag ≡ any_tag) ⊎ (tag ≡ tagged)
      → (add_pending_recv address request source tag comm_id m ≡ done with_pending)
        × (query_pending_comm_id request with_pending ≡ done comm_id)
        × (add_matched_recv any_source any_tag request from tagged test_id with_pending
            ≡ done (comm_id, with_matched from tagged test_id))
  unfolding add_pending_recv query_pending_comm_id add_matched_recv
  pending_matched from tagged test_id free h k = (
    rw (free, add_pending_recv) refl,
    rw (found, query_pending_comm_id) refl,
    rw (found, add_matched_recv) match_admitted,
  )
    where
      found : find_pending request with_pending.pending_recvs ≡ some (address, pending)
      found = unfold find_pending in ground arith

      erased : erase_pending request with_pending.pending_recvs ≡ m.pending_recvs
      erased =
          unfold erase_pending in ground (arith, erase-find_pending request m.pending_recvs free)

      match_admitted :
          match_pending any_source any_tag request from tagged test_id
            (some (address, pending))
            with_pending
          ≡ done (comm_id, with_matched from tagged test_id)
      match_admitted = unfold match_pending in ground (arith, h, k, erased)

-- The address is that of no matched identifier.
abbrev pub Fresh : ℕ → List Pointer → Type 0
Fresh address [] = Unit {0}
Fresh address ((a, msg) ∷ ps) = (a ≢ address) × Fresh address ps

find_pointer-Fresh :
    (address : ℕ) (ps : List Pointer)
    → Fresh address ps
    → (find_pointer address ps ≡ false) × (remove_pointer address ps ≡ none)
unfolding find_pointer remove_pointer
find_pointer-Fresh address [] h = (refl, refl)
find_pointer-Fresh address ((a, msg) ∷ ps) h =
    let (f, r) = find_pointer-Fresh address ps h.1 in
    (ground (arith, f, h.0), ground (arith, r, h.0))

-- Since pointers are compared, no identifier is ever found among the matched ones, and none can be
-- removed: with a new object is_matched_recv gives false and remove_matched_recv ends the process, also
-- for an identifier that equals a matched one.
pub matched_not_found :
    (address : ℕ) (msg : Identifier) (m : Manager)
    → Fresh address m.matched_recvs
    → (is_matched_recv address msg m ≡ false)
      × (remove_matched_recv address msg m ≡ rempi_err not_matched)
unfolding is_matched_recv remove_matched_recv
matched_not_found address msg m h =
    let (f, r) = find_pointer-Fresh address m.matched_recvs h in
    (f, rw (r, remove_matched_recv) refl)

-- a field of which at least one bit is taken, with its lowest bit
unfoldable pub shows : (bits value : ℕ) → Bool
shows bits value = ltb 0 bits && (value % 2 == 1)
