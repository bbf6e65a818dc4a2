-- ===== src/Rempi/Requests/Merging/Export.antt =====
-- The table of matching sets from the end of a record, written by rempi_reqmg_get_matching_set_id_map, to the
-- start of a replay, read by rempi_reqmg_set_matching_set_id_map (src/rempi/rempi_request_mg.cpp).
use re_omp_llvm.Common.{
  ℕ, ◌≡◌, refl, sym, ap, ◌∙◌, subst, Bool-cases, inl, inr, true, Option, none, some, List, [], ◌∷◌,
  map, ◌==◌, arith,
}
use re_omp_llvm.Rempi.Requests.{Requests, Outcome, done, rempi_err, and_then}
use re_omp_llvm.Rempi.Requests.Table.{find, insert, find-insert}
use re_omp_llvm.Rempi.Requests.Merging.{
  rename, change_matching_set_id, assign_found, assign_all, assign_matching_set_id_to_msg_id,
  assign_calls, get_matching_set_id_map, set_all, set_matching_set_id_map,
}
use re_omp_llvm.Rempi.Requests.Merging.Agree.{
  Refines, Together, Together-same, assign_calls-Refines,
}

-- With the REP encoder the table is written. In it the messages of each call that has a matching set are in
-- one set, and messages that were in one set before are in one set.
pub get_matching_set_id_map-Together :
    (s : Requests)
    → (msg_ids : List ℕ) × (set_ids : List ℕ) × (s' : Requests) × (get_matching_set_id_map true s
        ≡ done (msg_ids, set_ids, s'))
      × ((call set : ℕ)
          → find call s.mpi_call_id_to_matching_set_id ≡ some set
          → (v : ℕ) × Together
              (find call s.mpi_call_id_to_comm_tag)
              s'.comm_tag_to_matching_set_id
              v)
      × Refines s.comm_tag_to_matching_set_id s'.comm_tag_to_matching_set_id
unfolding get_matching_set_id_map and_then
get_matching_set_id_map-Together s =
    let (t, e, together, keeps) =
      assign_calls-Refines s.mpi_call_id_to_matching_set_id s.mpi_call_id_to_comm_tag
        s.comm_tag_to_matching_set_id in
    (
      map (λ (m, i). m) t,
      map (λ (m, i). i) t,
      record s { comm_tag_to_matching_set_id = t },
      rw e refl,
      together,
      keeps,
    )

-- what the loop of the replay leaves: the entries read, over those that were there
abbrev over : Option ℕ → Option ℕ → Option ℕ
over none o = o
over (some v) o = some v

-- A table with one entry for each key
unfoldable pub NodupKeys : List (ℕ × ℕ) → Type 0
unfolding find
NodupKeys [] = Unit
NodupKeys ((k, a) ∷ t) = (find k t ≡ none) × NodupKeys t

find-set_all :
    (k : ℕ) (t u : List (ℕ × ℕ))
    → NodupKeys t
    → find k (set_all (map (λ (m, i). m) t) (map (λ (m, i). i) t) u) ≡ over (find k t) (find k u)
unfolding set_all NodupKeys find
find-set_all k [] u h = refl
find-set_all k ((m, i) ∷ t) u (fresh, h) =
    find-set_all k t (insert m i u) h ∙ ground (arith, find-insert k m i u, fresh)

rename-fresh : (m o n : ℕ) (t : List (ℕ × ℕ)) → find m t ≡ none → find m (rename o n t) ≡ none
unfolding find rename
rename-fresh m o n [] h = refl
rename-fresh m o n ((k, i) ∷ t) h = ground (arith, rename-fresh m o n t, h)

rename-NodupKeys : (o n : ℕ) (t : List (ℕ × ℕ)) → NodupKeys t → NodupKeys (rename o n t)
unfolding rename NodupKeys
rename-NodupKeys o n [] h = tt
rename-NodupKeys o n ((k, i) ∷ t) (fresh, h) =
    (rename-fresh k o n t fresh, rename-NodupKeys o n t h)

insert-NodupKeys : (m i : ℕ) (t : List (ℕ × ℕ)) → NodupKeys t → NodupKeys (insert m i t)
unfolding insert NodupKeys find
insert-NodupKeys m i [] h = (refl, tt)
insert-NodupKeys m i ((k, j) ∷ t) (fresh, h) =
    ground (arith, insert-NodupKeys m i t h, find-insert k m i t, fresh)

-- what the step writes, if it returns, has one entry for each key
abbrev WritesNodup : Outcome (List (ℕ × ℕ)) → Type 0
WritesNodup (done t) = NodupKeys t
WritesNodup (rempi_err e) = Unit

and_then-WritesNodup :
    (o : Outcome (List (ℕ × ℕ))) (f : List (ℕ × ℕ) → Outcome (List (ℕ × ℕ)))
    → WritesNodup o
    → ((t : List (ℕ × ℕ)) → NodupKeys t → WritesNodup (f t))
    → WritesNodup (and_then o f)
unfolding and_then
and_then-WritesNodup (done t) f h k = k t h
and_then-WritesNodup (rempi_err e) f h k = tt

assign_found-WritesNodup :
    (set m : ℕ) (o : Option ℕ) (t : List (ℕ × ℕ))
    → NodupKeys t
    → WritesNodup (assign_found true set m o t)
unfolding assign_found change_matching_set_id and_then
assign_found-WritesNodup set m none t h = insert-NodupKeys m set t h
assign_found-WritesNodup set m (some old) t h = elim (Bool-cases (old == set)) [
  | inl same ↦ rw same (insert-NodupKeys m set t h)
  | inr differs ↦
      rw differs (insert-NodupKeys m set (rename old set t) (rename-NodupKeys old set t h))
]

assign_all-WritesNodup :
    (set : ℕ) (ms : List ℕ) (t : List (ℕ × ℕ))
    → NodupKeys t
    → WritesNodup (assign_all true set ms t)
unfolding assign_all
assign_all-WritesNodup set [] t h = h
assign_all-WritesNodup set (m ∷ ms) t h =
    and_then-WritesNodup (assign_found true set m (find m t) t) (assign_all true set ms)
      (assign_found-WritesNodup set m (find m t) t h) (assign_all-WritesNodup set ms)

assign_call-WritesNodup :
    (set : ℕ) (o : Option (List ℕ)) (t : List (ℕ × ℕ))
    → NodupKeys t
    → WritesNodup (assign_matching_set_id_to_msg_id true set o t)
unfolding assign_matching_set_id_to_msg_id
assign_call-WritesNodup set none t h = h
assign_call-WritesNodup set (some ms) t h = assign_all-WritesNodup set ms t h

assign_calls-WritesNodup :
    (calls : List (ℕ × ℕ)) (msgs : List (ℕ × List ℕ)) (t : List (ℕ × ℕ))
    → NodupKeys t
    → WritesNodup (assign_calls true calls msgs t)
unfolding assign_calls
assign_calls-WritesNodup [] msgs t h = h
assign_calls-WritesNodup ((call, set) ∷ calls) msgs t h =
    and_then-WritesNodup (assign_matching_set_id_to_msg_id true set (find call msgs) t)
      (assign_calls true calls msgs) (assign_call-WritesNodup set (find call msgs) t h)
      (assign_calls-WritesNodup calls msgs)

over-none : (o : Option ℕ) → over o none ≡ o
over-none none = refl
over-none (some v) = refl

-- With the REP encoder, what a record writes from a table with one entry for each message and a replay reads
-- into an empty table is the same table: each message has the set there that it had at the end of the record.
-- The messages of each call that had a matching set in the record are in one set in the replay.
pub set-get_matching_set_id_map :
    (s r : Requests)
    → NodupKeys s.comm_tag_to_matching_set_id
    → r.comm_tag_to_matching_set_id ≡ []
    → (msg_ids : List ℕ) × (set_ids : List ℕ) × (s' : Requests) × (get_matching_set_id_map true s
        ≡ done (msg_ids, set_ids, s'))
      × ((m : ℕ)
          → find m (set_matching_set_id_map msg_ids set_ids r).comm_tag_to_matching_set_id
            ≡ find m s'.comm_tag_to_matching_set_id)
      × ((call set : ℕ)
          → find call s.mpi_call_id_to_matching_set_id ≡ some set
          → (v : ℕ) × Together
              (find call s.mpi_call_id_to_comm_tag)
              (set_matching_set_id_map msg_ids set_ids r).comm_tag_to_matching_set_id
              v)
unfolding get_matching_set_id_map set_matching_set_id_map and_then
set-get_matching_set_id_map s r h e =
    let (t, made, together, keeps) =
      assign_calls-Refines s.mpi_call_id_to_matching_set_id s.mpi_call_id_to_comm_tag
        s.comm_tag_to_matching_set_id in
    let nodup : NodupKeys t = subst WritesNodup made (
      assign_calls-WritesNodup s.mpi_call_id_to_matching_set_id s.mpi_call_id_to_comm_tag
        s.comm_tag_to_matching_set_id h) in
    let same = λ (m : ℕ).
      ap (λ u. find m (set_all (map (λ (m, i). m) t) (map (λ (m, i). i) t) u)) e
      ∙ find-set_all m t [] nodup
      ∙ over-none (find m t) in
    (
      map (λ (m, i). m) t,
      map (λ (m, i). i) t,
      record s { comm_tag_to_matching_set_id = t },
      rw made refl,
      same,
      λ call set k.
          let (v, all) = together call set k in
          (v, Together-same (find call s.mpi_call_id_to_comm_tag) t _ v (λ m. sym (same m)) all),
    )
