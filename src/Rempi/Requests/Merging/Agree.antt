-- ===== src/Rempi/Requests/Merging/Agree.antt =====
-- What the merging of src/rempi/rempi_request_mg.cpp keeps: two messages of one set stay in one set.
use mathlib.Core.Option.{some_inj}
use re_omp_llvm.Common.{
  ℕ, ◌≡◌, refl, sym, ap, ◌∙◌, subst, true, Option, none, some, List, [], ◌∷◌, ◌==◌, if◌then◌else◌,
  arith, Bool-cases, inl, inr,
}
use re_omp_llvm.Rempi.Requests.{done, and_then}
use re_omp_llvm.Rempi.Requests.Table.{find, insert, find-insert, find-cons, contains, contains-cons}
use re_omp_llvm.Rempi.Requests.Merging.{
  rename, change_matching_set_id, assign_found, assign_all, assign_matching_set_id_to_msg_id,
  assign_calls,
}

-- Every message of the first table is in the second, and its set there is a function of its set here.
unfoldable pub Refines : List (ℕ × ℕ) → List (ℕ × ℕ) → Type 0
unfolding find
Refines t t' = (f : ℕ → ℕ) × ((m v : ℕ) → find m t ≡ some v → find m t' ≡ some (f v))

-- the same with a function that keeps one set
abbrev pub RefinesAt : ℕ → List (ℕ × ℕ) → List (ℕ × ℕ) → Type 0
unfolding find
RefinesAt set t t' =
    (f : ℕ → ℕ) × (f set ≡ set) × ((m v : ℕ) → find m t ≡ some v → find m t' ≡ some (f v))

find-rename :
    (m old_id new_id v : ℕ) (t : List (ℕ × ℕ))
    → find m t ≡ some v
    → find m (rename old_id new_id t) ≡ some (if old_id == v then new_id else v)
unfolding find rename
find-rename m o n v [] h = ground arith
find-rename m o n v ((k, w) ∷ t) h = ground (arith, find-rename m o n v t)

-- One message is put into a set, and with it those that were in its set before.
assign_found-RefinesAt :
    (set m : ℕ) (o : Option ℕ) (t : List (ℕ × ℕ))
    → find m t ≡ o
    → (t' : List (ℕ × ℕ)) × (assign_found true set m o t ≡ done t')
      × (find m t' ≡ some set)
      × RefinesAt set t t'
unfolding assign_found RefinesAt
assign_found-RefinesAt set m none t e = (
  insert m set t,
  refl,
  find-insert m m set t ∙ ground arith,
  (λ v. v, refl, λ k v h. ground (arith, find-insert k m set t, e, h)),
)
assign_found-RefinesAt set m (some old) t e = elim (Bool-cases (old == set)) [
  | inl same ↦ (
    insert m set t,
    rw same refl,
    find-insert m m set t ∙ ground arith,
    (λ v. v, refl, λ k v h. ground (arith, find-insert k m set t, e, h, same)),
  )
  | inr differs ↦ (
    insert m set (rename old set t),
    rw (differs, change_matching_set_id) refl,
    find-insert m m set (rename old set t) ∙ ground arith,
    (
      λ v. if old == v then set else v,
      ground arith,
      λ k v h.
          ground (arith, find-insert k m set (rename old set t), find-rename k old set v t h, e, h),
    ),
  )
]

-- All messages of a call are put into its set.
assign_all-RefinesAt :
    (set : ℕ) (ms : List ℕ) (t : List (ℕ × ℕ))
    → (t' : List (ℕ × ℕ)) × (assign_all true set ms t ≡ done t')
      × ((m : ℕ) → contains m ms ≡ true → find m t' ≡ some set)
      × RefinesAt set t t'
unfolding assign_all contains RefinesAt and_then
assign_all-RefinesAt set [] t = (t, refl, λ m h. ground arith, (λ v. v, refl, λ m v h. h))
assign_all-RefinesAt set (k ∷ ms) t =
    let (t1, e1, at1, (f, keep1, from1)) = assign_found-RefinesAt set k (find k t) t refl in
    let (t2, e2, at2, (g, keep2, from2)) = assign_all-RefinesAt set ms t1 in
    (
      t2,
      rw e1 e2,
      λ m h. elim (contains-cons m k ms h) [
        | inl same ↦ subst (λ j. find j t2 ≡ some set) same (from2 k set at1 ∙ ap some keep2)
        | inr later ↦ at2 m later
      ],
      (λ v. g (f v), ap g keep1 ∙ keep2, λ m v h. from2 m (f v) (from1 m v h)),
    )

-- the messages of a call, if it has any, are in one set
unfoldable pub Together : Option (List ℕ) → List (ℕ × ℕ) → ℕ → Type 0
unfolding find contains
Together none t set = Unit
Together (some ms) t set = (m : ℕ) → contains m ms ≡ true → find m t ≡ some set

assign_call-RefinesAt :
    (set : ℕ) (o : Option (List ℕ)) (t : List (ℕ × ℕ))
    → (t' : List (ℕ × ℕ)) × (assign_matching_set_id_to_msg_id true set o t ≡ done t')
      × Together o t' set
      × RefinesAt set t t'
unfolding assign_matching_set_id_to_msg_id Together RefinesAt
assign_call-RefinesAt set none t = (t, refl, tt, (λ v. v, refl, λ m v h. h))
assign_call-RefinesAt set (some ms) t = assign_all-RefinesAt set ms t

Together-Refines :
    (o : Option (List ℕ)) (t t' : List (ℕ × ℕ)) (set : ℕ) (f : ℕ → ℕ)
    → ((m v : ℕ) → find m t ≡ some v → find m t' ≡ some (f v))
    → Together o t set
    → Together o t' (f set)
unfolding Together
Together-Refines none t t' set f from h = tt
Together-Refines (some ms) t t' set f from h = λ m k. from m set (h m k)

pub Together-same :
    (o : Option (List ℕ)) (t u : List (ℕ × ℕ)) (v : ℕ)
    → ((m : ℕ) → find m t ≡ find m u)
    → Together o t v
    → Together o u v
unfolding Together
Together-same none t u v h k = tt
Together-same (some ms) t u v h k = λ m at. sym (h m) ∙ k m at

-- The walk over the calls ends, keeps messages of one set together, and puts the messages of each call into
-- one set.
pub assign_calls-Refines :
    (calls : List (ℕ × ℕ)) (msgs : List (ℕ × List ℕ)) (t : List (ℕ × ℕ))
    → (t' : List (ℕ × ℕ)) × (assign_calls true calls msgs t ≡ done t')
      × ((call set : ℕ) → find call calls ≡ some set → (v : ℕ) × Together (find call msgs) t' v)
      × Refines t t'
unfolding assign_calls Refines RefinesAt and_then find
assign_calls-Refines [] msgs t = (t, refl, λ call set h. ground arith, (λ v. v, λ m v h. h))
assign_calls-Refines ((call, set) ∷ calls) msgs t =
    let (t1, e1, at1, (f, keep1, from1)) = assign_call-RefinesAt set (find call msgs) t in
    let (t2, e2, at2, (g, from2)) = assign_calls-Refines calls msgs t1 in
    (
      t2,
      rw e1 e2,
      λ c s h. elim (find-cons c call s set calls h) [
        | inl same ↦
            subst (λ k. (v : ℕ) × Together (find k msgs) t2 v) same
              (g set, Together-Refines (find call msgs) t1 t2 set g from2 at1)
        | inr later ↦ at2 c s later
      ],
      (λ v. g (f v), λ m v h. from2 m (f v) (from1 m v h)),
    )

pub Together-find :
    (o : Option (List ℕ)) (ms : List ℕ) (t : List (ℕ × ℕ)) (v m : ℕ)
    → o ≡ some ms
    → Together o t v
    → contains m ms ≡ true
    → find m t ≡ some v
unfolding Together
Together-find none ms t v m e h c = ground arith
Together-find (some ks) ms t v m e h c =
    h m (subst (λ l. contains m l ≡ true) (sym (some_inj.0 e)) c)
