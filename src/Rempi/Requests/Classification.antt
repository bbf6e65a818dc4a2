-- ===== src/Rempi/Requests/Classification.antt =====
-- rempi_reqmg_get_request_info of src/rempi/rempi_request_mg.cpp beside rempi_reqmg_get_request_type.
use re_omp_llvm.Common.{
  ℕ, suc, subst, ◌+◌, ◌≡◌, ◌⊎◌, refl, ap, sym, ◌∙◌, Bool, true, false, if◌then◌else◌, Option, none,
  some, List, [], ◌∷◌, length, arith,
}
use re_omp_llvm.Rempi.Requests.{Requests, RecvArgs, SendArgs, Outcome, done, rempi_err, and_then}
use re_omp_llvm.Rempi.Requests.Table.{find}
use re_omp_llvm.Rempi.Requests.Registration.{
  RequestType, send_request, recv_request, null_request_type, ignr_request, get_request_type,
  type_of,
}
use re_omp_llvm.Rempi.Requests.Kinds.{Counts, no_counts, count_type, info_of, get_info}

-- No request is in both tables.
unfoldable pub IsApart : Requests → Type 0
unfolding find
IsApart s = (r : ℕ) → (find r s.request_to_send_id ≡ none) ⊎ (find r s.request_to_recv_args ≡ none)

-- the answers of rempi_reqmg_get_request_type for each request
unfoldable pub request_types :
    (request_null : ℕ) (requests : List ℕ) → Requests → Outcome (List RequestType)
unfolding get_request_type and_then
request_types request_null [] s = done []
request_types request_null (r ∷ rs) s =
    and_then (get_request_type request_null r s)
      (λ t. and_then (request_types request_null rs s) (λ ts. done (t ∷ ts)))

unfoldable pub tally : List RequestType → Counts → Counts
unfolding count_type
tally [] c = c
tally (t ∷ ts) c = tally ts (count_type t c)

-- what each counter is for
abbrev is_send : RequestType → Bool
is_send send_request = true
is_send _ = false

abbrev is_recv : RequestType → Bool
is_recv recv_request = true
is_recv _ = false

abbrev is_null : RequestType → Bool
is_null null_request_type = true
is_null _ = false

abbrev is_ignored : RequestType → Bool
is_ignored ignr_request = true
is_ignored _ = false

unfoldable pub how_many : (RequestType → Bool) → List RequestType → ℕ
how_many p [] = 0
how_many p (t ∷ ts) = how_many p ts + (if p t then 1 else 0)

-- The counters are the numbers of answers of each kind.
abbrev pub counts_of : List RequestType → Counts
counts_of ts = record {
  sendcount = how_many is_send ts;
  recvcount = how_many is_recv ts;
  nullcount = how_many is_null ts;
  ignore = how_many is_ignored ts;
}

abbrev Counted : (before after : Counts) → List RequestType → Type 0
Counted c d ts =
    (d.sendcount ≡ c.sendcount + how_many is_send ts)
    × (d.recvcount ≡ c.recvcount + how_many is_recv ts)
    × (d.nullcount ≡ c.nullcount + how_many is_null ts)
    × (d.ignore ≡ c.ignore + how_many is_ignored ts)

abbrev pub total : Counts → ℕ
total c = c.sendcount + c.recvcount + c.nullcount + c.ignore

count_type-Counted :
    (t : RequestType) (ts : List RequestType) (c d : Counts)
    → Counted (count_type t c) d ts
    → Counted c d (t ∷ ts)
unfolding count_type how_many
count_type-Counted send_request ts c d (s, r, n, i) =
    (omega (arith, s), omega (arith, r), omega (arith, n), omega (arith, i))
count_type-Counted recv_request ts c d (s, r, n, i) =
    (omega (arith, s), omega (arith, r), omega (arith, n), omega (arith, i))
count_type-Counted null_request_type ts c d (s, r, n, i) =
    (omega (arith, s), omega (arith, r), omega (arith, n), omega (arith, i))
count_type-Counted ignr_request ts c d (s, r, n, i) =
    (omega (arith, s), omega (arith, r), omega (arith, n), omega (arith, i))

tally-Counted : (ts : List RequestType) (c : Counts) → Counted c (tally ts c) ts
unfolding tally how_many
tally-Counted [] c = (omega arith, omega arith, omega arith, omega arith)
tally-Counted (t ∷ ts) c =
    count_type-Counted t ts c (tally ts (count_type t c)) (tally-Counted ts (count_type t c))

tally-counts_of : (ts : List RequestType) → tally ts no_counts ≡ counts_of ts
tally-counts_of ts =
    let k = tally-Counted ts no_counts in
    same_counts (tally ts no_counts) (omega (arith, k.0)) (omega (arith, k.1)) (omega (arith, k.2))
      (omega (arith, k.3))
  where
    same_counts :
        (d : Counts)
        → d.sendcount ≡ how_many is_send ts
        → d.recvcount ≡ how_many is_recv ts
        → d.nullcount ≡ how_many is_null ts
        → d.ignore ≡ how_many is_ignored ts
        → d ≡ counts_of ts
    same_counts d s r n i = cc

info_of-type_of :
    (request_null r : ℕ) (o : Option SendArgs) (p : Option RecvArgs)
    → (o ≡ none) ⊎ (p ≡ none)
    → info_of false request_null r o p ≡ type_of request_null r o p
unfolding info_of type_of
info_of-type_of n r none none h = refl
info_of-type_of n r none (some b) h = refl
info_of-type_of n r (some a) none h = refl
info_of-type_of n r (some a) (some b) h = ground arith

and_then_assoc :
    {A B C : Type 0} (o : Outcome A) (f : A → Outcome B) (g : B → Outcome C)
    → and_then (and_then o f) g ≡ and_then o (λ a. and_then (f a) g)
unfolding and_then
and_then_assoc (done a) f g = refl
and_then_assoc (rempi_err e) f g = refl

and_then_same :
    {A B : Type 0} (o : Outcome A) (f g : A → Outcome B)
    → ((a : A) → f a ≡ g a)
    → and_then o f ≡ and_then o g
unfolding and_then
and_then_same (done a) f g h = h a
and_then_same (rempi_err e) f g h = refl

get_info-request_types :
    (request_null : ℕ) (rs : List ℕ) (c : Counts) (s : Requests)
    → IsApart s
    → get_info false request_null rs c s
      ≡ and_then (request_types request_null rs s) (λ ts. done (ts, tally ts c))
unfolding get_info get_request_type IsApart request_types tally and_then
get_info-request_types n [] c s h = refl
get_info-request_types n (r ∷ rs) c s h =
    let types : Outcome (List RequestType) = request_types n rs s in
    let answer : Outcome RequestType = get_request_type n r s in
    let put : RequestType → List RequestType × Counts → Outcome (List RequestType × Counts) =
      λ t (ts, c'). done (t ∷ ts, c') in
    ap (λ o. and_then o (λ t. and_then (get_info false n rs (count_type t c) s) (put t)))
      (info_of-type_of n r (find r s.request_to_send_id) (find r s.request_to_recv_args) (h r))
    ∙ and_then_same answer (λ t. and_then (get_info false n rs (count_type t c) s) (put t))
        (λ t. and_then (and_then types (λ ts. done (t ∷ ts))) (λ ts. done (ts, tally ts c)))
        (λ t.
          ap (λ o. and_then o (put t)) (get_info-request_types n rs (count_type t c) s h)
          ∙ and_then_assoc types (λ ts. done (ts, tally ts (count_type t c))) (put t)
          ∙ sym (and_then_assoc types (λ ts. done (t ∷ ts)) (λ ts. done (ts, tally ts c))))
    ∙ sym (
        and_then_assoc answer (λ t. and_then types (λ ts. done (t ∷ ts)))
          (λ ts. done (ts, tally ts c)))

count_type-total : (t : RequestType) (c : Counts) → total (count_type t c) ≡ total c + 1
unfolding count_type
count_type-total send_request c = omega arith
count_type-total recv_request c = omega arith
count_type-total null_request_type c = omega arith
count_type-total ignr_request c = omega arith

tally-total : (ts : List RequestType) (c : Counts) → total (tally ts c) ≡ total c + length ts
unfolding tally
tally-total [] c = omega arith
tally-total (t ∷ ts) c = omega (arith, tally-total ts (count_type t c), count_type-total t c)

-- There are as many answers as requests.
abbrev HasLength : ℕ → Outcome (List RequestType) → Type 0
HasLength n (done ts) = length ts ≡ n
HasLength n (rempi_err e) = Unit

request_types-HasLength :
    (request_null : ℕ) (rs : List ℕ) (s : Requests)
    → HasLength (length rs) (request_types request_null rs s)
unfolding request_types
request_types-HasLength n [] s = refl
request_types-HasLength n (r ∷ rs) s =
    add_answer (get_request_type n r s) (request_types n rs s) (request_types-HasLength n rs s)
  where
    add_answer :
        (o : Outcome RequestType) (p : Outcome (List RequestType))
        → HasLength (length rs) p
        → HasLength (suc (length rs)) (and_then o (λ t. and_then p (λ ts. done (t ∷ ts))))
    add_answer (rempi_err e) p h = unfold and_then in tt
    add_answer (done t) (rempi_err e) h = unfold and_then in tt
    add_answer (done t) (done ts) h = unfold and_then in ap suc h

-- In a build that takes unknown requests, where no request is in both tables, the loop of
-- rempi_reqmg_get_request_info gives each request what rempi_reqmg_get_request_type says of it, ends the
-- process with the error of the first request for which that does, and its counters are the numbers of
-- the answers send, receive, null and ignored among these; the four add up to the number of requests,
-- which is what its assertion asks of them.
pub get_info_lem :
    (request_null : ℕ) (requests : List ℕ) (s : Requests)
    → IsApart s
    → (get_info false request_null requests no_counts s
        ≡ and_then (request_types request_null requests s) (λ ts. done (ts, counts_of ts)))
      × ((ts : List RequestType)
          → request_types request_null requests s ≡ done ts
          → total (counts_of ts) ≡ length requests)
unfolding IsApart
get_info_lem n rs s h = (
  get_info-request_types n rs no_counts s h
      ∙ and_then_same (request_types n rs s) (λ ts. done (ts, tally ts no_counts))
          (λ ts. done (ts, counts_of ts)) (λ ts. ap (λ c. done (ts, c)) (tally-counts_of ts)),
  λ ts e.
      let long : length ts ≡ length rs =
        subst (HasLength (length rs)) e (request_types-HasLength n rs s) in
      ap total (sym (tally-counts_of ts)) ∙ omega (arith, tally-total ts no_counts, long),
)
