-- ===== src/Rempi/Requests/Communicators.antt =====
-- rempi_mpi_comm_get_id and rempi_mpi_get_msg_id of src/rempi/rempi_mpi_init.cpp: numbers for communicators,
-- and one number for a communicator and a tag. MPI keeps the name that was set last.
use mathlib.Core.Option.{some_inj}
use re_omp_llvm.Common.{
  ℕ, ◌+◌, ◌-◌, ◌*◌, ◌%◌, ◌^◌, ◌<◌, ◌≡◌, ◌≢◌, ◌↔◌, refl, sym, ap, ◌∙◌, ap₂, Option, none, some, ltb,
  ◌==◌, if◌then◌else◌, arith,
}
use re_omp_llvm.Rempi.Requests.{Requests, null_communicator, Outcome, done, rempi_err, and_then}
use re_omp_llvm.Rempi.Requests.Table.{find, insert, find-insert}

-- what rempi_mpi_comm_get_id does after its search of named_comm_set
unfoldable pub id_of : (comm : ℕ) → Option ℕ → Requests → ℕ × Requests
unfolding insert
id_of comm (some id) s = (id, s)
id_of comm none s = (
  s.next_comm_id,
  record s {
    comm_names = insert comm s.next_comm_id s.comm_names;
    next_comm_id = (s.next_comm_id + 1) % 2 ^ 32;
  },
)

-- rempi_mpi_comm_get_id
unfoldable pub comm_get_id : (comm : ℕ) → Requests → Outcome (ℕ × Requests)
unfolding find id_of
comm_get_id comm s =
    if comm == 0 then rempi_err null_communicator else done (id_of comm (find comm s.comm_names) s)

-- `id << 32 | tag`: a negative tag is extended by ones, which cover the id
unfoldable pub id_and_tag : (id tag : ℕ) → ℕ
id_and_tag id tag =
    if ltb tag (2 ^ 31) then (id % 2 ^ 32) * 2 ^ 32 + tag else (2 ^ 64 - 2 ^ 32) + tag

-- rempi_mpi_get_msg_id
unfoldable pub get_msg_id : (comm tag : ℕ) → Requests → Outcome (ℕ × Requests)
unfolding comm_get_id id_and_tag and_then
get_msg_id comm tag s = and_then (comm_get_id comm s) (λ (id, s'). done (id_and_tag id tag, s'))

-- Each communicator has a number of its own, below the next one.
unfoldable pub IsNumbered : Requests → Type 0
unfolding find
IsNumbered s =
    ((c id : ℕ) → find c s.comm_names ≡ some id → id < s.next_comm_id)
    × ((c d id : ℕ) → find c s.comm_names ≡ some id → find d s.comm_names ≡ some id → c ≡ d)

pub id_of-IsNumbered :
    (comm : ℕ) (o : Option ℕ) (s : Requests)
    → find comm s.comm_names ≡ o
    → s.next_comm_id < 2 ^ 32 - 1
    → IsNumbered s
    → IsNumbered ((id_of comm o s).1)
unfolding id_of IsNumbered
id_of-IsNumbered comm (some id) s e n w = w
id_of-IsNumbered comm none s e n (below, apart) = (
  λ c id h. ground (arith, find-insert c comm s.next_comm_id s.comm_names, below c id),
  λ c d id h k. ground (
    arith,
    find-insert c comm s.next_comm_id s.comm_names,
    find-insert d comm s.next_comm_id s.comm_names,
    below c id,
    below d id,
    apart c d id,
  ),
)

-- what is known of a communicator after its number was taken
id_of-names :
    (comm : ℕ) (o : Option ℕ) (s : Requests)
    → find comm s.comm_names ≡ o
    → find comm ((id_of comm o s).1).comm_names ≡ some ((id_of comm o s).0)
unfolding id_of
id_of-names comm (some id) s e = e
id_of-names comm none s e = ground (arith, find-insert comm comm s.next_comm_id s.comm_names)

id_of-stable :
    (comm d id : ℕ) (o : Option ℕ) (s : Requests)
    → find comm s.comm_names ≡ o
    → find d s.comm_names ≡ some id
    → find d ((id_of comm o s).1).comm_names ≡ some id
unfolding id_of
id_of-stable comm d id (some i) s e h = h
id_of-stable comm d id none s e h =
    ground (arith, find-insert d comm s.next_comm_id s.comm_names, e, h)

id_of-bound :
    (comm : ℕ) (o : Option ℕ) (s : Requests)
    → find comm s.comm_names ≡ o
    → s.next_comm_id < 2 ^ 32 - 1
    → IsNumbered s
    → ((id_of comm o s).0 < 2 ^ 32) × (((id_of comm o s).1).next_comm_id < 2 ^ 32)
unfolding id_of IsNumbered
id_of-bound comm (some id) s e n (below, apart) = (omega (arith, below comm id e), omega arith)
id_of-bound comm none s e n w = (omega arith, omega arith)

id_of-step :
    (comm : ℕ) (o : Option ℕ) (s : Requests)
    → s.next_comm_id < 2 ^ 32 - 2
    → ((id_of comm o s).1).next_comm_id < 2 ^ 32 - 1
unfolding id_of
id_of-step comm (some id) s n = omega arith
id_of-step comm none s n = omega arith

-- the number and the state that a communicator other than NULL gets
abbrev pub taken : (comm : ℕ) → Requests → ℕ × Requests
unfolding id_of find
taken comm s = id_of comm (find comm s.comm_names) s

pub comm_get_id-taken :
    (comm : ℕ) (s : Requests) → comm ≢ 0 → comm_get_id comm s ≡ done (taken comm s)
unfolding comm_get_id taken
comm_get_id-taken comm s h = ground arith

pub taken-recv :
    (comm : ℕ) (s : Requests) → ((taken comm s).1).request_to_recv_args ≡ s.request_to_recv_args
unfolding taken
taken-recv comm s = kept (find comm s.comm_names)
  where
    kept : (o : Option ℕ) → ((id_of comm o s).1).request_to_recv_args ≡ s.request_to_recv_args
    kept none = unfold id_of in refl
    kept (some id) = unfold id_of in refl

pub get_msg_id-taken :
    (comm tag : ℕ) (s : Requests)
    → comm ≢ 0
    → get_msg_id comm tag s ≡ done (id_and_tag ((taken comm s).0) tag, (taken comm s).1)
unfolding get_msg_id comm_get_id and_then taken
get_msg_id-taken comm tag s h = ground arith

id_and_tag-injective :
    (i j t u : ℕ)
    → i < 2 ^ 32
    → j < 2 ^ 32
    → t < 2 ^ 31
    → u < 2 ^ 31
    → id_and_tag i t ≡ id_and_tag j u
    → (i ≡ j) × (t ≡ u)
unfolding id_and_tag
id_and_tag-injective i j t u hi hj ht hu e = ground arith

-- The numbers of two communicators other than NULL that are taken one after the other are below 2 ^ 32, and
-- are equal only if the communicators are.
taken-apart :
    (c d : ℕ) (s : Requests)
    → s.next_comm_id < 2 ^ 32 - 2
    → IsNumbered s
    → ((taken c s).0 < 2 ^ 32)
      × ((taken d ((taken c s).1)).0 < 2 ^ 32)
      × ((taken c s).0 ≡ (taken d ((taken c s).1)).0 → c ≡ d)
      × (c ≡ d → (taken c s).0 ≡ (taken d ((taken c s).1)).0)
unfolding taken IsNumbered
taken-apart c d s n w =
    let bound_c = id_of-bound c (find c s.comm_names) s refl (omega arith) w in
    let s' : Requests = (taken c s).1 in
    let w' : IsNumbered s' = id_of-IsNumbered c (find c s.comm_names) s refl (omega arith) w in
    let at_c = id_of-names c (find c s.comm_names) s refl in
    let n' : s'.next_comm_id < 2 ^ 32 - 1 = id_of-step c (find c s.comm_names) s n in
    let w'' = id_of-IsNumbered d (find d s'.comm_names) s' refl n' w' in
    let both = id_of-stable d c ((taken c s).0) (find d s'.comm_names) s' refl at_c in
    let at_d = id_of-names d (find d s'.comm_names) s' refl in
    (
      bound_c.0,
      (id_of-bound d (find d s'.comm_names) s' refl n' w').0,
      λ e. w''.1 c d ((taken c s).0) both (at_d ∙ ap some (sym e)),
      λ e. some_inj.0 (sym both ∙ ap (λ k. find k ((taken d s').1).comm_names) e ∙ at_d),
    )

-- The first of two calls for message numbers leaves the state in which the second is made. Where neither
-- communicator is NULL, both return, and for tags below 2 ^ 31 (not negative) the two numbers are equal just
-- when the communicators and the tags are. The names have distinct numbers below the next one, which is below
-- 2 ^ 32 - 2.
pub get_msg_id-injective :
    (c d t u : ℕ) (s : Requests)
    → c ≢ 0
    → d ≢ 0
    → t < 2 ^ 31
    → u < 2 ^ 31
    → s.next_comm_id < 2 ^ 32 - 2
    → IsNumbered s
    → (m : ℕ) × (n : ℕ) × (s' : Requests) × (s'' : Requests) × (get_msg_id c t s ≡ done (m, s'))
      × (get_msg_id d u s' ≡ done (n, s''))
      × ((m ≡ n) ↔ ((c ≡ d) × (t ≡ u)))
unfolding taken
get_msg_id-injective c d t u s hc hd ht hu n w =
    let s' : Requests = (taken c s).1 in
    let (bc, bd, to, from) = taken-apart c d s n w in
    (
      _,
      _,
      _,
      _,
      get_msg_id-taken c t s hc,
      get_msg_id-taken d u s' hd,
      (
        λ e. let (same, tags) = id_and_tag-injective _ _ t u bc bd ht hu e in (to same, tags),
        λ (e, f). ap₂ id_and_tag (from e) f,
      ),
    )
