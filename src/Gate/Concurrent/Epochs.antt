-- ===== src/Gate/Concurrent/Epochs.antt =====
-- The tickets that the concurrent gate records on one lock: an access that follows a change of kind
-- has a ticket that is not below the clock of the change.
use re_omp_llvm.Common.{
  ℕ, zero, suc, ◌+◌, ◌-◌, ◌%◌, ◌^◌, ◌≤◌, ◌<◌, ◌≡◌, ◌≢◌, refl, sym, ap, ◌∙◌, subst, false, ◌||◌,
  List, [], ◌∷◌, length, update, update_ne, leb, ◌==◌, ==_iff, Bool-cases, ◌⊎◌, inl, inr, arith,
}
use re_omp_llvm.Gate.Defs.{incr32}
use re_omp_llvm.Gate.Clock.{cgate_init}
use re_omp_llvm.Gate.Concurrent.{
  Ccgate, previous_size, type_null, is_load, is_store, count_same, test_consecutive,
  set_consecutive, reset_consecutive, out_locked, NextStore, unknown, no_store, a_store, settle,
  epoch_of, signed_gt,
}

-- What happens on a lock in record mode: a thread leaves the gate under the lock with an access of a
-- kind, or it resets an old entry some time later.
pub data Op : Type 0 where
  access : (kind : ℕ) → Op
  reset : (clock : ℕ) → Op

-- The gate, and for each clock the kind of its access and the count that was taken.
pub record Log : Type 0 where
  pub state : Ccgate
  pub kinds : ℕ → ℕ
  pub counts : ℕ → ℕ

module _ (l : ℕ) where
  unfoldable pub log_op : Op → Log → Log
  unfolding out_locked reset_consecutive
  log_op (access kind) g =
      let ((clock, count), s) = out_locked kind l g.state in
      record { state = s; kinds = update g.kinds clock kind; counts = update g.counts clock count }
  log_op (reset clock) g = record g { state = reset_consecutive clock l g.state }

  unfoldable pub log_ops : List Op → Log → Log
  log_ops [] g = g
  log_ops (o ∷ ops) g = log_ops ops (log_op o g)

-- The start of a run: the memory of the kinds is not initialised.
abbrev pub unlogged : (ℕ → ℕ → ℕ) → Log
unlogged garbage = record {
  state = record { gate = cgate_init; previous = garbage };
  kinds = λ _. type_null;
  counts = λ _. 0;
}

-- Each entry that is counted holds the kind.
counted :
    (n i clock kind : ℕ) (kinds : ℕ → ℕ) (t : ℕ)
    → i ≤ t
    → t < i + count_same n i clock kind kinds
    → kinds ((clock + previous_size - t) % previous_size) ≡ kind
unfolding count_same
counted zero i clock kind kinds t h1 h2 = absurd (omega arith)
counted (suc n) i clock kind kinds t h1 h2 =
    elim (Bool-cases (kinds ((clock + previous_size - i) % previous_size) == kind)) [
      | inl same ↦ elim (Bool-cases (i == t)) [
        | inl here ↦
            subst (λ t. kinds ((clock + previous_size - t) % previous_size) ≡ kind)
              ((==_iff i t).0 here)
              ((==_iff (kinds ((clock + previous_size - i) % previous_size)) kind).0 same)
        | inr there ↦ counted n (i + 1) clock kind kinds t (ground arith) (ground arith)
      ]
      | inr differ ↦ absurd (ground arith)
    ]

count_same-le : (n i clock kind : ℕ) (kinds : ℕ → ℕ) → count_same n i clock kind kinds ≤ n
unfolding count_same
count_same-le zero i clock kind kinds = omega arith
count_same-le (suc n) i clock kind kinds = ground (arith, count_same-le n (i + 1) clock kind kinds)

test_consecutive-le : (clock kind l : ℕ) (s : Ccgate) → test_consecutive clock kind l s ≤ 10
unfolding test_consecutive
test_consecutive-le clock kind l s = ground (arith, count_same-le 10 1 clock kind (s.previous l))

-- What holds on the lock after every step: the entries of the last accesses are theirs or were reset,
-- and a count does not reach over a change of kind.
record Inv (l : ℕ) (g : Log) (k : ℕ) : Type 0 where
  clock : g.state.gate.current_clocks l ≡ k
  recent :
      (j : ℕ)
      → j < k
      → k ≤ j + 11
      → (g.state.previous l (j % previous_size) ≡ g.kinds j)
        ⊎ (g.state.previous l (j % previous_size) ≡ type_null)
  few : (j : ℕ) → g.counts j ≤ 10
  floor : (s j : ℕ) → 0 < s → s ≤ j → j < k → g.kinds (s - 1) ≢ g.kinds s → g.counts j + s ≤ j

module _ (l kind : ℕ) (s : Ccgate) where
  -- the state after an access
  abbrev accessed : Ccgate
  accessed = set_consecutive (s.gate.current_clocks l) kind l (record s {
    gate = record (s.gate) {
      current_clocks = update s.gate.current_clocks l (incr32 (s.gate.current_clocks l));
    };
  })

  accessed_clock : (accessed).gate.current_clocks l ≡ incr32 (s.gate.current_clocks l)
  unfolding set_consecutive
  accessed_clock = ground arith

  accessed_previous :
      (i : ℕ)
      → (accessed).previous l i
        ≡ update (s.previous l) (s.gate.current_clocks l % previous_size) kind i
  unfolding set_consecutive
  accessed_previous i = ground arith

  -- A counted access is of a kind that is no type_null.
  test_count :
      (t : ℕ)
      → 1 ≤ t
      → t ≤ test_consecutive (s.gate.current_clocks l) kind l accessed
      → (t ≤ 10)
        × ((accessed).previous l ((s.gate.current_clocks l + previous_size - t) % previous_size)
            ≡ kind)
        × (0 < kind)
  unfolding test_consecutive
  test_count t h1 h2 = elim (Bool-cases (is_load kind || is_store kind)) [
    | inl is_access ↦
        let n : ℕ = count_same 10 1 (s.gate.current_clocks l) kind ((accessed).previous l) in
        let eq : test_consecutive (s.gate.current_clocks l) kind l accessed ≡ n = ground arith in
        let le = count_same-le 10 1 (s.gate.current_clocks l) kind ((accessed).previous l) in
        (
          omega (arith, eq, h2, le),
          counted 10 1 (s.gate.current_clocks l) kind ((accessed).previous l) t h1
              (omega (arith, eq, h2)),
          ground arith,
        )
    | inr other ↦ absurd (ground arith)
  ]

module _ (l kind : ℕ) (g : Log) (k : ℕ) (inv : Inv l g k) where
  -- what the count of a new access says about an access before it
  seen :
      (i : ℕ)
      → i < k
      → k ≤ i + test_consecutive (g.state.gate.current_clocks l) kind l (accessed l kind g.state)
      → g.kinds i ≡ kind
  seen i h1 h2 =
      let (le, slot, pos) = test_count l kind g.state (k - i) (omega arith) (omega arith) in
      let index : (g.state.gate.current_clocks l + previous_size - (k - i)) % previous_size
          ≡ i % previous_size =
        omega (arith, inv.clock, h1, le) in
      let elsewhere : g.state.gate.current_clocks l % previous_size ≢ i % previous_size =
        λ e. omega (arith, inv.clock, h1, le, e) in
      let old : g.state.previous l (i % previous_size) ≡ kind =
        sym (
          update_ne (g.state.previous l) (g.state.gate.current_clocks l % previous_size)
            (i % previous_size) kind elsewhere)
        ∙ sym (accessed_previous l kind g.state (i % previous_size))
        ∙ ap ((accessed l kind g.state).previous l) (sym index)
        ∙ slot in
      elim (inv.recent i h1 (omega (arith, le))) [
        | inl same ↦ sym same ∙ old
        | inr null ↦ absurd (omega (arith, null, old, pos))
      ]

  logged : Log
  logged = record {
    state = accessed l kind g.state;
    kinds = update g.kinds k kind;
    counts =
        update g.counts k
          (test_consecutive (g.state.gate.current_clocks l) kind l (accessed l kind g.state));
  }

  logged_eq : log_op l (access kind) g ≡ logged
  unfolding log_op out_locked logged
  logged_eq =
      ap
        (λ c. record {
          state = accessed l kind g.state;
          kinds = update g.kinds c kind;
          counts =
              update g.counts c
                (test_consecutive (g.state.gate.current_clocks l) kind l (accessed l kind g.state));
        })
        inv.clock

  new_floor :
      (s : ℕ)
      → 0 < s
      → s ≤ k
      → update g.kinds k kind (s - 1) ≢ update g.kinds k kind s
      → test_consecutive (g.state.gate.current_clocks l) kind l (accessed l kind g.state) + s ≤ k
  new_floor s h1 h2 ne =
      elim (Bool-cases (
        leb (test_consecutive (g.state.gate.current_clocks l) kind l (accessed l kind g.state) + s)
          k)) [
            | inl ok ↦ ground arith
            | inr more ↦
                let before : g.kinds (s - 1) ≡ kind = seen (s - 1) (omega arith) (ground arith) in
                absurd (elim (Bool-cases (k == s)) [
                  | inl last ↦ ne (ground (arith, before))
                  | inr earlier ↦
                      let at : g.kinds s ≡ kind = seen s (ground arith) (ground arith) in
                      ne (ground (arith, before, at))
                ])
          ]

  logged_recent :
      (j : ℕ)
      → j < k + 1
      → k + 1 ≤ j + 11
      → (accessed l kind g.state).previous l (j % previous_size) ≡ update g.kinds k kind j
        ⊎ ((accessed l kind g.state).previous l (j % previous_size) ≡ type_null)
  logged_recent j h1 h2 = elim (Bool-cases (k == j)) [
    | inl new ↦
        inl (ground (arith, inv.clock, accessed_previous l kind g.state (j % previous_size)))
    | inr old ↦
        let elsewhere : g.state.gate.current_clocks l % previous_size ≢ j % previous_size =
          λ e. ground (arith, inv.clock, e) in
        let same =
          accessed_previous l kind g.state (j % previous_size)
          ∙ update_ne (g.state.previous l) (g.state.gate.current_clocks l % previous_size)
              (j % previous_size) kind elsewhere in
        elim (inv.recent j (ground arith) (ground arith)) [
          | inl h ↦ inl (ground (arith, same, h))
          | inr h ↦ inr (same ∙ h)
        ]
  ]

  logged-Inv : k + 1 < 2 ^ 31 → Inv l logged (k + 1)
  unfolding logged
  logged-Inv small = record {
    clock = omega (arith, accessed_clock l kind g.state, inv.clock);
    recent = logged_recent;
    few = λ j. ground (
      arith,
      inv.few j,
      test_consecutive-le (g.state.gate.current_clocks l) kind l (accessed l kind g.state),
    );
    floor = λ s j h1 h2 h3 ne. elim (Bool-cases (k == j)) [
      | inl new ↦ ground (arith, new_floor s h1 (ground arith) ne)
      | inr old ↦ ground (arith, inv.floor s j h1 h2 (ground arith) (λ e. ne (ground (arith, e))))
    ];
  }

  access-Inv : k + 1 < 2 ^ 31 → Inv l (log_op l (access kind) g) (k + 1)
  access-Inv small = subst (λ g. Inv l g (k + 1)) (sym logged_eq) (logged-Inv small)

reset-Inv : (l clock : ℕ) (g : Log) (k : ℕ) → Inv l g k → Inv l (log_op l (reset clock) g) k
unfolding log_op reset_consecutive
reset-Inv l clock g k inv = record {
  clock = inv.clock;
  recent = λ j h1 h2. ground (arith, inv.recent j h1 h2);
  few = inv.few;
  floor = inv.floor;
}

log_ops-Inv :
    (l : ℕ) (ops : List Op) (g : Log) (k : ℕ)
    → k + length ops < 2 ^ 31
    → Inv l g k
    → (k' : ℕ) × Inv l (log_ops l ops g) k' × (k' < 2 ^ 31)
unfolding log_ops
log_ops-Inv l [] g k small inv = (k, inv, omega arith)
log_ops-Inv l (access kind ∷ ops) g k small inv =
    log_ops-Inv l ops (log_op l (access kind) g) (k + 1) (omega arith)
      (access-Inv l kind g k inv (omega arith))
log_ops-Inv l (reset clock ∷ ops) g k small inv =
    log_ops-Inv l ops (log_op l (reset clock) g) k (omega arith) (reset-Inv l clock g k inv)

-- The ticket of each access of a log, when `next` is what its thread sees of the access after it.
abbrev pub tickets : Log → (ℕ → NextStore) → ℕ → ℕ
tickets g next j = epoch_of j (settle (g.kinds j) (g.counts j) (next j))

settle-le : (kind count : ℕ) (next : NextStore) → settle kind count next ≤ count
unfolding settle
settle-le kind count unknown = ground arith
settle-le kind count no_store = ground arith
settle-le kind count a_store = omega arith

-- the invariant of a log from its start
logged_so_far :
    (l : ℕ) (garbage : ℕ → ℕ → ℕ) (ops : List Op)
    → length ops < 2 ^ 31
    → let g = log_ops l ops (unlogged garbage) in (k : ℕ) × Inv l g k × (k < 2 ^ 31)
unfolding cgate_init
logged_so_far l garbage ops small = log_ops-Inv l ops (unlogged garbage) 0 (omega arith) (record {
  clock = refl;
  recent = λ j h. absurd (omega arith);
  few = λ j. omega arith;
  floor = λ s j h1 h2 h3. absurd (omega arith);
})

pub clock_bound :
    (l : ℕ) (garbage : ℕ → ℕ → ℕ) (ops : List Op)
    → length ops < 2 ^ 31
    → (log_ops l ops (unlogged garbage)).state.gate.current_clocks l < 2 ^ 31
clock_bound l garbage ops small =
    let (k, inv, bound) = logged_so_far l garbage ops small in omega (arith, inv.clock)

-- A ticket is not above its clock, as an `int`.
pub ticket_passes :
    (l : ℕ) (garbage : ℕ → ℕ → ℕ) (ops : List Op) (next : ℕ → NextStore) (j clock : ℕ)
    → length ops < 2 ^ 31
    → j ≤ clock
    → clock < 2 ^ 31
    → signed_gt (tickets (log_ops l ops (unlogged garbage)) next j) clock ≡ false
unfolding epoch_of
ticket_passes l garbage ops next j clock small h1 h2 =
    let g : Log = log_ops l ops (unlogged garbage) in
    let (k, inv, bound) = logged_so_far l garbage ops small in
    let le : settle (g.kinds j) (g.counts j) (next j) ≤ 10 =
      omega (arith, settle-le (g.kinds j) (g.counts j) (next j), inv.few j) in
    ground (arith, le)

-- In record mode, after fewer than 2 ^ 31 accesses and resets on a lock, in any order, from memory
-- with any contents: where the kind of the access at clock `s` is not that of the one before it, every
-- access from clock `s` on has a ticket of at least `s` and at most its clock, whatever its thread
-- sees of the next access.
pub tickets_after_change :
    (l : ℕ) (garbage : ℕ → ℕ → ℕ) (ops : List Op) (next : ℕ → NextStore) (s j : ℕ)
    → length ops < 2 ^ 31
    → let g = log_ops l ops (unlogged garbage) in
      0 < s
      → s ≤ j
      → j < g.state.gate.current_clocks l
      → g.kinds (s - 1) ≢ g.kinds s
      → (s ≤ tickets g next j) × (tickets g next j ≤ j)
unfolding epoch_of
tickets_after_change l garbage ops next s j small h1 h2 h3 ne =
    let g : Log = log_ops l ops (unlogged garbage) in
    let (k, inv, bound) = logged_so_far l garbage ops small in
    omega (
      arith,
      inv.clock,
      inv.floor s j h1 h2 (omega (arith, inv.clock)) ne,
      settle-le (g.kinds j) (g.counts j) (next j),
    )
