-- ===== src/Gate/Concurrent/Together.antt =====
-- A replay of the accesses of one lock by their recorded tickets: many can be inside together, and
-- the accesses before a change of kind are over when one after it gets in.
use re_omp_llvm.Common.{
  ℕ, zero, suc, ◌+◌, ◌-◌, ◌^◌, ◌≤◌, ◌<◌, ◌≡◌, ◌≢◌, refl, sym, ap, ◌∙◌, subst, Bool, true, false,
  ◌&&◌, not, none, some, List, [], ◌∷◌, length, update, ltb, leb, ◌==◌, ==_iff, Bool-cases,
  if◌then◌else◌, ◌⊎◌, inl, inr, arith,
}
use re_omp_llvm.Gate.Clock.{Cgate, cgate_init, spinning}
use re_omp_llvm.Gate.Concurrent.{cc_in_pass, out_replay, signed_gt, NextStore}
use re_omp_llvm.Gate.Concurrent.Epochs.{
  Op, Log, log_ops, unlogged, tickets, tickets_after_change, clock_bound, ticket_passes,
}

-- An access is named by the clock that it had in the record run.
pub data Move : Type 0 where
  enter : (tid j : ℕ) → Move
  leave : (j : ℕ) → Move

pub record Replay : Type 0 where
  pub gate : Cgate
  pub entered : ℕ → Bool
  pub left : ℕ → Bool

module _ (l total : ℕ) (ticket : ℕ → ℕ) where
  -- An access enters once, if its ticket lets it pass, and leaves once.
  unfoldable pub move : Move → Replay → Replay
  unfolding out_replay cc_in_pass
  move (enter tid j) r =
      if ltb j total && not (r.entered j)
      then elim (cc_in_pass tid l (spinning (ticket j)) r.gate) [
        | none ↦ r
        | some g ↦ record r { gate = g; entered = update r.entered j true }
      ]
      else r
  move (leave j) r =
      if r.entered j && not (r.left j)
      then record r { gate = out_replay l r.gate; left = update r.left j true }
      else r

  unfoldable pub moves : List Move → Replay → Replay
  moves [] r = r
  moves (m ∷ ms) r = moves ms (move m r)

abbrev pub outside : Replay
outside = record { gate = cgate_init; entered = λ _. false; left = λ _. false }

ltb_of : (a b : ℕ) → a < b → ltb a b ≡ true
ltb_of a b h = ground arith

-- how many of the first numbers are in a set
count_true : (ℕ → Bool) → ℕ → ℕ
count_true f zero = 0
count_true f (suc n) = if f n then suc (count_true f n) else count_true f n

count_true-le : (f : ℕ → Bool) (n : ℕ) → count_true f n ≤ n
unfolding count_true
count_true-le f zero = omega arith
count_true-le f (suc n) = ground (arith, count_true-le f n)

count_true_full : (f : ℕ → Bool) (n j : ℕ) → n ≤ count_true f n → j < n → f j ≡ true
unfolding count_true
count_true_full f zero j h1 h2 = absurd (omega arith)
count_true_full f (suc n) j h1 h2 = elim (Bool-cases (f n)) [
  | inl counts ↦ elim (Bool-cases (n == j)) [
    | inl last ↦ subst (λ k. f k ≡ true) ((==_iff n j).0 last) counts
    | inr earlier ↦ count_true_full f n j (ground arith) (ground arith)
  ]
  | inr skips ↦ absurd (ground (arith, count_true-le f n))
]

count_true_none : (n : ℕ) → count_true (λ _. false) n ≡ 0
unfolding count_true
count_true_none zero = refl
count_true_none (suc n) = count_true_none n

count_true_above :
    (f : ℕ → Bool) (s d : ℕ)
    → ((j : ℕ) → s ≤ j → f j ≡ false)
    → count_true f (d + s) ≡ count_true f s
unfolding count_true
count_true_above f s zero h = ap (count_true f) (omega arith)
count_true_above f s (suc d) h =
    ap (count_true f) {y = suc (d + s)} (omega arith)
    ∙ ground (arith, count_true_above f s d h, h (d + s) (omega arith))

count_true_ext :
    (f g : ℕ → Bool) (n : ℕ) → ((j : ℕ) → j < n → f j ≡ g j) → count_true f n ≡ count_true g n
unfolding count_true
count_true_ext f g zero h = refl
count_true_ext f g (suc n) h =
    ground (arith, count_true_ext f g n (λ j lt. h j (omega arith)), h n (omega arith))

count_true-update :
    (f : ℕ → Bool) (n j : ℕ)
    → f j ≡ false
    → j < n
    → count_true (update f j true) n ≡ suc (count_true f n)
unfolding count_true
count_true-update f zero j h1 h2 = absurd (omega arith)
count_true-update f (suc n) j h1 h2 = elim (Bool-cases (j == n)) [
  | inl last ↦ ground (arith, count_true_ext (update f j true) f n (λ i lt. ground arith))
  | inr earlier ↦ ground (arith, count_true-update f n j h1 (ground arith))
]

module _ (l total s : ℕ) (ticket : ℕ → ℕ) where
  -- Either nothing from `s` on has entered, or everything before `s` has left.
  record Inv (r : Replay) : Type 0 where
    clock : r.gate.current_clocks l ≡ count_true r.left total
    known : (j : ℕ) → r.entered j ≡ true → j < total
    inside : (j : ℕ) → r.left j ≡ true → r.entered j ≡ true
    parted : ((j : ℕ) → s ≤ j → r.entered j ≡ false) ⊎ ((j : ℕ) → j < s → r.left j ≡ true)

  module _ (small : total < 2 ^ 31)
      (floor : (j : ℕ) → s ≤ j → j < total → (s ≤ ticket j) × (ticket j ≤ j)) (r : Replay)
      (inv : Inv r) where
    -- When an access from `s` on can pass, everything before `s` has left.
    over :
        (j : ℕ)
        → s ≤ j
        → j < total
        → signed_gt (ticket j) (r.gate.current_clocks l) ≡ false
        → (i : ℕ) → i < s
        → r.left i ≡ true
    over j h1 h2 pass = elim (inv.parted) [
      | inr done ↦ done
      | inl none_yet ↦
          let le = count_true-le r.left total in
          let reached : s ≤ count_true r.left total =
            ground (arith, floor j h1 h2, inv.clock, le, pass) in
          let none_left : (i : ℕ) → s ≤ i → r.left i ≡ false =
            λ i h. ground (arith, none_yet i h, inv.inside i) in
          let same : count_true r.left total ≡ count_true r.left s =
            ap (count_true r.left) {y = (total - s) + s} (omega arith)
            ∙ count_true_above r.left s (total - s) none_left in
          λ i lt. count_true_full r.left s i (omega arith) lt
    ]

    enter-Inv : (tid j : ℕ) → Inv (move l total ticket (enter tid j) r)
    unfolding move cc_in_pass
    enter-Inv tid j = elim (Bool-cases (ltb j total && not (r.entered j))) [
      | inr shut ↦ rw shut inv
      | inl new ↦ elim (Bool-cases (signed_gt (ticket j) (r.gate.current_clocks l))) [
        | inl early ↦ rw (new, early) inv
        | inr pass ↦
            rw (new, pass)
              (record {
                clock = inv.clock;
                known = λ i h. ground (arith, inv.known i);
                inside = λ i h. ground (arith, inv.inside i h);
                parted = elim (Bool-cases (leb s j)) [
                  | inl after ↦ inr (over j (ground arith) (ground arith) pass)
                  | inr before ↦ elim (inv.parted) [
                    | inr done ↦ inr done
                    | inl none_yet ↦ inl (λ i h. ground (arith, none_yet i h))
                  ]
                ];
              })
      ]
    ]

    leave-Inv : (j : ℕ) → Inv (move l total ticket (leave j) r)
    unfolding move out_replay
    leave-Inv j = elim (Bool-cases (r.entered j && not (r.left j))) [
      | inr shut ↦ rw shut inv
      | inl goes ↦ rw goes (record {
        clock = ground (
          arith,
          inv.clock,
          count_true-le r.left total,
          count_true-update r.left total j (ground arith) (inv.known j (ground arith)),
        );
        known = inv.known;
        inside = λ i h. ground (arith, inv.inside i);
        parted = elim (inv.parted) [
          | inr done ↦ inr (λ i h. ground (arith, done i h))
          | inl none_yet ↦ inl none_yet
        ];
      })
    ]

    move-Inv : (m : Move) → Inv (move l total ticket m r)
    move-Inv (enter tid j) = enter-Inv tid j
    move-Inv (leave j) = leave-Inv j

  moves-Inv :
      (total < 2 ^ 31)
      → ((j : ℕ) → s ≤ j → j < total → (s ≤ ticket j) × (ticket j ≤ j))
      → (ms : List Move) (r : Replay) → Inv r
      → Inv (moves l total ticket ms r)
  unfolding moves
  moves-Inv small floor [] r inv = inv
  moves-Inv small floor (m ∷ ms) r inv =
      moves-Inv small floor ms (move l total ticket m r) (move-Inv small floor r inv m)

  outside-Inv : Inv outside
  unfolding cgate_init
  outside-Inv = record {
    clock = sym (count_true_none total);
    known = λ j h. ground arith;
    inside = λ j h. ground arith;
    parted = inl (λ j h. refl);
  }

-- The first access that has not left.
first_left :
    (left : ℕ → Bool) (j : ℕ)
    → left j ≡ false
    → (i : ℕ) × (i ≤ j) × (left i ≡ false) × ((k : ℕ) → k < i → left k ≡ true)
first_left left j h = from j 0 (omega arith) (λ k lt. absurd (omega arith))
  where
    from :
        (fuel i : ℕ)
        → i + fuel ≡ j
        → ((k : ℕ) → k < i → left k ≡ true)
        → (i : ℕ) × (i ≤ j) × (left i ≡ false) × ((k : ℕ) → k < i → left k ≡ true)
    from zero i e before = (i, omega arith, ap left (omega arith) ∙ h, before)
    from (suc fuel) i e before = elim (Bool-cases (left i)) [
      | inr out ↦ (i, omega arith, out, before)
      | inl gone ↦ from fuel (i + 1) (omega arith) (λ k lt. elim (Bool-cases (k == i)) [
        | inl here ↦ ap left ((==_iff k i).0 here) ∙ gone
        | inr below ↦ before k (ground arith)
      ])
    ]

count_true_reaches :
    (f : ℕ → Bool) (n i : ℕ) → i ≤ n → ((k : ℕ) → k < i → f k ≡ true) → i ≤ count_true f n
unfolding count_true
count_true_reaches f zero i h before = omega arith
count_true_reaches f (suc n) i h before = elim (Bool-cases (i == suc n)) [
  | inl all ↦ ground (
    arith,
    count_true_reaches f n n (omega arith) (λ k lt. before k (ground arith)),
    before n (ground arith),
  )
  | inr less ↦ ground (arith, count_true_reaches f n i (ground arith) before)
]

module _ (l : ℕ) (garbage : ℕ → ℕ → ℕ) (ops : List Op) (next : ℕ → NextStore) where
  -- the accesses that a record run made, and a replay of them
  abbrev pub log : Log
  log = log_ops l ops (unlogged garbage)

  abbrev pub replay : List Move → Replay
  replay ms = moves l (log.state.gate.current_clocks l) (tickets log next) ms outside

  -- A record run on a lock, from memory with any contents, makes fewer than 2 ^ 31 accesses and
  -- resets, in any order, and each thread may see anything of the access after its own. If the kind
  -- of the access at clock `s` is not that of the one before it, then in a replay, whatever the order
  -- of moves: once an access from clock `s` on is inside, every access before `s` has left.
  pub conflict_order :
      (s j i : ℕ) (ms : List Move)
      → length ops < 2 ^ 31
      → 0 < s
      → s ≤ j
      → log.kinds (s - 1) ≢ log.kinds s
      → (replay ms).entered j ≡ true
      → i < s
      → (replay ms).left i ≡ true
  conflict_order s j i ms small h1 h2 ne here before =
      let total : ℕ = log.state.gate.current_clocks l in
      let floor : (j : ℕ)
          → s ≤ j
          → j < total
          → (s ≤ tickets log next j) × (tickets log next j ≤ j) =
        λ j h h'. tickets_after_change l garbage ops next s j small h1 h h' ne in
      let inv =
        moves-Inv l total s (tickets log next) (clock_bound l garbage ops small) floor ms outside
          (outside-Inv l total s (tickets log next)) in
      elim (inv.parted) [
        | inr done ↦ done i before
        | inl none_yet ↦ absurd (ground (arith, none_yet j h2))
      ]

  -- A replay of fewer than 2 ^ 31 accesses and resets never gets stuck: as long as an access `j` of the
  -- record run has not left, there is one at or before `j` that is inside, or that gets inside when its
  -- thread tries, whichever thread that is.
  pub replay_progress :
      (j : ℕ) (ms : List Move)
      → length ops < 2 ^ 31
      → j < log.state.gate.current_clocks l
      → (replay ms).left j ≡ false
      → (i : ℕ) × (i ≤ j)
        × ((replay ms).left i ≡ false)
        × (((replay ms).entered i ≡ true)
            ⊎ ((tid : ℕ)
                → ((replay ms).entered i ≡ false)
                  × ((move l
                          (log.state.gate.current_clocks l)
                          (tickets log next)
                          (enter tid i)
                          (replay ms)).entered
                        i
                      ≡ true)))
  unfolding move cc_in_pass
  replay_progress j ms small h h' =
      let total : ℕ = log.state.gate.current_clocks l in
      let bound = clock_bound l garbage ops small in
      let inv =
        moves-Inv l total total (tickets log next) bound (λ j h h'. absurd (omega arith)) ms outside
          (outside-Inv l total total (tickets log next)) in
      let (i, le, out, before) = first_left (replay ms).left j h' in
      let reached = count_true_reaches (replay ms).left total i (omega arith) before in
      let most = count_true-le (replay ms).left total in
      let pass =
        ticket_passes l garbage ops next i ((replay ms).gate.current_clocks l) small
          (omega (arith, inv.clock)) (omega (arith, inv.clock)) in
      (
        i,
        le,
        out,
        elim (Bool-cases ((replay ms).entered i)) [
          | inl here ↦ inl here
          | inr not_yet ↦
              inr
                (λ tid. (not_yet, rw (ltb_of i total (omega arith), not_yet, pass) (ground arith)))
        ],
      )
