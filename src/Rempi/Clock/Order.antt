-- ===== src/Rempi/Clock/Order.antt =====
-- The local clock and the clocks of the messages that are received (rempi_clock_sync_clock of
-- src/rempi/rempi_clock.cpp).
use re_omp_llvm.Common.{
  ℕ, zero, suc, ◌+◌, ◌^◌, ◌≤◌, ◌<◌, ◌≡◌, refl, sym, subst, ◌∙◌, Bool, true, false, Option, some,
  List, [], ◌∷◌, length, get_elem?, arith,
}
use re_omp_llvm.Rempi.Clock.{
  recv_request, add_one, sync_clock, index_of, info_at, sync_from, sync_clocks,
}

abbrev pub AllBelow : ℕ → List ℕ → Type 0
AllBelow bound [] = Unit {0}
AllBelow bound (c ∷ cs) = (c ≤ bound) × AllBelow bound cs

AllBelow-suc : (bound : ℕ) (cs : List ℕ) → AllBelow bound cs → AllBelow (bound + 1) cs
AllBelow-suc bound [] h = _
AllBelow-suc bound (c ∷ cs) h = (omega (arith, h.0), AllBelow-suc bound cs h.1)

-- One message moves the clock past its own, and not further than one past both.
sync_clock_lem :
    (clock t local_clock bound : ℕ)
    → clock ≤ bound
    → local_clock ≤ bound
    → bound + 1 < 2 ^ 64
    → (local_clock ≤ sync_clock clock t local_clock)
      × (sync_clock clock t local_clock ≤ bound + 1)
      × (t ≡ recv_request → clock < sync_clock clock t local_clock)
unfolding sync_clock
sync_clock_lem clock t local_clock bound h k few = (ground arith, ground arith, λ e. ground arith)

module _ (indices : Option (List ℕ)) (infos : List ℕ) where
  -- Request `j` of the loop from `i` on is of this type.
  abbrev pub TypeAt : (i j t : ℕ) → Type 0
  TypeAt i j t = info_at infos (index_of indices (i + j)) ≡ some t

  TypeAt-zero : (i t : ℕ) → TypeAt i 0 t → info_at infos (index_of indices i) ≡ some t
  TypeAt-zero i t h = subst (λ k. info_at infos (index_of indices k) ≡ some t) (omega arith) h

  -- `later` is a clock after these messages.
  abbrev pub After : (i local_clock bound later : ℕ) → List ℕ → Type 0
  After i local_clock bound later clocks =
      (local_clock ≤ later)
      × (later ≤ bound)
      × ((j c : ℕ) → get_elem? clocks j ≡ some c → TypeAt i j recv_request → c < later)

  After-first :
      (clock : ℕ) (clocks : List ℕ) (i t local_clock bound later : ℕ)
      → TypeAt i 0 t
      → local_clock ≤ sync_clock clock t local_clock
      → (t ≡ recv_request → clock < sync_clock clock t local_clock)
      → After (i + 1) (sync_clock clock t local_clock) bound later clocks
      → After i local_clock bound later (clock ∷ clocks)
  After-first clock clocks i t local_clock bound later at up past (a, b, rest) =
      (omega (arith, a, up), b, each)
    where
      each : (j c : ℕ) → get_elem? (clock ∷ clocks) j ≡ some c → TypeAt i j recv_request → c < later
      each zero c f g = ground (arith, f, sym at ∙ g, past, a)
      each (suc j) c f g =
          rest j c f
            (subst (λ k. info_at infos (index_of indices k) ≡ some recv_request) (omega arith) g)

  sync_from_lem :
      (clocks : List ℕ) (i local_clock bound : ℕ)
      → AllBelow bound clocks
      → local_clock ≤ bound
      → bound + length clocks < 2 ^ 64
      → ((j : ℕ) → j < length clocks → (t : ℕ) × TypeAt i j t)
      → (later : ℕ) × (sync_from indices infos i clocks local_clock ≡ some later)
        × After i local_clock (bound + length clocks) later clocks
  unfolding sync_from
  sync_from_lem [] i local_clock bound all h few known =
      (local_clock, refl, (omega arith, omega (arith, h), λ j c f g. absurd cc))
  sync_from_lem (clock ∷ clocks) i local_clock bound all h few known =
      let (t, at) = known 0 (omega arith) in
      let (up, below, past) =
        sync_clock_lem clock t local_clock bound all.0 h (omega (arith, few)) in
      let (later, e, (a, b, c)) =
        sync_from_lem clocks (i + 1) (sync_clock clock t local_clock) (bound + 1)
          (AllBelow-suc bound clocks all.1) below (omega (arith, few))
          (λ j lt.
            let (u, k) = known (suc j) (omega (arith, lt)) in
            (u, subst (λ k. info_at infos (index_of indices k) ≡ some u) (omega arith) k)) in
      (
        later,
        rw (TypeAt-zero i t at, sync_from) e,
        After-first clock clocks i t local_clock (bound + length (clock ∷ clocks)) later at up past
            (a, omega (arith, b), c),
      )

-- When the requests of all messages are known and no clock comes near 2 ^ 64, the clocks of a matching
-- call are synchronised: the local clock does not go back, comes to lie above the clock of every message
-- that was received, and passes a bound of all clocks by no more than the number of messages and one.
pub sync_clocks_lem :
    (indices : Option (List ℕ)) (infos : List ℕ) (is_rep : Bool) (clocks : List ℕ)
    (local_clock bound : ℕ)
    → AllBelow bound clocks
    → local_clock ≤ bound
    → bound + length clocks + 1 < 2 ^ 64
    → ((j : ℕ) → j < length clocks → (t : ℕ) × TypeAt indices infos 0 j t)
    → (later : ℕ) × (sync_clocks indices infos is_rep clocks local_clock ≡ some later)
      × After indices infos 0 local_clock (bound + length clocks + 1) later clocks
unfolding sync_clocks
sync_clocks_lem indices infos true [] local_clock bound all h few known =
    (add_one local_clock, refl, (ground arith, ground arith, λ j c f g. absurd cc))
sync_clocks_lem indices infos true (clock ∷ clocks) local_clock bound all h few known =
    let (later, e, (a, b, c)) =
      sync_from_lem indices infos (clock ∷ clocks) 0 local_clock bound all h (omega (arith, few))
        known in
    (later, e, (a, omega (arith, b), c))
sync_clocks_lem indices infos false clocks local_clock bound all h few known =
    let (later, e, (a, b, c)) =
      sync_from_lem indices infos clocks 0 local_clock bound all h (omega (arith, few)) known in
    (later, e, (a, omega (arith, b), c))
