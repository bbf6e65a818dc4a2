-- ===== src/Gate/Control/Dispatch.antt =====
-- What REOMP_CONTROL does with a whole sequence of calls (src/reomp/reomp.cpp).
use re_omp_llvm.Common.{
  ℕ, ◌≡◌, refl, sym, ap, ◌∙◌, ◌≢◌, inl, inr, Bool, true, false, ◌||◌, Option, none, some, List, [],
  ◌∷◌, map, ◌==◌, if◌then◌else◌, arith, Bool-cases,
}
use re_omp_llvm.Gate.Defs.{Mode, recording, replaying, disabled, Result, ok, err}
use re_omp_llvm.Gate.Settings.{Libc, ReompConfig}
use re_omp_llvm.Gate.Control.{
  Call, ReompGate, Gates, Session, Operation, keep, through, reomp_finalize, util_init,
  aft_mpi_init, one_clock, switch, reomp_control, controls, and_then, through_gate, unless_disabled,
}

-- a call of the gate with lock 0 in place of its lock
abbrev pub on_lock_0 : Call → Call
on_lock_0 call =
    if (call.control == 10) || (call.control == 11) then record call { size = 0 } else call

-- No call starts main.
abbrev pub AfterMain : List Call → Type 0
AfterMain [] = Unit {0}
AfterMain (call ∷ calls) = (call.control ≢ 0) × AfterMain calls

-- What a call leaves has these settings.
abbrev pub Kept {ℓ} : {S : Type ℓ} → ReompConfig → Result (Option (Session S)) → Type 0
Kept c (ok (some t)) = t.config ≡ c
Kept c (ok none) = Unit {0}
Kept c (err e) = Unit {0}

module _ {ℓ} {S : Type ℓ} (c : ReompConfig) where
  if-Kept :
      (b : Bool) (r1 r2 : Result (Option (Session S)))
      → (b ≡ true → Kept c r1)
      → Kept c r2
      → Kept c (if b then r1 else r2)
  if-Kept true r1 r2 h k = h refl
  if-Kept false r1 r2 h k = k

  keep-Kept : (s : Session S) (r : Result (Option S)) → s.config ≡ c → Kept c (keep s r)
  keep-Kept s (ok (some t)) h = h
  keep-Kept s (ok none) h = _
  keep-Kept s (err e) h = _

through-Kept {ℓ} :
    {S : Type ℓ} (f : Operation S) (call : Call) (s : Session S) → Kept s.config (through f call s)
unfolding through
through-Kept {S = S} f call s = through_gate-Kept s.gate
  where
    through_gate-Kept : (g : Option (ReompGate S)) → Kept s.config (through_gate f g call s)
    through_gate-Kept none = _
    through_gate-Kept (some g) = keep-Kept s.config s (f g s.config call s.state) refl

util_init-Kept {ℓ} :
    {S : Type ℓ} (mpi_rank : Option ℕ) (c : ReompConfig) (t : Session S)
    → t.config ≡ c
    → Kept c (util_init mpi_rank t)
unfolding util_init
util_init-Kept none c t e = _
util_init-Kept (some rank) c t e = e

-- what is kept by a call is kept by the next
and_then-Kept {ℓ} :
    {S : Type ℓ} (c : ReompConfig) (r : Result (Option (Session S)))
    (f : Session S → Result (Option (Session S)))
    → Kept c r
    → ((t : Session S) → t.config ≡ c → Kept c (f t))
    → Kept c (and_then r f)
and_then-Kept c (ok (some t)) f k h = h t k
and_then-Kept c (ok none) f k h = _
and_then-Kept c (err e) f k h = _

and_then-ext {ℓ} :
    {S : Type ℓ} {c : ReompConfig} {f g : Session S → Result (Option (Session S))}
    (r : Result (Option (Session S)))
    → Kept c r
    → ((t : Session S) → t.config ≡ c → f t ≡ g t)
    → and_then r f ≡ and_then r g
and_then-ext (ok (some t)) k h = h t k
and_then-ext (ok none) k h = refl
and_then-ext (err e) k h = refl

unless_disabled-Kept {ℓ} :
    {S : Type ℓ} (mode : Mode) (s : Session S) (r : Result (Option (Session S)))
    → Kept s.config r
    → Kept s.config (unless_disabled mode s r)
unless_disabled-Kept recording s r k = k
unless_disabled-Kept replaying s r k = k
unless_disabled-Kept disabled s r k = refl

if_same {ℓ} : {A : Type ℓ} (b : Bool) (x : A) → (if b then x else x) ≡ x
if_same true x = refl
if_same false x = refl

one_clock_control {ℓ} :
    {S : Type ℓ} (s : Session S) (call : Call) → (one_clock s call).control ≡ call.control
unfolding one_clock
one_clock_control s call = ground arith

one_clock-on_lock_0 {ℓ} :
    {S : Type ℓ} (s : Session S) (call : Call)
    → s.config.multi_clock ≡ 0
    → one_clock s (on_lock_0 call) ≡ one_clock s call
unfolding one_clock
one_clock-on_lock_0 s call h = elim (Bool-cases ((call.control == 10) || (call.control == 11))) [
  | inl gate ↦ rw (gate, h) (if_same _ _)
  | inr other ↦ rw (other, other) refl
]

module _ {ℓ} {S : Type ℓ} (libc : Libc) (mpi_rank : Option ℕ) (gates : Gates S) where
  control-disabled :
      (call : Call) (s : Session S)
      → s.config.mode ≡ disabled
      → reomp_control libc mpi_rank gates call s ≡ ok (some s)
  unfolding reomp_control
  control-disabled call s h = rw h refl

  -- In a disabled run no sequence of calls, not even of calls with unknown numbers, does anything.
  pub controls-disabled :
      (calls : List Call) (s : Session S)
      → s.config.mode ≡ disabled
      → controls libc mpi_rank gates calls s ≡ ok (some s)
  unfolding controls
  controls-disabled [] s h = refl
  controls-disabled (call ∷ calls) s h =
      rw (control-disabled call s h, controls) (controls-disabled calls s h)

  aft_mpi_init-Kept :
      (call : Call) (s : Session S) → Kept s.config (aft_mpi_init libc mpi_rank gates call s)
  unfolding aft_mpi_init
  aft_mpi_init-Kept call s =
      if-Kept s.config (s.config.method == 2) _ _
        (λ h.
          and_then-Kept s.config (through ReompGate.init call s) (util_init mpi_rank)
            (through-Kept ReompGate.init call s) (util_init-Kept mpi_rank s.config))
        (util_init-Kept mpi_rank s.config s refl)

  switch-Kept :
      (call : Call) (s : Session S)
      → call.control ≢ 0
      → Kept s.config (switch libc mpi_rank gates call s)
  unfolding switch reomp_finalize
  switch-Kept call s ne =
      let c : ℕ = call.control in
      if-Kept s.config (c == 0) _ _ (λ h. absurd (ground (arith, h, ne)))
        (if-Kept s.config (c == 1) _ _ (λ h. through-Kept ReompGate.finalize call s)
          (if-Kept s.config (c == 2) _ _ (λ h. aft_mpi_init-Kept call s)
            (if-Kept s.config (c == 10) _ _ (λ h. through-Kept (λ g. g.enter 1) call s)
              (if-Kept s.config (c == 11) _ _ (λ h. through-Kept (λ g. g.exit 1) call s)
                (if-Kept s.config (c == 12) _ _ (λ h. refl)
                  (if-Kept s.config (c == 13) _ _ (λ h. through-Kept (λ g. g.enter 2) call s)
                    (if-Kept s.config (c == 14) _ _ (λ h. refl)
                      (if-Kept s.config (c == 15) _ _ (λ h. through-Kept (λ g. g.exit 2) call s)
                        (if-Kept s.config (c == 16) _ _ (λ h. through-Kept ReompGate.in_brb call s)
                          (if-Kept s.config (c == 17) _ _
                            (λ h. through-Kept ReompGate.in_arb call s)
                            (if-Kept s.config (c == 18) _ _
                              (λ h. through-Kept ReompGate.out_bre call s)
                              (if-Kept s.config (c == 19) _ _
                                (λ h. through-Kept ReompGate.out_are call s)
                                (if-Kept s.config (c == 50) _ _ (λ h. refl) _)))))))))))))

  control-Kept :
      (call : Call) (s : Session S)
      → call.control ≢ 0
      → Kept s.config (reomp_control libc mpi_rank gates call s)
  unfolding reomp_control
  control-Kept call s ne =
      unless_disabled-Kept s.config.mode s _
        (switch-Kept (one_clock s call) s (λ e. ne (sym (one_clock_control s call) ∙ e)))

  -- Without REOMP_MULTI_CLOCK a call of the gate is one with lock 0.
  control-on_lock_0 :
      (call : Call) (s : Session S)
      → s.config.multi_clock ≡ 0
      → reomp_control libc mpi_rank gates (on_lock_0 call) s
        ≡ reomp_control libc mpi_rank gates call s
  unfolding reomp_control
  control-on_lock_0 call s h =
      ap (λ x. unless_disabled s.config.mode s (switch libc mpi_rank gates x s))
        (one_clock-on_lock_0 s call h)

  -- With REOMP_MULTI_CLOCK not set, a run after the start of main does not depend on the locks that the
  -- calls of REOMP_GATE_IN and REOMP_GATE_OUT name: with lock 0 in each of them it is the same run.
  pub controls-on_lock_0 :
      (calls : List Call) (s : Session S)
      → s.config.multi_clock ≡ 0
      → AfterMain calls
      → controls libc mpi_rank gates (map on_lock_0 calls) s ≡ controls libc mpi_rank gates calls s
  unfolding controls
  controls-on_lock_0 [] s h after = refl
  controls-on_lock_0 (call ∷ calls) s h after =
      ap (λ r. and_then r (controls libc mpi_rank gates (map on_lock_0 calls)))
        (control-on_lock_0 call s h)
      ∙ and_then-ext (reomp_control libc mpi_rank gates call s) (control-Kept call s after.0)
          (λ t k. controls-on_lock_0 calls t (ap (λ c. c.multi_clock) k ∙ h) after.1)
