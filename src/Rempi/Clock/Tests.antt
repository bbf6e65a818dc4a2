-- ===== src/Rempi/Clock/Tests.antt =====
-- Three messages at a matching call, and the theorem about the clock at them.
use re_omp_llvm.Common.{ℕ, zero, suc, ◌<◌, ◌≡◌, refl, true, Option, some, List, [], ◌∷◌, arith}
use re_omp_llvm.Rempi.Clock.{sync_clock, sync_from, sync_clocks}
use re_omp_llvm.Rempi.Clock.Order.{After, TypeAt, sync_clocks_lem}

-- the requests 2, 0 and 1 were matched; request 0 was a send
abbrev matched : Option (List ℕ)
matched = some (2 ∷ 0 ∷ 1 ∷ [])

abbrev types : List ℕ
types = 151 ∷ 152 ∷ 152 ∷ []

abbrev message_clocks : List ℕ
message_clocks = 30 ∷ 99 ∷ 12 ∷ []

clock_after : sync_clocks matched types true message_clocks 10 ≡ some 32
unfolding sync_clocks sync_from sync_clock
clock_after = refl

types_known : (j : ℕ) → j < 3 → (t : ℕ) × TypeAt matched types 0 j t
types_known zero h = (152, refl)
types_known (suc zero) h = (151, refl)
types_known (suc (suc zero)) h = (152, refl)
types_known (suc (suc (suc j))) h = absurd (omega (arith, h))

sync_clocks_lem_example :
    (later : ℕ) × (sync_clocks matched types true message_clocks 10 ≡ some later)
    × After matched types 0 10 103 later message_clocks
sync_clocks_lem_example =
    sync_clocks_lem matched types true message_clocks 10 99
      (omega arith, (omega arith, (omega arith, _))) (omega arith) (omega arith) types_known
