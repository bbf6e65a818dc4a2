-- ===== src/Gate/Clock/Nesting.antt =====
-- Re-entrant gates (reomp_cgate_filter_reentry_in and _out of src/reomp/reomp_gate_clock.cpp).
use mathlib.Core.Path.{fun_ext}
use re_omp_llvm.Common.{ℕ, ◌+◌, ◌-◌, ◌%◌, ◌^◌, ◌<◌, ◌≡◌, some, true, update, arith, ap, ◌∙◌}
use re_omp_llvm.Gate.Defs.{ok, incr32}
use re_omp_llvm.Gate.Clock.{is_pos32, Config, Cgate, ticket_wait, leave}

-- the inner `out` only takes the nesting depth down
nested_out :
    (c : Config) (tid l : ℕ) (g : Cgate)
    → 1 < g.nest_num tid
    → g.nest_num tid < 2 ^ 31
    → leave c tid l g ≡ ok (record g { nest_num = update g.nest_num tid (g.nest_num tid - 1) })
unfolding leave
nested_out c tid l g deep small = rw (depth, positive, leave)
  where
    positive : is_pos32 (g.nest_num tid - 1) ≡ true
    positive = ground arith

    depth : (g.nest_num tid + 2 ^ 32 - 1) % 2 ^ 32 ≡ g.nest_num tid - 1
    depth = omega arith

-- A thread that is inside a gate, fewer than 2 ^ 31 - 1 deep, passes any further gate without waiting,
-- and when it has left that gate, under whatever lock, the state is the one from before: no clock,
-- lock or file has changed.
pub nested_passage :
    (c : Config) (tid l l' : ℕ) (g : Cgate)
    → 0 < g.nest_num tid
    → g.nest_num tid + 1 < 2 ^ 31
    → (g' : Cgate) × (ticket_wait c tid l g ≡ ok (some g')) × (leave c tid l' g' ≡ ok g)
unfolding ticket_wait leave
nested_passage c tid l l' g inside small =
    (record g { nest_num = update g.nest_num tid (incr32 (g.nest_num tid)) }, ground arith, out)
  where
    deeper : Cgate
    deeper = record g { nest_num = update g.nest_num tid (incr32 (g.nest_num tid)) }

    out : leave c tid l' deeper ≡ ok g
    out =
        nested_out c tid l' deeper (ground arith) (ground arith)
        ∙ ap (λ f. ok (record g { nest_num = f })) (fun_ext λ j. ground arith)
