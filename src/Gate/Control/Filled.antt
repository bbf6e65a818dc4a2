-- ===== src/Gate/Control/Filled.antt =====
-- The table reomp_gate_clock of src/reomp/reomp_gate_clock.cpp, and reomp_cgate_finalize: the clock
-- gate as a gate that REOMP_CONTROL dispatches to. What a closed stream has written stays in its file.
use re_omp_llvm.Common.{ℕ, Option, some, List}
use re_omp_llvm.Gate.Defs.{ok, ◌>>=◌}
use re_omp_llvm.Gate.Settings.{ReompConfig}
use re_omp_llvm.Gate.Clock.{Config, Cgate, cgate_init, cgate_in, cgate_out}
use re_omp_llvm.Gate.Reduction.{in_bef_reduce_begin, in_aft_reduce_begin, out_reduce_end}
use re_omp_llvm.Gate.Control.{ReompGate}

module _ (disk : ℕ → Option (List ℕ)) where
  abbrev seen : ReompConfig → Config
  seen config = record { mode = config.mode; disk = disk }

  unfoldable pub clock_gate : ReompGate Cgate
  unfolding cgate_init cgate_in cgate_out in_bef_reduce_begin in_aft_reduce_begin out_reduce_end
  clock_gate = record {
    init = λ config call g. ok (some cgate_init);
    finalize = λ config call g. ok (some g);
    enter = λ lock config call g. cgate_in (seen config) call.num_threads call.tid call.size g;
    exit = λ lock config call g.
        cgate_out (seen config) call.num_threads call.tid call.size g >>= λ g'. ok (some g');
    in_brb = λ config call g. in_bef_reduce_begin (seen config) call.tid g;
    in_arb = λ config call g. in_aft_reduce_begin (seen config) call.tid call.size g;
    out_bre = λ config call g. ok (some g);
    out_are =
        λ config call g. out_reduce_end (seen config) call.tid call.size g >>= λ g'. ok (some g');
  }
