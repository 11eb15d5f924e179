-- ===== src/Tests/Summaries.antt =====
-- Summaries of measurements.
use cachelib_grpc_server.Common.{ℕ, ◌+◌, String, ◌≡◌, refl, List, [], ◌∷◌, ok}
use cachelib_grpc_server.Reports.Latency.{index}
use cachelib_grpc_server.Reports.Sweep.{
  Summary, Repetition, Level, sweep, operation_mix, main, Report,
}

-- Ranks of percentiles, counted from 1. The nearest rank of p90 of ten values is 9. Of 2000 values it
-- is 1998 for p99.9, and of 10000 it is 9999 for p99.99.
p90_of_ten : index 9000 10 + 1 ≡ 10
unfolding index
p90_of_ten = refl

p50_of_eight : index 5000 8 + 1 ≡ 4
unfolding index
p50_of_eight = refl

p999_of_2000 : index 9990 2000 + 1 ≡ 1999
unfolding index
p999_of_2000 = refl

p9999_of_10000 : index 9999 10000 + 1 ≡ 9999
unfolding index
p9999_of_10000 = refl

abbrev run_of : ℕ → Summary
run_of rps = record { rps = rps; count = 100; successes = 100; p50 = 1; p99 = 2; p999 = 3 }

-- The level 800 is measured in one of two repetitions.
abbrev reps : List Repetition
reps = ((1, run_of 10) ∷ (800, run_of 30) ∷ []) ∷ ((8, run_of 20) ∷ (1, run_of 12) ∷ []) ∷ []

swept : (out : List Level) × (sweep reps ≡ ok out)
unfolding sweep
swept = (_, refl)

abbrev files : List (String × Summary)
files = ("set", run_of 1) ∷ ("get", run_of 2) ∷ ("incr", run_of 3) ∷ ("ping", run_of 4) ∷ []

reported : (r : Report) × (main "sha256:a" "sha256:a" files reps ≡ ok r)
unfolding main sweep operation_mix
reported = (_, refl)
