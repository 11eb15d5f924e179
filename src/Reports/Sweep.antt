-- ===== src/Reports/Sweep.antt =====
-- bench/summarize.py: the summary of repeated sweeps (`sweep`), of the operation mix, and the check
-- that both measured one image (`main`). A file that bench/report.py summarizes is given by its
-- summary; medians are kept doubled, and the rounding of the printed numbers is left out.
pub mod Levels
pub mod Mix
use cachelib_grpc_server.Common.{
  ℕ, zero, suc, ◌+◌, ◌-◌, ◌*◌, ◌/◌, ◌%◌, String, ◌==◌, Bool, true, false, not, Option, none, some,
  List, [], ◌∷◌, ◌++◌, map, ltb, eqb, length, get_elem?, lookup, if◌then◌else◌, Result, ok, err,
  ◌>>=◌, ◌>>◌, raise_if,
}
use cachelib_grpc_server.Campaign.Spec.{sum}
use cachelib_grpc_server.Reports.Latency.{sorted}

pub record Summary : Type 0 where
  pub rps : ℕ
  pub count : ℕ
  pub successes : ℕ
  pub p50 : ℕ
  pub p99 : ℕ
  pub p999 : ℕ

-- The files `c<level>.json` of a repetition.
abbrev pub Repetition : Type 0
Repetition = List (ℕ × Summary)

abbrev pub find : ℕ → Repetition → Option Summary
find c [] = none
find c ((level, s) ∷ files) = let rest = find c files in if eqb level c then some s else rest

-- `levels.add`, on the set in ascending order
abbrev pub add_level : ℕ → List ℕ → List ℕ
add_level n [] = n ∷ []
add_level n (x ∷ xs) =
    let rest = add_level n xs in
    if ltb n x then n ∷ x ∷ xs else if eqb n x then x ∷ xs else x ∷ rest

abbrev pub add_levels : Repetition → List ℕ → List ℕ
add_levels [] levels = levels
add_levels ((level, s) ∷ files) levels = add_level level (add_levels files levels)

abbrev pub levels_of : List Repetition → List ℕ
levels_of [] = []
levels_of (r ∷ reps) = add_levels r (levels_of reps)

abbrev keep {ℓ} : {A : Type ℓ} → Option A → List A → List A
keep none xs = xs
keep (some x) xs = x ∷ xs

-- The summaries of the repetitions that have the level.
abbrev pub runs_at : ℕ → List Repetition → List Summary
runs_at c [] = []
runs_at c (r ∷ reps) = keep (find c r) (runs_at c reps)

abbrev or_zero : Option ℕ → ℕ
or_zero none = 0
or_zero (some n) = n

-- Twice `statistics.median`: twice the middle value, or the sum of the two middle ones.
abbrev pub twice_median : List ℕ → ℕ
twice_median xs =
    let s = sorted xs in
    let n = length s in
    if eqb (n % 2) 1
    then 2 * or_zero (get_elem? s (n / 2))
    else or_zero (get_elem? s (n / 2 - 1)) + or_zero (get_elem? s (n / 2))

pub record Level : Type 0 where
  pub level : ℕ
  pub repetitions : ℕ
  pub twice_rps_median : ℕ
  pub rps_runs : List ℕ
  pub twice_p50_median : ℕ
  pub twice_p99_median : ℕ
  pub twice_p999_median : ℕ
  pub errors : ℕ

abbrev pub level_of : List Repetition → ℕ → Level
level_of reps c =
    let runs = runs_at c reps in
    record {
      level = c;
      repetitions = length runs;
      twice_rps_median = twice_median (map (λ (s : Summary). s.rps) runs);
      rps_runs = map (λ (s : Summary). s.rps) runs;
      twice_p50_median = twice_median (map (λ (s : Summary). s.p50) runs);
      twice_p99_median = twice_median (map (λ (s : Summary). s.p99) runs);
      twice_p999_median = twice_median (map (λ (s : Summary). s.p999) runs);
      errors = sum (map (λ (s : Summary). s.count - s.successes) runs);
    }

abbrev at_levels : List Repetition → List ℕ → Result String (List Level)
at_levels reps [] = err "no cN.json files found"
at_levels reps (c ∷ cs) = ok (map (level_of reps) (c ∷ cs))

unfoldable pub sweep : List Repetition → Result String (List Level)
sweep reps = at_levels reps (levels_of reps)

abbrev pub operations : List String
operations = "get" ∷ "set" ∷ "incr" ∷ "ping" ∷ []

abbrev pub mix_entry : String → Option Summary → Result String (String × Summary)
mix_entry name none = err name
mix_entry name (some s) = ok (name, s)

abbrev pub mix_of : List (String × Summary) → List String → Result String (List (String × Summary))
mix_of files [] = ok []
mix_of files (name ∷ names) = do
  one ← mix_entry name (lookup name files)
  rest ← mix_of files names
  ok (one ∷ rest)

-- `operation_mix`: a missing file is an error that names the operation.
unfoldable pub operation_mix : List (String × Summary) → Result String (List (String × Summary))
operation_mix files = mix_of files operations

pub record Report : Type 0 where
  pub mix : List (String × Summary)
  pub levels : List Level

-- `main`, given the image digests that the two environments name.
unfoldable pub main :
    String → String → List (String × Summary) → List Repetition → Result String Report
unfolding operation_mix sweep
main digest sweep_digest files reps = do
  raise_if (not (digest == sweep_digest)) "the operation mix and the sweep measured two images"
  mix ← operation_mix files
  levels ← sweep reps
  ok (record { mix = mix; levels = levels })
