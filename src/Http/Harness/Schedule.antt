-- ===== src/Http/Harness/Schedule.antt =====
-- bench/strong/run_http.py: the workloads (`CASES`), and the order in which `main` measures.
pub mod Groups
use mathlib.Core.List.{Perm}
use mathlib.Core.List.Perm
use cachelib_grpc_server.Common.{
  ℕ, ◌+◌, ◌*◌, String, ◌==◌, Bool, true, false, Option, none, some, List, [], ◌∷◌, ◌++◌, length,
  is_some, all_b, concat_map, lookup, ltb, not, if◌then◌else◌, Result, ok, err, ◌>>=◌, ◌>>◌,
  raise_if,
}
use cachelib_grpc_server.Campaign.Spec.{Run, range_from, runs_of_rep}

pub record Case : Type 0 where
  pub size : ℕ
  pub objects : ℕ
  pub concurrency : ℕ
  pub pattern_name : String

abbrev case : ℕ → ℕ → ℕ → String → Case
case size objects concurrency pattern_name = record {
  size = size;
  objects = objects;
  concurrency = concurrency;
  pattern_name = pattern_name;
}

abbrev pub all_cases : List (String × Case)
all_cases =
    ("repeated_256k_c8", case 262144 64 8 "repeated")
    ∷ ("repeated_1m_c8", case 1048576 32 8 "repeated")
    ∷ ("recent_replay_256k_c8", case 262144 64 8 "recent_replay")
    ∷ ("onepass_256k_c8", case 262144 64 8 "one_pass")
    ∷ []

pub data UsageError : Type 0 where
  unknown_case stale_adapter too_few_cpus : UsageError

-- What `main` checks: the workloads, the adapter's hash in the image against the source's, the CPUs.
unfoldable pub check_options : List String → String → String → ℕ → Result UsageError (Unit {0})
check_options cases image_adapter_hash adapter_hash ncpu = do
  raise_if (not (all_b (λ c. is_some (lookup c all_cases)) cases)) unknown_case
  raise_if (not (image_adapter_hash == adapter_hash)) stale_adapter
  raise_if (ltb ncpu 8) too_few_cpus
  ok tt

abbrev is_one_pass : Option Case → Bool
is_one_pass none = false
is_one_pass (some c) = c.pattern_name == "one_pass"

-- The engines of a workload: the origin itself only where every request misses.
abbrev pub engines_of : String → List String
engines_of c =
    ("nginx" ∷ "grpc_adapter" ∷ [])
    ++ (if is_one_pass (lookup c all_cases) then "origin_direct" ∷ [] else [])

abbrev text_length : String → ℕ
text_length String.[] = 0
text_length (String.◌∷◌ c s) = 1 + text_length s

abbrev pub seed : String → ℕ → ℕ
seed c repeat = 20260923 + repeat * 17 + text_length c

-- `random.Random(seed).shuffle`, as a function of the seed and the list.
module _ (shuffle : ℕ → List String → List String) where
  unfoldable pub schedule : List String → ℕ → List Run
  schedule cases reps =
      concat_map
        (λ c.
          concat_map (λ r. runs_of_rep c r (shuffle (seed c r) (engines_of c))) (range_from 0 reps))
        cases
