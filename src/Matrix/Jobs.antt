-- ===== src/Matrix/Jobs.antt =====
-- bench/investigation/run_matrix.py: the runs that `main` starts, in order.
pub mod Options
pub mod Chosen
use cachelib_grpc_server.Common.{
  ℕ, String, ◌==◌, Bool, true, false, not, ◌&&◌, ◌||◌, Option, none, some, List, [], ◌∷◌, map, ltb,
  elem, starts_with, if◌then◌else◌, insert, lookup, concat_map, Result, ok, err,
}
use cachelib_grpc_server.Campaign.Spec.{range_from}
use cachelib_grpc_server.Matrix.Runs.{Case, cases}

pub record Job : Type 0 where
  pub engine : String
  pub of_case : Case
  pub rep : ℕ
  pub ram : ℕ

-- `--ram-map`, whose entries are split already: of two entries of an engine the last counts.
abbrev pub ram_map : List (String × ℕ) → List (String × ℕ) → List (String × ℕ)
ram_map so_far [] = so_far
ram_map so_far ((engine, mb) ∷ entries) = ram_map (insert engine mb so_far) entries

-- `ram_map.get(engine, args.ram_mb)`
abbrev pub ram_of : ℕ → Option ℕ → ℕ
ram_of ram_mb none = ram_mb
ram_of ram_mb (some mb) = mb

-- `args.case and case[0] != args.case`: an empty name selects all.
abbrev pub is_other : Option String → String → Bool
is_other none label = false
is_other (some only) label = not (only == "") && not (label == only)

-- Whether one of the three tests of the loop skips the case.
unfoldable pub is_skipped : Option String → String → Case → Bool
is_skipped only engine c =
    is_other only c.label
    || ((starts_with "pipeline_" c.label && not (starts_with "grpc" engine))
        || ((engine == "memcached_extstore") && ltb c.size 2048))

abbrev pub repeated : List String
repeated = "hit_1k_c1" ∷ "origin_skew_64k" ∷ "origin_uniform_64k" ∷ "steady_uniform_64k" ∷ []

abbrev pub repetitions : String → Case → ℕ
repetitions level c = if (level == "matrix") && elem c.label repeated then 2 else 1

module _ (level : String) (only : Option String) (rams : List (String × ℕ)) (ram_mb : ℕ) where
  abbrev pub job : String → Case → ℕ → Job
  job engine c rep = record {
    engine = engine;
    of_case = c;
    rep = rep;
    ram = ram_of ram_mb (lookup engine rams);
  }

  abbrev pub jobs_of_case : String → Case → List Job
  jobs_of_case engine c =
      if is_skipped only engine c
      then []
      else map (job engine c) (range_from 0 (repetitions level c))

  unfoldable pub jobs : List String → List Job
  jobs engines = concat_map (λ engine. concat_map (jobs_of_case engine) (cases level)) engines

-- One round of the loop, before what the next rounds would do: an exception ends the loop.
abbrev pub then_jobs :
    Job
    → Result String (Unit {0})
    → List Job × Result String (Unit {0})
    → List Job × Result String (Unit {0})
then_jobs j (ok a) (started, r) = (j ∷ started, r)
then_jobs j (err e) rest = (j ∷ [], err e)

-- The jobs that were started, and how the loop ended.
abbrev pub run_jobs :
    (Job → Result String (Unit {0})) → List Job → List Job × Result String (Unit {0})
run_jobs run [] = ([], ok tt)
run_jobs run (j ∷ js) = then_jobs j (run j) (run_jobs run js)
