-- ===== src/Harness/Schedule.antt =====
-- bench/strong/run_strong.py: what `main` checks before a measurement, and the order in which it
-- measures.
pub mod Groups
pub mod Measured
use Prim.Native.Char.{code}
use mathlib.Core.List.{Perm, filter_map}
use mathlib.Core.List.Perm
use cachelib_grpc_server.Common.{
  ℕ, zero, suc, ◌+◌, ◌*◌, String, ◌==◌, ◌≡◌, refl, Bool, true, false, not, ◌&&◌, ◌||◌, List, [],
  ◌∷◌, ◌++◌, map, ltb, all_b, is_some, Option, none, some, if◌then◌else◌, elem, concat_map, lookup,
  Result, ok, err, ◌>>=◌, ◌>>◌, raise_if,
}
use cachelib_grpc_server.Campaign.Spec.{
  Spec, Run, range_from, runs_of_rep, runs_of_case, expected_runs,
}
use cachelib_grpc_server.Harness.Cases.{Case, all_cases}
use cachelib_grpc_server.Harness.RunOnce.{is_skipped}
use cachelib_grpc_server.Harness.Engines.{images}

pub data UsageError : Type 0 where
  invalid_numbers unknown_case unknown_engine too_few_cpus : UsageError

pub record Options : Type 0 where
  pub engines : List String
  pub cases : List String
  pub reps : ℕ
  pub seconds : ℕ
  pub warmup : ℕ
  pub cache_mb : ℕ
  pub memory_mb : ℕ

abbrev is_known_engine : String → Bool
is_known_engine e = (e == "grpc") || ((e == "grpc_nvm") || is_some (lookup e images))

unfoldable pub check_options : Options → ℕ → Result UsageError (Unit {0})
check_options o ncpu = do
  raise_if (ltb o.reps 1 || (ltb o.seconds 1 || (ltb o.warmup 1 || ltb o.memory_mb o.cache_mb)))
      invalid_numbers
  raise_if (not (all_b (λ c. is_some (lookup c all_cases)) o.cases)) unknown_case
  raise_if (not (all_b is_known_engine o.engines)) unknown_engine
  raise_if (ltb ncpu 8) too_few_cpus
  ok tt

abbrev sum_codes : String → ℕ
sum_codes String.[] = 0
sum_codes (String.◌∷◌ c s) = code c + sum_codes s

abbrev seed : String → ℕ → ℕ
seed case repeat = 20260923 + repeat * 101 + sum_codes case

-- `random.Random(seed).shuffle`, as a function of the seed and the list.
module _ (shuffle : ℕ → List String → List String) where
  abbrev round : List String → String → ℕ → List Run
  round engines case repeat = runs_of_rep case repeat (shuffle (seed case repeat) engines)

  unfoldable pub schedule : List String → ℕ → List String → List Run
  schedule cases reps engines =
      concat_map (λ case. concat_map (λ r. round engines case r) (range_from 0 reps)) cases

-- Whether `run_once` measures a run: it returns at once where the engine skips the case.
abbrev pub is_measured : Option Case → String → Bool
is_measured none engine = false
is_measured (some c) engine = not (is_skipped engine c)

abbrev pub measured_run : Run → Option Run
measured_run r = if is_measured (lookup r.case all_cases) r.engine then some r else none

-- The runs of a schedule that are measured, in order.
abbrev pub measured : List Run → List Run
measured = filter_map measured_run

-- Lists that are permutations of one another, element by element, stay so when laid end to end.
pub concat_map-perm {ℓ κ} :
    {A : Type ℓ} {B : Type κ} (f g : A → List B)
    → ((a : A) → Perm (f a) (g a))
    → (xs : List A) → Perm (concat_map f xs) (concat_map g xs)
concat_map-perm f g h [] = Perm.refl []
concat_map-perm f g h (x ∷ xs) = Perm.append (h x) (concat_map-perm f g h xs)

-- Whatever the shuffling of the engines, as long as it is one, the schedule has exactly the runs that
-- the group's definition expects, each as often as it is expected.
pub schedule-perm :
    (shuffle : ℕ → List String → List String)
    → ((k : ℕ) (xs : List String) → Perm (shuffle k xs) xs)
    → (spec : Spec) → Perm (schedule shuffle spec.cases spec.reps spec.engines) (expected_runs spec)
unfolding schedule expected_runs
schedule-perm shuffle shuffles spec =
    concat_map-perm _ (runs_of_case spec)
      (λ case.
        concat_map-perm _ _ (λ r. Perm.map _ (shuffles (seed case r) spec.engines))
          (range_from 0 spec.reps))
      spec.cases
