-- ===== src/Harness/Schedule/Measured.antt =====
-- Which runs of the groups of the two campaigns the harness measures.
use mathlib.Core.List.{Perm, filter_map}
use mathlib.Core.List.Perm
use cachelib_grpc_server.Common.{
  ap, subst, here, there, List, [], ◌∷◌, ◌&&◌, Place-map-inv, Place-concat_map-inv, ℕ, String, ◌≡◌,
  refl, Bool, true, false, ◌++◌, all_b, lookup, Place,
}
use cachelib_grpc_server.Campaign.Spec.{
  kv, Spec, Run, range_from, runs_of_rep, runs_of_case, expected_runs,
}
use cachelib_grpc_server.Campaign.Release.{release_groups}
use cachelib_grpc_server.Campaign.Landscape.{landscape_groups}
use cachelib_grpc_server.Harness.Cases.{all_cases}
use cachelib_grpc_server.Harness.Schedule.{
  is_measured, measured_run, measured, schedule, schedule-perm,
}
use cachelib_grpc_server.Harness.Schedule.Groups.{Launches, groups_launch}

and-true : (a b : Bool) → a && b ≡ true → (a ≡ true) × (b ≡ true)
and-true true b h = (refl, h)
and-true false b h = cc

-- The parts of an expected run.
expected-parts :
    (g : Spec) {r : Run}
    → Place r (expected_runs g)
    → Place r.case g.cases × Place r.engine g.engines
unfolding expected_runs
expected-parts g {r} m =
    let (case, c, m1) = Place-concat_map-inv (runs_of_case g) g.cases m in
    let (rep, k, m2) =
      Place-concat_map-inv (λ rep. runs_of_rep case rep g.engines) (range_from 0 g.reps) m1 in
    let (engine, e, same) = Place-map-inv _ g.engines m2 in
    (
      subst (λ (r : Run). Place r.case g.cases) same c,
      subst (λ (r : Run). Place r.engine g.engines) same e,
    )

all_b-Place {ℓ} :
    {A : Type ℓ} (p : A → Bool) (xs : List A) {a : A} → all_b p xs ≡ true → Place a xs → p a ≡ true
all_b-Place p [] h m = elim m [ ]
all_b-Place p (x ∷ xs) h here = (and-true (p x) (all_b p xs) h).0
all_b-Place p (x ∷ xs) h (there m) = all_b-Place p xs (and-true (p x) (all_b p xs) h).1 m

measured-all :
    (rs : List Run)
    → ((r : Run) → Place r rs → is_measured (lookup r.case all_cases) r.engine ≡ true)
    → measured rs ≡ rs
unfolding filter_map
measured-all [] h = refl
measured-all (r ∷ rs) h = rw (h r here) (ap (λ qs. r ∷ qs) (measured-all rs (λ q m. h q (there m))))

expected-measured :
    (g : Spec)
    → all_b (λ c. all_b (is_measured (lookup c all_cases)) g.engines) g.cases ≡ true
    → measured (expected_runs g) ≡ expected_runs g
expected-measured g h = measured-all (expected_runs g) (λ r m.
    let (c, e) = expected-parts g m in
    all_b-Place (is_measured (lookup r.case all_cases)) g.engines
      (all_b-Place (λ c. all_b (is_measured (lookup c all_cases)) g.engines) g.cases h c) e)

-- Of every KV group of the two campaigns, whatever the shuffling of the engines, as long as it is one,
-- the runs of the schedule that `run_once` does not skip are exactly the runs that the group expects,
-- each as often as it is expected.
pub groups_measured :
    (shuffle : ℕ → List String → List String)
    → ((k : ℕ) (xs : List String) → Perm (shuffle k xs) xs)
    → {g : Spec} → Place g (release_groups ++ landscape_groups)
    → g.kind ≡ kv
    → Perm (measured (schedule shuffle g.cases g.reps g.engines)) (expected_runs g)
groups_measured shuffle shuffles {g} m k =
    let (options, servers, cases) = subst (λ kind. Launches kind g) k (groups_launch m) in
    subst (Perm (measured (schedule shuffle g.cases g.reps g.engines))) (expected-measured g cases)
      (Perm.filter_map measured_run (schedule-perm shuffle shuffles g))
