-- ===== src/Campaign/Runs.antt =====
-- The runs that a group expects, and the size of a campaign.
use native.Mathlib.Decide.{dec_le}
use cachelib_grpc_server.Common.{
  sym, subst, ℕ, zero, suc, ◌+◌, ◌*◌, ◌<◌, ◌≤◌, String, ◌≡◌, refl, ap, List, [], ◌∷◌, map, arith,
  length, length-map, length-concat_map, Place, here, there, Place-map, Place-cons-inv, inl, inr,
  Place-concat_map,
}
use cachelib_grpc_server.Campaign.Spec.{
  Spec, range_from, runs_of_rep, runs_of_case, expected_runs, sum, plan,
}

length-range_from : (i n : ℕ) → length (range_from i n) ≡ n
length-range_from i zero = refl
length-range_from i (suc n) = ap suc (length-range_from (i + 1) n)

length-runs_of_case :
    (spec : Spec) (case : String)
    → length (runs_of_case spec case) ≡ spec.reps * length spec.engines
length-runs_of_case spec case = omega (
  arith,
  length-concat_map (λ rep. runs_of_rep case rep spec.engines) (length spec.engines)
      (λ rep. length-map spec.engines _) (range_from 0 spec.reps),
  ap (λ (t : ℕ). t * length spec.engines) (length-range_from 0 spec.reps),
)

-- Every case is run with every engine in every repetition: the runs of a group are as many as the
-- product says.
pub length-expected_runs :
    (spec : Spec)
    → length (expected_runs spec) ≡ length spec.cases * (spec.reps * length spec.engines)
unfolding expected_runs
length-expected_runs spec =
    length-concat_map (runs_of_case spec) (spec.reps * length spec.engines)
      (length-runs_of_case spec) spec.cases

-- The runs of a group, by its sizes.
abbrev pub group_runs : Spec → ℕ
group_runs g = length g.cases * (g.reps * length g.engines)

-- The plan counts, for every group, the product of its cases, repetitions and engines, and as the
-- least time that many times the seconds of one measurement and its warmup.
pub plan_totals :
    (groups : List Spec)
    → ((plan groups).runs ≡ sum (map group_runs groups))
      × ((plan groups).minimum_timed_seconds
          ≡ sum (map (λ g. group_runs g * (g.seconds + g.warmup)) groups))
unfolding plan
plan_totals [] = (refl, refl)
plan_totals (g ∷ gs) =
    let (runs, seconds) = plan_totals gs in
    let e = length-expected_runs g in
    (omega arith, omega (arith, ap (λ (t : ℕ). t * (g.seconds + g.warmup)) e))

pub Place-range_from : (i n r : ℕ) → i ≤ r → r < i + n → Place r (range_from i n)
Place-range_from i zero r l u = absurd (omega arith)
Place-range_from i (suc n) r l u = elim (dec_le r i) [
  | yes p ↦
      let e : i ≡ r = omega arith in subst (λ k. Place r (k ∷ range_from (i + 1) n)) (sym e) here
  | no p ↦ there (Place-range_from (i + 1) n r (omega arith) (omega arith))
]

pub Place-range_from-inv : (i n r : ℕ) → Place r (range_from i n) → (i ≤ r) × (r < i + n)
Place-range_from-inv i zero r m = elim m [ ]
Place-range_from-inv i (suc n) r m = elim (Place-cons-inv m) [
  | inl e ↦ (omega arith, omega arith)
  | inr p ↦ let (l, u) = Place-range_from-inv (i + 1) n r p in (omega arith, omega arith)
]

-- Every case of a group is expected with each of its engines in each repetition.
pub expected_runs_complete :
    (spec : Spec) {case engine : String} (rep : ℕ)
    → Place case spec.cases
    → rep < spec.reps
    → Place engine spec.engines
    → Place (record { case = case; rep = rep; engine = engine }) (expected_runs spec)
unfolding expected_runs
expected_runs_complete spec {case} {engine} rep c r e =
    Place-concat_map (runs_of_case spec) spec.cases c (
      Place-concat_map (λ k. runs_of_rep case k spec.engines) (range_from 0 spec.reps)
        (Place-range_from 0 spec.reps rep (omega arith) (omega arith))
        (Place-map (λ (x : String). record { case = case; rep = rep; engine = x }) spec.engines e))
