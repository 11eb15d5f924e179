-- ===== src/Matrix/Jobs/Chosen.antt =====
-- Which runs `main` of the matrix starts.
use cachelib_grpc_server.Common.{
  ℕ, String, ◌≡◌, refl, sym, ap, ◌↔◌, inl, inr, Option, List, [], ◌∷◌, map, lookup, Place,
  Place-map, Place-map-inv, Place-concat_map, Place-concat_map-inv, arith, subst, Result, ok,
  Bool-cases,
}
use cachelib_grpc_server.Campaign.Spec.{range_from}
use cachelib_grpc_server.Campaign.Runs.{Place-range_from, Place-range_from-inv}
use cachelib_grpc_server.Matrix.Runs.{Case, cases}
use cachelib_grpc_server.Matrix.Jobs.{
  Job, is_skipped, repetitions, job, jobs_of_case, jobs, run_jobs,
}
use cachelib_grpc_server.Matrix.Jobs.Options.{
  IsAsked, CanRun, IsRepetition, IsRam, is_skipped-CanRun, repetitions-IsRepetition, ram_of-IsRam,
}

abbrev job_with : String → Case → ℕ → ℕ → Job
job_with engine c rep ram = record { engine = engine; of_case = c; rep = rep; ram = ram }

run_jobs-all :
    (run : Job → Result String (Unit {0})) (js : List Job)
    → ((j : Job) → run j ≡ ok tt)
    → (run_jobs run js).0 ≡ js
run_jobs-all run [] h = refl
run_jobs-all run (j ∷ js) h = rw (h j) (ap (λ ks. j ∷ ks) (run_jobs-all run js h))

module _ (level : String) (only : Option String) (rams : List (String × ℕ)) (ram_mb : ℕ) where
  -- A job that the options ask for.
  abbrev pub IsChosen : List String → Job → Type 0
  IsChosen engines j =
      Place j.engine engines
      × Place j.of_case (cases level)
      × IsAsked only j.of_case
      × CanRun j.engine j.of_case
      × IsRepetition level j.of_case j.rep
      × IsRam (lookup j.engine rams) ram_mb j.ram

  -- The part of this that an engine and a workload leave open.
  abbrev Fits : String → Case → Job → Type 0
  Fits engine c j =
      (j.engine ≡ engine)
      × (j.of_case ≡ c)
      × IsAsked only c
      × CanRun engine c
      × IsRepetition level c j.rep
      × IsRam (lookup engine rams) ram_mb j.ram

  chosen-case :
      (j : Job)
      → Fits j.engine j.of_case j
      → Place j (jobs_of_case level only rams ram_mb j.engine j.of_case)
  chosen-case j (e, k, a, can, rep, ram) =
      let runs = (is_skipped-CanRun only j.engine j.of_case).1 (a, can) in
      let l = (repetitions-IsRepetition level j.of_case j.rep).1 rep in
      let same =
        ap (job_with j.engine j.of_case j.rep)
          ((ram_of-IsRam (lookup j.engine rams) ram_mb j.ram).1 ram) in
      rw runs (
        subst
          (λ k. Place k (
            map (job level only rams ram_mb j.engine j.of_case)
              (range_from 0 (repetitions level j.of_case))))
          same
          (Place-map (job level only rams ram_mb j.engine j.of_case) _
            (Place-range_from 0 (repetitions level j.of_case) j.rep (omega arith) (omega arith))))

  case-chosen :
      (engine : String) (c : Case) {j : Job}
      → Place j (jobs_of_case level only rams ram_mb engine c)
      → Fits engine c j
  case-chosen engine c {j} p = elim (Bool-cases (is_skipped only engine c)) [
    | inl s ↦ elim (rw s at p) [ ]
    | inr s ↦
        let (rep, q, e) =
          Place-map-inv (job level only rams ram_mb engine c) (range_from 0 (repetitions level c))
            (rw s at p) in
        let (l, u) = Place-range_from-inv 0 (repetitions level c) rep q in
        let (a, can) = (is_skipped-CanRun only engine c).0 s in
        let again = (repetitions-IsRepetition level c rep).0 (omega arith) in
        subst (Fits engine c) e
          (refl, refl, a, can, again, (ram_of-IsRam (lookup engine rams) ram_mb _).0 refl)
  ]

  Fits-IsChosen :
      (engines : List String) (engine : String) (c : Case) (j : Job)
      → Place engine engines
      → Place c (cases level)
      → Fits engine c j
      → IsChosen engines j
  Fits-IsChosen engines engine c j e p (same, of, a, can, rep, ram) = (
    subst (λ x. Place x engines) (sym same) e,
    subst (λ x. Place x (cases level)) (sym of) p,
    subst (IsAsked only) (sym of) a,
    subst (λ x. CanRun x j.of_case) (sym same) (subst (CanRun engine) (sym of) can),
    subst (λ x. IsRepetition level x j.rep) (sym of) rep,
    subst (λ x. IsRam (lookup x rams) ram_mb j.ram) (sym same) ram,
  )

  jobs-IsChosen' :
      (engines : List String) (j : Job)
      → IsChosen engines j ↔ Place j (jobs level only rams ram_mb engines)
  unfolding jobs
  jobs-IsChosen' engines j = (to, from)
    where
      to : IsChosen engines j → Place j (jobs level only rams ram_mb engines)
      to (e, p, a, can, rep, ram) = Place-concat_map _ engines e (
          Place-concat_map (jobs_of_case level only rams ram_mb j.engine) (cases level) p
            (chosen-case j (refl, refl, a, can, rep, ram)))

      from : Place j (jobs level only rams ram_mb engines) → IsChosen engines j
      from m =
          let (engine, e, m1) = Place-concat_map-inv _ engines m in
          let (c, p, m2) =
            Place-concat_map-inv (jobs_of_case level only rams ram_mb engine) (cases level) m1 in
          Fits-IsChosen engines engine c j e p (case-chosen engine c m2)

  -- Where no run raises, the matrix starts a run exactly when its engine is listed, its workload is one
  -- of the level that is asked for and that the engine can run, its memory is the engine's or else that
  -- of all, and its repetition is the first, or the second of one of the four workloads that the full
  -- matrix repeats.
  pub jobs-IsChosen :
      (run : Job → Result String (Unit {0})) (engines : List String) (j : Job)
      → ((k : Job) → run k ≡ ok tt)
      → IsChosen engines j ↔ Place j (run_jobs run (jobs level only rams ram_mb engines)).0
  jobs-IsChosen run engines j h =
      rw (run_jobs-all run (jobs level only rams ram_mb engines) h) (jobs-IsChosen' engines j)
