-- ===== src/Http/Harness/Schedule/Groups.antt =====
-- The HTTP groups of the two campaigns, as the HTTP harness takes them: it is not told the engines.
use mathlib.Core.List.{Perm}
use mathlib.Core.List.Perm
use cachelib_grpc_server.Common.{
  ℕ, String, ◌≡◌, List, [], ◌∷◌, ◌++◌, concat_map, Place, All, All-place, All-append,
}
use cachelib_grpc_server.Campaign.Spec.{
  Kind, kv, http, Spec, range_from, runs_of_rep, runs_of_case, expected_runs,
}
use cachelib_grpc_server.Campaign.Release.{release_groups}
use cachelib_grpc_server.Campaign.Landscape.{landscape_groups}
use cachelib_grpc_server.Harness.Schedule.{concat_map-perm}
use cachelib_grpc_server.Http.Harness.Schedule.{engines_of, seed, schedule}

-- Every workload of the group is measured with the group's engines.
abbrev pub Matches : Kind → Spec → Type 0
Matches kv g = Unit
Matches http g = All (λ c. Perm (engines_of c) g.engines) g.cases

cached : Perm {A = String} ("nginx" ∷ "grpc_adapter" ∷ []) ("grpc_adapter" ∷ "nginx" ∷ [])
cached = Perm.swap "grpc_adapter" "nginx" []

direct :
    Perm {A = String}
      ("nginx" ∷ "grpc_adapter" ∷ "origin_direct" ∷ [])
      ("grpc_adapter" ∷ "nginx" ∷ "origin_direct" ∷ [])
direct = Perm.swap "grpc_adapter" "nginx" ("origin_direct" ∷ [])

release-Matches : All (λ (g : Spec). Matches g.kind g) release_groups
release-Matches = (
  tt,
  (
    tt,
    (
      tt,
      (
        tt,
        (
          tt,
          (
            (cached, tt),
            (tt, (tt, (tt, (tt, (tt, (tt, (tt, ((cached, (cached, tt)), ((direct, tt), tt))))))))),
          ),
        ),
      ),
    ),
  ),
)

landscape-Matches : All (λ (g : Spec). Matches g.kind g) landscape_groups
landscape-Matches = (
  tt,
  (
    tt,
    (
      tt,
      (
        tt,
        (
          tt,
          (
            tt,
            (
              tt,
              (
                tt,
                (
                  tt,
                  (
                    tt,
                    (
                      tt,
                      (
                        tt,
                        (
                          (cached, tt),
                          (
                            tt,
                            (
                              tt,
                              (
                                tt,
                                (
                                  tt,
                                  (
                                    tt,
                                    (tt, (tt, (tt, ((cached, (cached, tt)), ((direct, tt), tt))))),
                                  ),
                                ),
                              ),
                            ),
                          ),
                        ),
                      ),
                    ),
                  ),
                ),
              ),
            ),
          ),
        ),
      ),
    ),
  ),
)

groups_match : {g : Spec} → Place g (release_groups ++ landscape_groups) → Matches g.kind g
groups_match m =
    All-place (λ (g : Spec). Matches g.kind g) (release_groups ++ landscape_groups)
      (All-append (λ (g : Spec). Matches g.kind g) release_groups landscape_groups release-Matches
        landscape-Matches)
      m

module _ (shuffle : ℕ → List String → List String)
    (shuffles : (k : ℕ) (xs : List String) → Perm (shuffle k xs) xs) where
  case_schedule :
      (g : Spec) (c : String)
      → Perm (engines_of c) g.engines
      → Perm
          (concat_map
            (λ r. runs_of_rep c r (shuffle (seed c r) (engines_of c)))
            (range_from 0 g.reps))
          (runs_of_case g c)
  case_schedule g c h =
      concat_map-perm _ _ (λ r. Perm.map _ (Perm.trans (shuffles (seed c r) (engines_of c)) h))
        (range_from 0 g.reps)

  cases_schedule :
      (g : Spec) (cs : List String)
      → All (λ c. Perm (engines_of c) g.engines) cs
      → Perm (schedule shuffle cs g.reps) (concat_map (runs_of_case g) cs)
  unfolding schedule
  cases_schedule g [] h = Perm.refl []
  cases_schedule g (c ∷ cs) h = Perm.append (case_schedule g c h.0) (cases_schedule g cs h.1)

  of_kind :
      (k : Kind) (g : Spec)
      → k ≡ http
      → Matches k g
      → Perm (schedule shuffle g.cases g.reps) (expected_runs g)
  unfolding expected_runs
  of_kind kv g e h = cc
  of_kind http g e h = cases_schedule g g.cases h

-- For every HTTP group of the two campaigns, and whatever the shuffling: the harness, which chooses
-- the engines by the workload, measures exactly the runs that the group's definition expects, each as
-- often as it is expected.
pub groups_schedule :
    (shuffle : ℕ → List String → List String)
    → ((k : ℕ) (xs : List String) → Perm (shuffle k xs) xs)
    → {g : Spec} → Place g (release_groups ++ landscape_groups)
    → g.kind ≡ http
    → Perm (schedule shuffle g.cases g.reps) (expected_runs g)
groups_schedule shuffle shuffles {g} m e = of_kind shuffle shuffles g.kind g e (groups_match m)
