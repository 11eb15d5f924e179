-- ===== src/Harness/Schedule/Groups.antt =====
-- The groups of the two campaigns, as the harness takes them.
use cachelib_grpc_server.Common.{
  ℕ, ◌≡◌, refl, Bool, true, false, Option, none, some, ◌++◌, all_b, Result, ok, err, lookup, Place,
  All, All-place, All-append,
}
use cachelib_grpc_server.Campaign.Spec.{Kind, kv, http, Spec}
use cachelib_grpc_server.Campaign.Release.{release_groups}
use cachelib_grpc_server.Campaign.Landscape.{landscape_groups}
use cachelib_grpc_server.Harness.Cases.{all_cases}
use cachelib_grpc_server.Harness.Engines.{server_arguments}
use cachelib_grpc_server.Harness.RunOnce.{is_skipped}
use cachelib_grpc_server.Harness.Schedule.{Options, check_options, is_measured}

abbrev pub options_of : Spec → Options
options_of g = record {
  engines = g.engines;
  cases = g.cases;
  reps = g.reps;
  seconds = g.seconds;
  warmup = g.warmup;
  cache_mb = g.cache_mb;
  memory_mb = g.memory_mb;
}

-- The file budget that the harness uses: the group's, or 512 MiB by default.
abbrev pub flash_of : Option ℕ → ℕ
flash_of none = 512
flash_of (some n) = n

abbrev is_ok {ℓ κ} : {E : Type ℓ} {A : Type κ} → Result E A → Bool
is_ok (ok a) = true
is_ok (err e) = false

-- A KV group that the harness runs as it stands: its options pass the checks, each engine starts at
-- the group's budgets, and no engine skips a case.
abbrev pub Launches : Kind → Spec → Type 0
Launches http g = Unit
Launches kv g =
    (check_options (options_of g) 8 ≡ ok tt)
    × (all_b (λ e. is_ok (server_arguments e g.cache_mb (flash_of g.flash_mb))) g.engines ≡ true)
    × (all_b (λ c. all_b (is_measured (lookup c all_cases)) g.engines) g.cases ≡ true)

release_launch : All (λ (g : Spec). Launches g.kind g) release_groups
unfolding check_options server_arguments is_skipped
release_launch = (
  (refl, refl, refl),
  (
    (refl, refl, refl),
    (
      (refl, refl, refl),
      (
        (refl, refl, refl),
        (
          (refl, refl, refl),
          (
            tt,
            (
              (refl, refl, refl),
              (
                (refl, refl, refl),
                (
                  (refl, refl, refl),
                  (
                    (refl, refl, refl),
                    (
                      (refl, refl, refl),
                      ((refl, refl, refl), ((refl, refl, refl), (tt, (tt, tt)))),
                    ),
                  ),
                ),
              ),
            ),
          ),
        ),
      ),
    ),
  ),
)

landscape_launch : All (λ (g : Spec). Launches g.kind g) landscape_groups
unfolding check_options server_arguments is_skipped
landscape_launch = (
  (refl, refl, refl),
  (
    (refl, refl, refl),
    (
      (refl, refl, refl),
      (
        (refl, refl, refl),
        (
          (refl, refl, refl),
          (
            (refl, refl, refl),
            (
              (refl, refl, refl),
              (
                (refl, refl, refl),
                (
                  (refl, refl, refl),
                  (
                    (refl, refl, refl),
                    (
                      (refl, refl, refl),
                      (
                        (refl, refl, refl),
                        (
                          tt,
                          (
                            (refl, refl, refl),
                            (
                              (refl, refl, refl),
                              (
                                (refl, refl, refl),
                                (
                                  (refl, refl, refl),
                                  (
                                    (refl, refl, refl),
                                    (
                                      (refl, refl, refl),
                                      ((refl, refl, refl), ((refl, refl, refl), (tt, (tt, tt)))),
                                    ),
                                  ),
                                ),
                              ),
                            ),
                          ),
                        ),
                      ),
                    ),
                  ),
                ),
              ),
            ),
          ),
        ),
      ),
    ),
  ),
)

-- Every KV group of the two campaigns launches as it is defined: the harness accepts its options on
-- a machine with eight CPUs, every engine starts at the group's budgets, and no engine skips one of
-- its cases, so that no expected run is missing by definition.
pub groups_launch : {g : Spec} → Place g (release_groups ++ landscape_groups) → Launches g.kind g
groups_launch m =
    All-place (λ (g : Spec). Launches g.kind g) (release_groups ++ landscape_groups)
      (All-append (λ (g : Spec). Launches g.kind g) release_groups landscape_groups release_launch
        landscape_launch)
      m
