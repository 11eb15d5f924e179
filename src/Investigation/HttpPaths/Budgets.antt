-- ===== src/Investigation/HttpPaths/Budgets.antt =====
-- The budgets of the two paths.
use cachelib_grpc_server.Common.{
  ℕ, ◌+◌, String, ◌≡◌, refl, true, List, [], ◌∷◌, Bool-cases, inl, inr, ◌==◌,
}
use cachelib_grpc_server.Investigation.HttpPaths.{Resources, path_of}

abbrev pub cpus_of : List (String × Resources) → ℕ
cpus_of [] = 0
cpus_of (c ∷ cs) = (c.1).cpus + cpus_of cs

abbrev pub memory_of : List (String × Resources) → ℕ
memory_of [] = 0
memory_of (c ∷ cs) = (c.1).memory_mib + memory_of cs

-- With an equal budget, the path of every backend has two CPUs and 768 MiB in all.
equal_budgets :
    (backend : String)
    → (cpus_of (path_of true backend) ≡ 2) × (memory_of (path_of true backend) ≡ 768)
equal_budgets backend = elim (Bool-cases (backend == "nginx")) [
  | inl e ↦ rw e (refl, refl)
  | inr e ↦ rw e (refl, refl)
]
