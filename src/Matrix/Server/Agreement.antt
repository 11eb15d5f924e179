-- ===== src/Matrix/Server/Agreement.antt =====
-- The two KV harnesses start the engines that they share alike.
use cachelib_grpc_server.Common.{
  ℕ, String, ◌≡◌, refl, List, [], ◌∷◌, some, lookup, ok, Place, All, All-place, elem,
}
use cachelib_grpc_server.Harness.Engines.{server_arguments, ports, file_tier_engines}
use cachelib_grpc_server.Harness.Setup.{base_of, backend_of}
use cachelib_grpc_server.Matrix.Server
use cachelib_grpc_server.Matrix.Server.{port_of, has_file}

-- The engines of `--engines`, by default.
abbrev pub shared_engines : List String
shared_engines = "redis" ∷ "valkey" ∷ "memcached" ∷ "memcached_extstore" ∷ "grpc" ∷ "grpc_nvm" ∷ []

module _ (ram_mb flash_mb : ℕ) where
  abbrev pub StartsAlike : String → Type 0
  StartsAlike engine =
      (server_arguments engine ram_mb flash_mb ≡ ok (Server.arguments engine ram_mb flash_mb))
      × (backend_of engine ≡ Server.backend_of engine)
      × (lookup (base_of engine) ports ≡ some (port_of (Server.backend_of engine)))
      × (elem engine file_tier_engines ≡ has_file engine)

  all-StartsAlike : All StartsAlike shared_engines
  unfolding server_arguments
  all-StartsAlike = (
    (refl, refl, refl, refl),
    (
      (refl, refl, refl, refl),
      (
        (refl, refl, refl, refl),
        ((refl, refl, refl, refl), ((refl, refl, refl, refl), ((refl, refl, refl, refl), tt))),
      ),
    ),
  )

  -- The matrix of the investigation and the KV harness of the campaigns give each of the six engines
  -- that the matrix has by default the same server arguments at the same budgets, the same backend
  -- and port, and the mounted directory to the same ones.
  pub setups-StartsAlike : {engine : String} → Place engine shared_engines → StartsAlike engine
  setups-StartsAlike m = All-place StartsAlike shared_engines all-StartsAlike m
