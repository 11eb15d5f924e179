-- ===== src/Harness/Engines/Budgets.antt =====
-- Which engines start at which budgets, and which of them write to the mounted file.
use cachelib_grpc_server.Common.{
  ℕ, ◌≤◌, String, ◌==◌, ◌≡◌, refl, sym, subst, ◌∙◌, ◌↔◌, Bool, true, false, ◌&&◌, ◌||◌, List, [],
  ◌∷◌, arith, ltb, elem, starts_with, any_b, Result, ok, raise_if-eq-ok, Place, All, All-place,
}
use cachelib_grpc_server.Harness.Engines.{
  Word, text, num, ServerError, file_tier_engines, dragonfly_arguments, dragonfly_checked,
  server_arguments,
}

-- Every engine that the harness knows.
abbrev pub known_engines : List String
known_engines =
    "grpc" ∷ "grpc_nvm" ∷ "redis" ∷ "valkey" ∷ "memcached" ∷ "memcached_extstore" ∷ "dragonfly"
    ∷ "dragonfly_tiered" ∷ "garnet" ∷ "garnet_storage" ∷ "kvrocks" ∷ []

-- The budget that an engine needs to start.
abbrev pub Fits : String → ℕ → ℕ → Type 0
Fits engine cache_mb flash_mb =
    (starts_with "dragonfly" engine ≡ true → 1024 ≤ cache_mb)
    × ((engine == "dragonfly_tiered") ≡ true → 1024 ≤ flash_mb)

abbrev pub Starts : String → ℕ → ℕ → Type 0
Starts engine cache_mb flash_mb =
    (ws : List Word) × (server_arguments engine cache_mb flash_mb ≡ ok ws)

-- The test that a text holds another.
abbrev pub holds : String → String → Bool
holds p String.[] = starts_with p ""
holds p (String.◌∷◌ c s) = starts_with p (String.◌∷◌ c s) || holds p s

abbrev pub in_data : Word → Bool
in_data (text s) = holds "/data" s
in_data (num before n after) = holds "/data" before || holds "/data" after

ltb-false : (a b : ℕ) → b ≤ a → ltb a b ≡ false
ltb-false a b h = ground arith

ok_injective : {a b : List Word} → ◌≡◌ {A = Result ServerError (List Word)} (ok a) (ok b) → a ≡ b
ok_injective h = cc

module _ (engine : String) (cache_mb flash_mb : ℕ) where
  checked :
      1024 ≤ cache_mb
      → (engine == "dragonfly_tiered" && ltb flash_mb 1024) ≡ false
      → dragonfly_checked engine cache_mb flash_mb
        ≡ ok (dragonfly_arguments engine cache_mb flash_mb)
  checked h k = rw (ltb-false cache_mb 1024 h, k)

  checked-eq-ok :
      {ws : List Word}
      → dragonfly_checked engine cache_mb flash_mb ≡ ok ws
      → (dragonfly_arguments engine cache_mb flash_mb ≡ ws)
        × (ltb cache_mb 1024 ≡ false)
        × ((engine == "dragonfly_tiered" && ltb flash_mb 1024) ≡ false)
  checked-eq-ok e =
      let (memory, e1) = raise_if-eq-ok (ltb cache_mb 1024) _ e in
      let (file, e2) = raise_if-eq-ok (engine == "dragonfly_tiered" && ltb flash_mb 1024) _ e1 in
      (ok_injective e2, memory, file)

module _ (cache_mb flash_mb : ℕ) where
  abbrev StartsWhenFits : String → Type 0
  StartsWhenFits engine = Fits engine cache_mb flash_mb ↔ Starts engine cache_mb flash_mb

  plain :
      (engine : String) {ws : List Word}
      → starts_with "dragonfly" engine ≡ false
      → (engine == "dragonfly_tiered") ≡ false
      → server_arguments engine cache_mb flash_mb ≡ ok ws
      → StartsWhenFits engine
  plain engine {ws} p q e = (λ h. (ws, e), λ s. (λ x. absurd (cc), λ x. absurd (cc)))

  dragonfly : StartsWhenFits "dragonfly"
  unfolding server_arguments
  dragonfly = (
    λ h. (_, checked "dragonfly" cache_mb flash_mb (h.0 refl) refl),
    λ (ws, e).
        let (args, memory, file) = checked-eq-ok "dragonfly" cache_mb flash_mb e in
        (λ x. ground arith, λ x. absurd (cc)),
  )

  dragonfly_tiered : StartsWhenFits "dragonfly_tiered"
  unfolding server_arguments
  dragonfly_tiered = (
    λ h. (
      _,
      checked "dragonfly_tiered" cache_mb flash_mb (h.0 refl) (ltb-false flash_mb 1024 (h.1 refl)),
    ),
    λ (ws, e).
        let (args, memory, file) = checked-eq-ok "dragonfly_tiered" cache_mb flash_mb e in
        (λ x. ground arith, λ x. ground arith),
  )

  starts_known : All StartsWhenFits known_engines
  unfolding server_arguments
  starts_known = (
    plain "grpc" refl refl refl,
    (
      plain "grpc_nvm" refl refl refl,
      (
        plain "redis" refl refl refl,
        (
          plain "valkey" refl refl refl,
          (
            plain "memcached" refl refl refl,
            (
              plain "memcached_extstore" refl refl refl,
              (
                dragonfly,
                (
                  dragonfly_tiered,
                  (
                    plain "garnet" refl refl refl,
                    (plain "garnet_storage" refl refl refl, (plain "kvrocks" refl refl refl, tt)),
                  ),
                ),
              ),
            ),
          ),
        ),
      ),
    ),
  )

  -- A known engine is given server arguments exactly when its budget fits: any budget, but for
  -- Dragonfly 1024 MiB of memory, and for its tiered form a file of 1024 MiB too.
  pub server_arguments-Starts :
      {engine : String}
      → Place engine known_engines
      → Fits engine cache_mb flash_mb ↔ Starts engine cache_mb flash_mb
  server_arguments-Starts m = All-place StartsWhenFits known_engines starts_known m

  abbrev MountsData : String → Type 0
  MountsData engine =
      (ws : List Word)
      → server_arguments engine cache_mb flash_mb ≡ ok ws
      → any_b in_data ws ≡ elem engine file_tier_engines

  fixed :
      (engine : String) {ws : List Word}
      → server_arguments engine cache_mb flash_mb ≡ ok ws
      → any_b in_data ws ≡ elem engine file_tier_engines
      → MountsData engine
  fixed engine e h vs e' =
      subst (λ us. any_b in_data us ≡ elem engine file_tier_engines) (ok_injective (sym e ∙ e')) h

  dragonfly_data : MountsData "dragonfly"
  unfolding server_arguments
  dragonfly_data ws e =
      subst (λ us. any_b in_data us ≡ false) (checked-eq-ok "dragonfly" cache_mb flash_mb e).0 refl

  tiered_data : MountsData "dragonfly_tiered"
  unfolding server_arguments
  tiered_data ws e =
      subst (λ us. any_b in_data us ≡ true) (checked-eq-ok "dragonfly_tiered" cache_mb flash_mb e).0
        refl

  mounts_known : All MountsData known_engines
  unfolding server_arguments
  mounts_known = (
    fixed "grpc" refl refl,
    (
      fixed "grpc_nvm" refl refl,
      (
        fixed "redis" refl refl,
        (
          fixed "valkey" refl refl,
          (
            fixed "memcached" refl refl,
            (
              fixed "memcached_extstore" refl refl,
              (
                dragonfly_data,
                (
                  tiered_data,
                  (
                    fixed "garnet" refl refl,
                    (fixed "garnet_storage" refl refl, (fixed "kvrocks" refl refl, tt)),
                  ),
                ),
              ),
            ),
          ),
        ),
      ),
    ),
  )

  -- The server arguments of a known engine name a path below the mount exactly when the engine is
  -- one that gets the mounted directory.
  pub server_arguments-data :
      {engine : String} {ws : List Word}
      → Place engine known_engines
      → server_arguments engine cache_mb flash_mb ≡ ok ws
      → any_b in_data ws ≡ elem engine file_tier_engines
  server_arguments-data {ws = ws} m e = All-place MountsData known_engines mounts_known m ws e
