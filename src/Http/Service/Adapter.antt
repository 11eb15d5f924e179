-- ===== src/Http/Service/Adapter.antt =====
-- bench/strong/http_service.py: the adapter as a cache of the origin.
use cachelib_grpc_server.Common.{String, ◌≡◌, sym, ap, subst, inl, inr, Bool, true, false}
use cachelib_grpc_server.Http.Bodies.{Bytes}
use cachelib_grpc_server.Http.Paths.{Route, stats, object, unknown, route}
use cachelib_grpc_server.Http.Service.{
  served, is_out_of_bounds, origin_get, Origin, Exchange, CacheService, looked_up, key_of,
  refuse_or_look_up, adapter_route, adapter_get,
}
use cachelib_grpc_server.Http.Service.Coherence.{
  IsOrigin, IsCache, looked_up-holds, looked_up-served,
}

abbrev tail : String → String
tail String.[] = ""
tail (String.◌∷◌ c s) = s

key_of-injective :
    {C : Type 0} (cache : CacheService C) (p q : String) → key_of cache p ≡ key_of cache q → p ≡ q
key_of-injective cache p q h = ap (λ s. tail (tail (tail (tail (tail (tail s)))))) h

module _ {C : Type 0} (cache : CacheService C) (Holds : C → String → Bytes → Type 0) where
  -- Every entry that the adapter may find under the key of a path is what the origin serves there.
  abbrev pub IsCoherent : C → Type 0
  IsCoherent c =
      (path : String) (bytes : Bytes)
      → Holds c (key_of cache path) bytes
      → (origin_get path 0).0 ≡ served bytes "ORIGIN"

  module _ (laws : IsCache cache Holds) where
    looked_up-IsCoherent :
        (exchange : Exchange) (path : String) (c : C) (o : Origin)
        → IsOrigin path exchange
        → IsCoherent c
        → IsCoherent
            (looked_up cache exchange (key_of cache path) o (cache.get (key_of cache path) c)).1.0
    looked_up-IsCoherent exchange path c o origin coherent q bytes h =
        let key = key_of cache path in
        elim (looked_up-holds cache Holds laws exchange key o (cache.get key c) (key_of cache q)
          h) [
            | inl old ↦ coherent q bytes (laws.get_adds_nothing key c (key_of cache q) old)
            | inr (same, (n, k, given)) ↦
                subst (λ p. (origin_get p 0).0 ≡ served bytes "ORIGIN")
                  (sym (key_of-injective cache q path same)) (origin n k bytes given)
          ]

    route-IsCoherent :
        (exchange : Exchange) (path : String) (r : Route) (c : C) (o : Origin)
        → IsOrigin path exchange
        → IsCoherent c
        → IsCoherent (adapter_route cache exchange path r (c, o)).1.0
    unfolding adapter_route
    route-IsCoherent exchange path stats c o origin coherent = coherent
    route-IsCoherent exchange path unknown c o origin coherent = coherent
    route-IsCoherent exchange path (object size index) c o origin coherent =
        bounds (is_out_of_bounds size)
      where
        bounds :
            (b : Bool) → IsCoherent (refuse_or_look_up cache exchange (key_of cache path) b c o).1.0
        bounds true = coherent
        bounds false = looked_up-IsCoherent exchange path c o origin coherent

    -- Where the origin answers the adapter as `do_GET` of the origin does, a request leaves the
    -- cache coherent: every entry is what the origin serves for its path.
    pub adapter_get-IsCoherent :
        (exchange : Exchange) (path : String) (c : C) (o : Origin)
        → IsOrigin path exchange
        → IsCoherent c
        → IsCoherent (adapter_get cache exchange path (c, o)).1.0
    unfolding adapter_get
    adapter_get-IsCoherent exchange path = route-IsCoherent exchange path (route path)

    looked_up-origin :
        (exchange : Exchange) (path : String) (c : C) (o : Origin) {b : Bytes} {tag : String}
        → IsOrigin path exchange
        → IsCoherent c
        → (looked_up cache exchange (key_of cache path) o (cache.get (key_of cache path) c)).0
          ≡ served b tag
        → (origin_get path 0).0 ≡ served b "ORIGIN"
    looked_up-origin exchange path c o {b} origin coherent h =
        let key = key_of cache path in
        elim (looked_up-served cache Holds laws exchange key o (cache.get key c) h) [
          | inl hit ↦ coherent path b (laws.found key c hit)
          | inr (n, k, given) ↦ origin n k b given
        ]

    route-served :
        (exchange : Exchange) (path : String) (r : Route) (c : C) (o : Origin) {b : Bytes}
        {tag : String}
        → IsOrigin path exchange
        → IsCoherent c
        → (adapter_route cache exchange path r (c, o)).0 ≡ served b tag
        → (origin_get path 0).0 ≡ served b "ORIGIN"
    unfolding adapter_route
    route-served exchange path stats c o origin coherent h = cc
    route-served exchange path unknown c o origin coherent h = cc
    route-served exchange path (object size index) c o {b} {tag} origin coherent h =
        bounds (is_out_of_bounds size) h
      where
        bounds :
            (t : Bool)
            → (refuse_or_look_up cache exchange (key_of cache path) t c o).0 ≡ served b tag
            → (origin_get path 0).0 ≡ served b "ORIGIN"
        bounds true k = cc
        bounds false k = looked_up-origin exchange path c o origin coherent k

    -- Over a coherent cache, and an origin that answers the adapter as its own `do_GET` does,
    -- whatever object the adapter serves, found in the cache, filled, or with a fill that failed, is
    -- the one that the origin serves for the path.
    pub adapter_get-served :
        (exchange : Exchange) (path : String) (c : C) (o : Origin) {b : Bytes} {tag : String}
        → IsOrigin path exchange
        → IsCoherent c
        → (adapter_get cache exchange path (c, o)).0 ≡ served b tag
        → (origin_get path 0).0 ≡ served b "ORIGIN"
    unfolding adapter_get
    adapter_get-served exchange path = route-served exchange path (route path)
