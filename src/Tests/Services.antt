-- ===== src/Tests/Services.antt =====
-- The HTTP service over a dictionary as its cache.
use cachelib_grpc_server.Common.{
  ℕ, zero, suc, String, ◌==◌, ◌≡◌, refl, sym, ap, ◌∙◌, ◌⊎◌, inl, inr, true, some, List, [], ◌∷◌,
  Result, ok, err, arith, lookup, insert, lookup-insert, eq_iff, length, Bool-cases, subst,
  if◌then◌else◌,
}
use cachelib_grpc_server.Http.Bodies.{Bytes, take, payload}
use cachelib_grpc_server.Http.Bodies.Index
use cachelib_grpc_server.Http.Bodies.Index.{from_little}
use cachelib_grpc_server.Http.Paths.{route}
use cachelib_grpc_server.Http.Service.{
  served, count_of, origin_route, origin_get, Origin, Exchange, fetch_origin, CacheService,
  adapter_route, adapter_get,
}
use cachelib_grpc_server.Http.Service.Coherence.{IsOrigin, IsCache}
use cachelib_grpc_server.Http.Service.Adapter
use cachelib_grpc_server.Http.Service.Adapter.{IsCoherent}
use cachelib_grpc_server.Http.Service.Counting
use cachelib_grpc_server.Http.Service.Counting.{serve, objects}

payload_body_example :
    (bytes : Bytes) × (payload 12 300 ≡ some bytes)
    × (length bytes ≡ 12)
    × (from_little (take 8 bytes) ≡ 300)
payload_body_example = Index.payload_body 12 300 (omega arith) (omega arith)

abbrev Dict : Type 0
Dict = List (String × Bytes)

abbrev dict : CacheService Dict
dict = record {
  get = λ k (c : Dict). (ok (lookup k c), c);
  set = λ k v (c : Dict). (ok true, insert k v c);
}

abbrev Holds : Dict → String → Bytes → Type 0
Holds c k v = lookup k c ≡ some v

dict_set :
    (k : String) (v : Bytes) (c : Dict) (j : String) (w : Bytes)
    → lookup j (insert k v c) ≡ some w
    → (lookup j c ≡ some w) ⊎ ((j ≡ k) × (w ≡ v))
dict_set k v c j w h =
    let e : (if k == j then some v else lookup j c) ≡ some w = sym (lookup-insert k j v c) ∙ h in
    elim (Bool-cases (k == j)) [
      | inl same ↦
          let found = subst (λ t. (if t then some v else lookup j c) ≡ some w) same e in
          inr (sym ((eq_iff k j).0 same), cc)
      | inr other ↦ inl (subst (λ t. (if t then some v else lookup j c) ≡ some w) other e)
    ]

dict-IsCache : IsCache dict Holds
dict-IsCache = record {
  found = λ k c {v} h. cc;
  get_adds_nothing = λ k c j {w} h. h;
  set_adds = λ k v c j {w} h. dict_set k v c j w h;
}

abbrev object_bytes : Bytes
object_bytes = 3 ∷ 0 ∷ 0 ∷ 0 ∷ 0 ∷ 0 ∷ 0 ∷ 0 ∷ 8 ∷ 9 ∷ 10 ∷ 11 ∷ []

-- The first connection breaks, and the second one answers.
abbrev flaky : Exchange
flaky zero conn = err "broken pipe"
flaky (suc n) conn = ok (200, object_bytes)

abbrev idle : Origin
idle = record { origin_conn = some 0; opened = 1 }

service : Unit {0}
unfolding adapter_get adapter_route origin_get origin_route route payload fetch_origin
service = tt

abbrev bytes_of : Result String (ℕ × Bytes) → Bytes
bytes_of (ok r) = r.1
bytes_of (err e) = []

flaky-IsOrigin : IsOrigin "/obj/12/3" flaky
unfolding service
flaky-IsOrigin zero conn bytes h = cc
flaky-IsOrigin (suc n) conn bytes h = ap (λ r. served (bytes_of r) "ORIGIN") h

empty-IsCoherent : IsCoherent dict Holds []
empty-IsCoherent path bytes h = cc

adapter_get-IsCoherent_example :
    IsCoherent dict Holds (adapter_get dict flaky "/obj/12/3" ([], idle)).1.0
adapter_get-IsCoherent_example =
    Adapter.adapter_get-IsCoherent dict Holds dict-IsCache flaky "/obj/12/3" [] idle flaky-IsOrigin
      empty-IsCoherent

adapter_get-served_example : (origin_get "/obj/12/3" 0).0 ≡ served object_bytes "ORIGIN"
unfolding service
adapter_get-served_example =
    Adapter.adapter_get-served dict Holds dict-IsCache flaky "/obj/12/3" [] idle {b = object_bytes}
      {tag = "MISS"} flaky-IsOrigin empty-IsCoherent refl

abbrev requests : List String
requests = "/obj/12/3" ∷ "/stats" ∷ "/obj/7/3" ∷ "/obj/12/3/" ∷ "/obj/1048576/0" ∷ []

stats_counts_example : (origin_get "/stats" (serve requests 0)).0 ≡ count_of (objects requests)
stats_counts_example = Counting.stats_counts requests

two_objects : objects requests ≡ 2
unfolding service
two_objects = refl
