-- ===== src/Http/Service/Counting.antt =====
-- bench/strong/http_service.py: the origin's count of requests, on which the campaigns rest their
-- origin traffic.
use cachelib_grpc_server.Common.{
  ℕ, ◌+◌, String, ◌≡◌, ap, Bool, false, not, List, [], ◌∷◌, arith, if◌then◌else◌,
}
use cachelib_grpc_server.Http.Paths.{Route, stats, object, unknown, route}
use cachelib_grpc_server.Http.Service.{count_of, is_out_of_bounds, origin_route, origin_get}

-- The origin over a sequence of requests, in the order in which they take the lock.
abbrev pub serve : List String → ℕ → ℕ
serve [] count = count
serve (path ∷ paths) count = serve paths (origin_get path count).1

abbrev is_object : Route → Bool
is_object stats = false
is_object unknown = false
is_object (object size index) = not (is_out_of_bounds size)

-- The requests for an object within the bounds.
abbrev pub objects : List String → ℕ
objects [] = 0
objects (path ∷ paths) = (if is_object (route path) then 1 else 0) + objects paths

route-count :
    (r : Route) (count : ℕ) → (origin_route r count).1 ≡ (if is_object r then 1 else 0) + count
unfolding origin_route
route-count stats count = omega arith
route-count unknown count = omega arith
route-count (object size index) count = ground arith

serve-count : (paths : List String) (count : ℕ) → serve paths count ≡ objects paths + count
unfolding origin_get
serve-count [] count = omega arith
serve-count (path ∷ paths) count =
    let e = serve-count paths (origin_get path count).1 in
    let c = route-count (route path) count in omega arith

-- After any sequence of requests, `/stats` of the origin answers the number of those that asked for
-- an object within the size limits, whether it then had a body to send or not.
pub stats_counts :
    (paths : List String) → (origin_get "/stats" (serve paths 0)).0 ≡ count_of (objects paths)
unfolding origin_get origin_route route
stats_counts paths = ap count_of (omega (arith, serve-count paths 0))
