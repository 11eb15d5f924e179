-- ===== src/Http/Service.antt =====
-- bench/strong/http_service.py: the request handler, as the origin and as the adapter.
pub mod Coherence
pub mod Adapter
pub mod Connections
pub mod Counting
use cachelib_grpc_server.Common.{
  ℕ, zero, suc, ◌+◌, ◌^◌, String, Bool, true, false, not, ◌||◌, Option, none, some, List, [], ◌∷◌,
  ltb, eqb, prepend, if◌then◌else◌, Result, ok, err,
}
use cachelib_grpc_server.Http.Bodies.{Bytes, payload}
use cachelib_grpc_server.Http.Paths.{Route, stats, object, unknown, route}

-- What a client is sent: the count of `/stats`, an object with its `X-Cache`, or an error's code. An
-- exception ends the handler without an answer.
pub data Answer : Type 0 where
  count_of : ℕ → Answer
  served : Bytes → String → Answer
  error : ℕ → Answer
  raised : String → Answer

-- The size limits of an object.
abbrev pub is_out_of_bounds : ℕ → Bool
is_out_of_bounds size = ltb size 8 || ltb 1048576 size

abbrev origin_body : Option Bytes → Answer
origin_body none = raised "int too big to convert"
origin_body (some bytes) = served bytes "ORIGIN"

-- `do_GET` of the origin: the answer, and its count of requests.
unfoldable pub origin_route : Route → ℕ → Answer × ℕ
origin_route stats count = (count_of count, count)
origin_route unknown count = (error 404, count)
origin_route (object size index) count =
    if is_out_of_bounds size
    then (error 413, count)
    else (origin_body (payload size index), count + 1)

unfoldable pub origin_get : String → ℕ → Answer × ℕ
origin_get path = origin_route (route path)

-- A handler's connection to the origin, named by the order in which connections are opened.
pub record Origin : Type 0 where
  pub origin_conn : Option ℕ
  pub opened : ℕ

abbrev open_conn : Origin → ℕ × Origin
open_conn o = (o.opened, record o { opened = o.opened + 1 })

abbrev pub first_conn : Option ℕ → Origin → ℕ × Origin
first_conn none o = open_conn o
first_conn (some conn) o = (conn, o)

-- The response that a connection gives in an attempt: a status and a body, or a broken connection.
abbrev pub Exchange : Type 0
Exchange = ℕ → ℕ → Result String (ℕ × Bytes)

abbrev keep : ℕ → Origin → Origin
keep conn o = record o { origin_conn = some conn }

abbrev pub second : ℕ → Result String (ℕ × Bytes) → Origin → Result String (ℕ × Bytes) × Origin
second conn (ok r) o = (ok r, keep conn o)
second conn (err e) o = (err e, o)

abbrev retry : Exchange → ℕ × Origin → Result String (ℕ × Bytes) × Origin
retry exchange (conn, o) = second conn (exchange 1 conn) o

abbrev pub first :
    Exchange → ℕ → Result String (ℕ × Bytes) → Origin → Result String (ℕ × Bytes) × Origin
first exchange conn (ok r) o = (ok r, keep conn o)
first exchange conn (err e) o = retry exchange (open_conn o)

-- `fetch_origin`: a connection that breaks is replaced once.
unfoldable pub fetch_origin : Exchange → Origin → Result String (ℕ × Bytes) × Origin
fetch_origin exchange o =
    let (conn, o') = first_conn o.origin_conn o in first exchange conn (exchange 0 conn) o'

-- What the adapter uses of the cache: `Get` and `Set` over gRPC, with the cache's own state.
pub record CacheService (C : Type 0) : Type 0 where
  pub get : String → C → Result String (Option Bytes) × C
  pub set : String → Bytes → C → Result String Bool × C

module _ {C : Type 0} (cache : CacheService C) where
  abbrev pub reply_of_fill : Bytes → Result String Bool × C → Answer × C
  reply_of_fill bytes (ok true, c) = (served bytes "MISS", c)
  reply_of_fill bytes (ok false, c) = (served bytes "FILL_FAILED", c)
  reply_of_fill bytes (err e, c) = (raised e, c)

  abbrev pub store_if : Bool → String → Bytes → C → Answer × C
  store_if true key bytes c = reply_of_fill bytes (cache.set key bytes c)
  store_if false key bytes c = (error 502, c)

  -- The response of the origin: it is stored if its status is 200.
  abbrev pub fill : String → Result String (ℕ × Bytes) → C → Answer × C
  fill key (err e) c = (raised e, c)
  fill key (ok (status, bytes)) c = store_if (eqb status 200) key bytes c

  abbrev pub looked_up :
      Exchange → String → Origin → Result String (Option Bytes) × C → Answer × (C × Origin)
  looked_up exchange key o (err e, c) = (raised e, (c, o))
  looked_up exchange key o (ok (some bytes), c) = (served bytes "HIT", (c, o))
  looked_up exchange key o (ok none, c) =
      let (r, o') = fetch_origin exchange o in let (answer, c') = fill key r c in (answer, (c', o'))

  abbrev pub key_of : String → String
  key_of path = prepend "media:" path

  abbrev pub refuse_or_look_up : Exchange → String → Bool → C → Origin → Answer × (C × Origin)
  refuse_or_look_up exchange key true c o = (error 413, (c, o))
  refuse_or_look_up exchange key false c o = looked_up exchange key o (cache.get key c)

  -- `do_GET` of the adapter.
  unfoldable pub adapter_route : Exchange → String → Route → C × Origin → Answer × (C × Origin)
  adapter_route exchange path stats s = (count_of 0, s)
  adapter_route exchange path unknown s = (error 404, s)
  adapter_route exchange path (object size index) (c, o) =
      refuse_or_look_up exchange (key_of path) (is_out_of_bounds size) c o

  unfoldable pub adapter_get : Exchange → String → C × Origin → Answer × (C × Origin)
  adapter_get exchange path = adapter_route exchange path (route path)
