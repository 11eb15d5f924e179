-- ===== src/Published/Tables.antt =====
-- bench/strong/render_report_tables.py: the tables of the candidate report (`table`), which demand
-- five repetitions of every engine. What a row says of its warmup is `is_stable`.
pub mod Lines
pub mod Repetitions
use cachelib_grpc_server.Common.{
  ℕ, ◌+◌, ◌-◌, ◌*◌, String, ◌==◌, Bool, true, false, not, ◌&&◌, ◌||◌, Option, none, some, List, [],
  ◌∷◌, ◌++◌, map, length, all_b, any_b, eqb, leb, ltb, lookup, if◌then◌else◌, Result, ok, err,
  ◌>>=◌, ◌>>◌, raise_if,
}
use cachelib_grpc_server.Reports.Sweep.{twice_median}
use cachelib_grpc_server.Reports.Floats.{round}
use cachelib_grpc_server.Published.Rows.{Row, Cell, decimal, percentage, number, number_at, median}

pub data Table : Type 0 where
  primary hybrid offered objective http : Table

-- LABELS, with the directory of the runs: the source that an objective names, or the table's own.
abbrev pub labels : Table → List (String × String)
labels primary =
    ("grpc", "CacheLib gRPC 1.8.0 candidate")
    ∷ ("redis", "Redis OSS 8.2.10")
    ∷ ("valkey", "Valkey 8.1.10")
    ∷ ("memcached", "Memcached 1.6.45")
    ∷ []
labels hybrid =
    ("grpc", "CacheLib gRPC DRAM")
    ∷ ("grpc_nvm", "CacheLib gRPC + Navy")
    ∷ ("redis", "Redis OSS")
    ∷ ("valkey", "Valkey")
    ∷ ("memcached", "Memcached DRAM")
    ∷ ("memcached_extstore", "Memcached extstore")
    ∷ []
labels offered =
    ("grpc", "CacheLib gRPC DRAM")
    ∷ ("grpc_nvm", "CacheLib gRPC + Navy")
    ∷ ("redis", "Redis OSS")
    ∷ ("memcached_extstore", "Memcached extstore")
    ∷ []
labels objective =
    ("grpc", "CacheLib gRPC, 192 MiB DRAM")
    ∷ ("grpc_nvm", "CacheLib gRPC, 96 MiB DRAM + Navy")
    ∷ ("redis", "Redis OSS, 192 MiB DRAM")
    ∷ ("memcached", "Memcached, 192 MiB DRAM")
    ∷ ("memcached_extstore", "Memcached, 96 MiB DRAM + extstore")
    ∷ []
labels http =
    ("grpc_adapter", "CacheLib gRPC + Python HTTP adapter") ∷ ("nginx", "NGINX disk cache") ∷ []

abbrev objective_source : String → String
objective_source engine =
    if engine == "grpc"
    then "grpc-ram192"
    else if engine == "grpc_nvm"
    then "nvm384"
    else if engine == "memcached_extstore"
    then "extstore384"
    else "ram192"

abbrev pub source_of : Table → String → String
source_of primary engine = "primary"
source_of hybrid engine = "hybrid"
source_of offered engine = "offered"
source_of objective engine = objective_source engine
source_of http engine = "http"

pub data TableError : Type 0 where
  not_five_runs not_a_number : TableError

abbrev pub before_row : Row → List Row → List Row
before_row r [] = r ∷ []
before_row r (q ∷ qs) =
    let rest = before_row r qs in if leb r.repetition q.repetition then r ∷ q ∷ qs else q ∷ rest

-- `sorted(..., key=lambda r: int(r["repetition"][1:]))`
abbrev pub by_repetition : List Row → List Row
by_repetition [] = []
by_repetition (r ∷ rs) = before_row r (by_repetition rs)

abbrev pub of_engine : String → List Row → List Row
of_engine engine [] = []
of_engine engine (row ∷ rows) =
    let rest = of_engine engine rows in if row.engine == engine then row ∷ rest else rest

abbrev int_of : Option ℕ → Result TableError ℕ
int_of none = err not_a_number
int_of (some n) = ok n

abbrev pub cell : String → Row → Result TableError ℕ
cell name row = int_of (number_at (lookup name row.cells))

abbrev is_nonzero : ℕ → Bool
is_nonzero n = not (eqb n 0)

abbrev invalid_kv : (Row → Bool) → Row → Result TableError Bool
invalid_kv is_stable row = do
  drops ← cell "dropped_arrivals" row
  ok (is_nonzero drops || not (is_stable row))

abbrev invalid_kind : (Row → Bool) → Table → Row → Result TableError Bool
invalid_kind is_stable http row = do origins ← cell "origins" row; ok (is_nonzero origins)
invalid_kind is_stable primary row = invalid_kv is_stable row
invalid_kind is_stable hybrid row = invalid_kv is_stable row
invalid_kind is_stable offered row = invalid_kv is_stable row
invalid_kind is_stable objective row = invalid_kv is_stable row

abbrev pub invalid : (Row → Bool) → Table → Row → Result TableError Bool
invalid is_stable kind row = do
  errors ← cell "errors" row
  let rest = invalid_kind is_stable kind row in if is_nonzero errors then ok true else rest

-- `any(...)`, which ends with the first that holds
abbrev pub any_invalid : (Row → Bool) → Table → List Row → Result TableError Bool
any_invalid is_stable kind [] = ok false
any_invalid is_stable kind (row ∷ rows) = do
  bad ← invalid is_stable kind row
  let rest = any_invalid is_stable kind rows in if bad then ok true else rest

abbrev pub has : ℕ → List ℕ → Bool
has n xs = any_b (λ x. eqb x n) xs

-- `{r["repetition"] for r in rs} == {"r0", ..., "r4"}`
abbrev pub five : List ℕ
five = 0 ∷ 1 ∷ 2 ∷ 3 ∷ 4 ∷ []

abbrev pub same_set : List ℕ → Bool
same_set ns = all_b (λ n. has n five) ns && all_b (λ n. has n ns) five

abbrev pub repetitions : List Row → List ℕ
repetitions = map (λ (r : Row). r.repetition)

-- Whether the runs of one engine can be shown.
unfoldable pub check_runs : (Row → Bool) → Table → List Row → Result TableError (Unit {0})
check_runs is_stable kind rs = do
  raise_if (not (eqb (length rs) 5) || not (same_set (repetitions rs))) not_five_runs
  bad ← any_invalid is_stable kind rs
  raise_if bad not_five_runs
