-- ===== src/Tests/Selections.antt =====
-- Two directories, where the second measures an engine again.
use cachelib_grpc_server.Common.{
  ℕ, String, ◌==◌, ◌≡◌, refl, Bool, Option, none, some, List, [], ◌∷◌, ok, lookup,
}
use cachelib_grpc_server.Summaries.Integers.{pos}
use cachelib_grpc_server.Summaries.Values.{Value, int, quotient, copied}
use cachelib_grpc_server.Investigation.Selection.{Doc, Found, Row, row, read_directory, main}
use cachelib_grpc_server.Investigation.Selection.Last
use cachelib_grpc_server.Investigation.Selection.Last.{all_rows}
use cachelib_grpc_server.Investigation.Selection.Keys.{of_key, last}

abbrev doc : ℕ → Doc
doc hits = record {
  args =
      ("value_bytes", "1024")
      ∷ ("pattern", "zipf")
      ∷ ("mode", "origin")
      ∷ ("concurrency", "1")
      ∷ [];
  fields = ("successful_ops_s", "250.5") ∷ ("payload_mib_s", "0.2") ∷ ("errors", "0") ∷ [];
  measured_operations = none;
  operations = some 40;
  object_hits = some hits;
  read_operations = none;
  latency_ms = none;
  batch_latency_ms = some (("p50", "1.5") ∷ []);
  versions = ("version", "") ∷ ("redis_version", "7.2") ∷ [];
  stats_before = [];
  stats_after = [];
  elapsed = some 2000000;
}

abbrev found : String → ℕ → Found
found engine hits = record {
  engine = engine;
  case = "origin_skew_64k";
  doc = doc hits;
  before = ("usage_usec", 100) ∷ [];
  after = ("usage_usec", 500) ∷ ("memory_current", 1048576) ∷ [];
}

abbrev dirs : List (List Found)
dirs = (found "grpc" 10 ∷ found "redis" 20 ∷ []) ∷ (found "grpc" 30 ∷ []) ∷ []

-- The engines in their order: `grpc` stands before `redis`.
abbrev before : Row → Row → Bool
before r s = r.engine == "grpc"

abbrev hits_of : List Row → List (String × Option Value)
hits_of [] = []
hits_of (r ∷ rs) = (r.engine, lookup "hits" r.columns) ∷ hits_of rs

selected_hits :
    (rows : List Row) × (main before dirs ≡ ok rows)
    × (hits_of rows ≡ ("grpc", some (int (pos 30))) ∷ ("redis", some (int (pos 20))) ∷ [])
unfolding main row read_directory
selected_hits = (_, refl, refl)

first_values :
    (r : Row) × (row (found "grpc" 10) ≡ ok r)
    × (lookup "version" r.columns ≡ some (copied "7.2"))
    × (lookup "p50_ms" r.columns ≡ some (copied "1.5"))
    × (lookup "hit_ratio" r.columns ≡ some (quotient (pos 10) 40))
    × (lookup "cpu_us_per_op" r.columns ≡ some (quotient (pos 400) 40))
unfolding row
first_values = (_, refl, refl, refl, refl, refl)

read : (r : Row) × (rs : List Row) × (all_rows dirs ≡ ok (r ∷ rs))
unfolding all_rows row
read = (_, _, refl)

main_last_example :
    (rows : List Row) × (main before dirs ≡ ok rows)
    × ((e c : String) → of_key e c rows ≡ last (of_key e c (read.0 ∷ read.1)))
main_last_example = Last.main_last before dirs read.2
