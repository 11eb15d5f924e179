-- ===== src/Investigation/Selection.antt =====
-- bench/investigation/summarize.py: the row of a run (`row`), from its counters on, and the rows that
-- are selected among several directories (`main`). A quotient is exact here.
pub mod Keys
pub mod Last
use cachelib_grpc_server.Common.{
  ℕ, zero, suc, ◌*◌, String, ◌==◌, Bool, true, false, ◌&&◌, Option, none, some, List, [], ◌∷◌, ◌++◌,
  lookup, is_some, if◌then◌else◌, Result, ok, err, ◌>>=◌,
}
use cachelib_grpc_server.Summaries.Integers.{ℤ, pos, minus}
use cachelib_grpc_server.Summaries.Counters.{value_or_zero}
use cachelib_grpc_server.Summaries.Values.{
  Value, absent, int, quotient, copied, over, copy_or_none, growth, grown,
}
use cachelib_grpc_server.Summaries.KvRow.{field}

-- What `row` reads of result.json. A field that it copies is in `args` or `fields` as it is written
-- there, and `versions` has the texts of `stats_after`.
pub record Doc : Type 0 where
  pub args : List (String × String)
  pub fields : List (String × String)
  pub measured_operations : Option ℕ
  pub operations : Option ℕ
  pub object_hits : Option ℕ
  pub read_operations : Option ℕ
  pub latency_ms : Option (List (String × String))
  pub batch_latency_ms : Option (List (String × String))
  pub versions : List (String × String)
  pub stats_before : List (String × ℕ)
  pub stats_after : List (String × ℕ)
  -- `elapsed_s * 1_000_000`
  pub elapsed : Option ℕ

-- A result, with its directory's two names and the counters around the run.
pub record Found : Type 0 where
  pub engine : String
  pub case : String
  pub doc : Doc
  pub before : List (String × ℕ)
  pub after : List (String × ℕ)

-- A row; its engine and case are its first two columns, and the last, the path, is left out.
pub record Row : Type 0 where
  pub engine : String
  pub case : String
  pub columns : List (String × Value)

-- `r.get(name, r.get(other, default))`
abbrev pub get_or : {A : Type 0} → Option A → A → A
get_or none a = a
get_or (some a) b = a

-- `x or y`, of texts
abbrev or_text : Option String → String → String
or_text none t = t
or_text (some s) t = if s == "" then t else s

abbrev version : List (String × String) → String
version stats =
    or_text (lookup "valkey_version" stats)
      (or_text (lookup "version" stats) (get_or (lookup "redis_version" stats) ""))

abbrev hit_ratio : Option ℕ → ℕ → Value
hit_ratio none reads = absent
hit_ratio (some hits) reads = over (pos hits) reads

abbrev latencies : Doc → List (String × String)
latencies d = get_or d.latency_ms (get_or d.batch_latency_ms [])

abbrev mebibytes : ℤ → Value
mebibytes z = quotient z 1048576

-- The columns from `errors` on.
abbrev pub counted_columns : Found → ℕ → Value → List (String × Value)
counted_columns f n errors =
    let d = f.doc in
    let reads = get_or d.read_operations n in
    let cpu = grown "usage_usec" f.before f.after in
    ("errors", errors)
    ∷ ("hits", int (pos (value_or_zero d.object_hits)))
    ∷ ("read_operations", int (pos reads))
    ∷ ("hit_ratio", hit_ratio d.object_hits reads)
    ∷ ("origin_requests", copied (get_or (lookup "origin_requests" d.fields) ""))
    ∷ ("origin_bytes_avoided", copied (get_or (lookup "origin_bytes_avoided" d.fields) ""))
    ∷ ("nvm_hits_delta", int (grown "nvm_hit_count" d.stats_before d.stats_after))
    ∷ ("cpu_us_per_op", over cpu n)
    ∷ ("server_cpu_cores", over cpu (value_or_zero d.elapsed))
    ∷ ("memory_after_mib", mebibytes (pos (value_or_zero (lookup "memory_current" f.after))))
    ∷ ("disk_read_mib", mebibytes (grown "rbytes" f.before f.after))
    ∷ ("disk_write_mib", mebibytes (grown "wbytes" f.before f.after))
    ∷ []

abbrev latency : Doc → String → Value
latency d name = copy_or_none (lookup name (latencies d))

unfoldable pub row : Found → Result String Row
row f =
    let d = f.doc in
    let n = get_or d.measured_operations (value_or_zero d.operations) in
    do
      value_bytes ← field "value_bytes" d.args
      pattern_name ← field "pattern" d.args
      mode ← field "mode" d.args
      concurrency ← field "concurrency" d.args
      ops_s ← field "successful_ops_s" d.fields
      payload_mib_s ← field "payload_mib_s" d.fields
      errors ← field "errors" d.fields
      ok (record {
        engine = f.engine;
        case = f.case;
        columns =
            ("version", copied (version d.versions))
            ∷ ("value_bytes", value_bytes)
            ∷ ("pattern", pattern_name)
            ∷ ("mode", mode)
            ∷ ("concurrency", concurrency)
            ∷ ("operations", int (pos n))
            ∷ ("batches", copied (get_or (lookup "batches" d.fields) ""))
            ∷ ("ops_s", ops_s)
            ∷ ("payload_mib_s", payload_mib_s)
            ∷ ("p50_ms", latency d "p50")
            ∷ ("p95_ms", latency d "p95")
            ∷ ("p99_ms", latency d "p99")
            ∷ ("p999_ms", latency d "p999")
            ∷ counted_columns f n errors;
      })

-- `selected[(engine, case)] = r`: a new key goes last, and a row of an earlier key takes its place.
abbrev pub put : Row → List Row → List Row
put r [] = r ∷ []
put r (s ∷ ss) =
    let rest = put r ss in if (s.engine == r.engine) && (s.case == r.case) then r ∷ ss else s ∷ rest

unfoldable pub read_directory : List Found → List Row → Result String (List Row)
read_directory [] selected = ok selected
read_directory (f ∷ fs) selected = do r ← row f; read_directory fs (put r selected)

unfoldable pub read_directories : List (List Found) → List Row → Result String (List Row)
read_directories [] selected = ok selected
read_directories (fs ∷ dirs) selected = do
  next ← read_directory fs selected
  read_directories dirs next

-- `rows.sort`, by an order of the case and the engine
abbrev pub insert_row : (Row → Row → Bool) → Row → List Row → List Row
insert_row before r [] = r ∷ []
insert_row before r (s ∷ ss) =
    let rest = insert_row before r ss in if before r s then r ∷ s ∷ ss else s ∷ rest

abbrev pub sort_rows : (Row → Row → Bool) → List Row → List Row
sort_rows before [] = []
sort_rows before (r ∷ rs) = insert_row before r (sort_rows before rs)

abbrev pub some_rows : List Row → Result String (List Row)
some_rows [] = err "No raw results"
some_rows (r ∷ rs) = ok (r ∷ rs)

-- The rows of summary.json.
unfoldable pub main : (Row → Row → Bool) → List (List Found) → Result String (List Row)
unfolding read_directories
main before dirs = do selected ← read_directories dirs []; some_rows (sort_rows before selected)
