-- ===== src/Tests/RunTables.antt =====
-- The rows of three runs, one of which failed and one of which is both measured and marked.
use cachelib_grpc_server.Common.{
  ℕ, ◌+◌, ◌≡◌, refl, String, Bool, true, none, some, List, [], ◌∷◌, map, length, Result, ok,
}
use cachelib_grpc_server.Campaign.Spec.{sum}
use cachelib_grpc_server.Summaries.Counters.{read_lines}
use cachelib_grpc_server.Summaries.Values.{Row}
use cachelib_grpc_server.Summaries.KvRow.{KvDoc, KvFiles, kv_columns}
use cachelib_grpc_server.Summaries.Runs.{Found, Group, Entry, Split, read_all, summarize}
use cachelib_grpc_server.Summaries.Runs.Accounting
use cachelib_grpc_server.Summaries.Runs.Accounting.{how_many, errors_in}

abbrev text : List (List String)
text =
    ("usage_usec" ∷ "1500" ∷ [])
    ∷ ("user_usec" ∷ "900" ∷ [])
    ∷ ("4096" ∷ [])
    ∷ ("8192" ∷ [])
    ∷ ("8:0" ∷ "rbytes=12" ∷ "wios=3" ∷ [])
    ∷ []

abbrev doc : KvDoc
doc = record {
  operations = 100;
  errors = 1;
  get_attempts = none;
  hits = 90;
  origins = 10;
  fields =
      ("successful_ops_s", "50.0")
      ∷ ("payload_mib_s", "3.1")
      ∷ ("batches", "0")
      ∷ ("origin_bytes", "655360")
      ∷ ("origin_bytes_avoided", "5898240")
      ∷ ("latency_samples", "100")
      ∷ ("warmup_stable", "true")
      ∷ ("dropped_arrivals", "0")
      ∷ [];
  latency_ms = ("p50", "0.1") ∷ [];
  stats_before = ("nvm_hit_count", 5) ∷ [];
  stats_after = ("nvm_hit_count", 65) ∷ ("item_count", 10) ∷ [];
  client_before = ("usage_usec", 10) ∷ [];
  client_after = ("usage_usec", 30) ∷ [];
}

abbrev files : KvFiles
files = record { before = text; after = text; recorded = none; flash = [] }

abbrev columns_of : String → KvDoc → Result String Row
columns_of engine d = kv_columns engine d files

abbrev directories : List (Found KvDoc)
directories =
    record {
      case = "hit_1k_c8";
      repetition = "r0";
      engine = "grpc";
      result = some doc;
      error = none;
    }
    ∷ record { case = "hit_1k_c8"; repetition = "r1"; engine = "grpc"; result = none; error = none }
    ∷ record {
      case = "hit_1k_c8";
      repetition = "r0";
      engine = "grpc_nvm";
      result = some doc;
      error = some "Client errors";
    }
    ∷ []

abbrev in_order : Group → Group → Bool
in_order a b = true

abbrev errors_of : KvDoc → ℕ
errors_of d = d.errors

read : (s : Split) × (read_all errors_of columns_of directories ≡ ok s)
unfolding read_all kv_columns read_lines
read = (_, refl)

summarize-accounts_example :
    let entries = summarize in_order read.0.rows in
    let runs = sum (map (λ (e : Entry). e.n) entries) in
    (runs ≡ 2)
    × (runs + length read.0.failures ≡ 3 + 1)
    × (sum (map (λ (e : Entry). e.errors) entries) ≡ errors_in read.0.rows)
summarize-accounts_example =
    Accounting.summarize-accounts errors_of columns_of in_order directories read.1
