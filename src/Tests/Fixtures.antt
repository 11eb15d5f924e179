-- ===== src/Tests/Fixtures.antt =====
-- Evidence and campaigns that the tests share.
use cachelib_grpc_server.Common.{String, true, false, none, some, List, [], ◌∷◌}
use cachelib_grpc_server.Campaign.Spec.{Spec, Run, group, defaults}
use cachelib_grpc_server.Campaign.Evidence.{nat, Doc, parsed, Probe, RunFiles}

-- A KV result of a sound run of 60 seconds.
abbrev pub kv_doc : Doc
kv_doc = record {
  args = some (some (nat 60));
  client_exit_code = some (nat 0);
  dropped_arrivals = some (nat 0);
  elapsed_s = some (record { negative = false; mantissa = 60003; places = 3 });
  errors = some (nat 0);
  latency_samples = some (nat 1000);
  measure_seconds = none;
  origin_requests_delta = none;
  origins = some (nat 0);
  warmup_errors = none;
  warmup_stable = some true;
  others =
      "client_cgroup_after" ∷ "client_cgroup_before" ∷ "hits" ∷ "latency_ms" ∷ "operations"
      ∷ "server_stats_after" ∷ "server_stats_before" ∷ "successful_ops_s" ∷ [];
}

-- The same with dropped arrivals, which the client reports by status 3.
abbrev pub dropped_doc : Doc
dropped_doc = record kv_doc { dropped_arrivals = some (nat 100); client_exit_code = some (nat 3) }

abbrev pub passed : Probe
passed = record { basic = some "passed"; batch_pipeline = some "passed" }

abbrev pub kv_files : RunFiles
kv_files = record { result = parsed kv_doc; error_txt = none; correctness = some passed }

abbrev pub primary : Spec
primary = group "primary" "hit_1k_c8" "grpc" (record defaults { reps = 1 })

abbrev pub offered : Spec
offered = group "offered" "offered_origin_64k_1500" "grpc" (record defaults { reps = 1 })

abbrev pub grpc_run : Run
grpc_run = record { case = "hit_1k_c8"; rep = 0; engine = "grpc" }

abbrev pub image_ids : List (String × String)
image_ids =
    ("grpc", "sha256:a") ∷ ("go", "sha256:b") ∷ ("python", "sha256:c") ∷ ("redis", "sha256:d") ∷ []
