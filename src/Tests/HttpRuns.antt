-- ===== src/Tests/HttpRuns.antt =====
-- Single runs of the HTTP harness.
use mathlib.Core.List.{Perm, reverse, reverse_perm}
use cachelib_grpc_server.Common.{
  ℕ, String, ◌≡◌, refl, subst, true, false, none, some, List, [], ◌∷◌, ◌==◌, if◌then◌else◌, Result,
  ok, err, here, there,
}
use cachelib_grpc_server.Campaign.Spec.{Spec, Run, http, expected_runs, group, defaults}
use cachelib_grpc_server.Campaign.Evidence.{nat, Doc, is_nonzero}
use cachelib_grpc_server.Campaign.Validate.{value}
use cachelib_grpc_server.Campaign.Validate.Accepted.{IsAccepted}
use cachelib_grpc_server.Http.Harness.{
  World, fresh, start_path, ready, await_marker, is_failed, conclude, measure, body, run_one,
  files_of,
}
use cachelib_grpc_server.Http.Harness
use cachelib_grpc_server.Http.Harness.Removal
use cachelib_grpc_server.Http.Harness.Outcome
use cachelib_grpc_server.Http.Harness.Outcome.{containers_of}
use cachelib_grpc_server.Http.Harness.Schedule.{schedule}
use cachelib_grpc_server.Http.Harness.Schedule.Groups
use cachelib_grpc_server.Summaries.Counters.{read_lines}
use cachelib_grpc_server.Summaries.Values.{Row}
use cachelib_grpc_server.Summaries.HttpRow.{
  HttpDoc, HttpFiles, components, seconds, peak, http_columns,
}
use cachelib_grpc_server.Summaries.HttpRow.Containers
use cachelib_grpc_server.Summaries.HttpRow.Containers.{Shows}

abbrev http_doc : Doc
http_doc = record {
  args = none;
  client_exit_code = some (nat 0);
  dropped_arrivals = none;
  elapsed_s = some (nat 60);
  errors = some (nat 0);
  latency_samples = some (nat 1000);
  measure_seconds = some (nat 60);
  origin_requests_delta = some (nat 0);
  origins = none;
  warmup_errors = some (nat 0);
  warmup_stable = none;
  others = [];
}

abbrev smooth : World
smooth = record {
  start = λ name. ok tt;
  probe = λ i. ok true;
  client_looks = record { marked = true; gone = false } ∷ [];
  sampled = ok tt;
  waited = ok false;
  sampled_again = ok tt;
  result_line = ok http_doc;
  printed = ok tt;
  logs = λ part. ok tt;
  stops = λ part. ok tt;
  removes = λ part. ok true;
}

run_one-removes_example :
    ((run_one smooth "grpc_adapter").0 ≡ ok tt)
    × ((run_one smooth "grpc_adapter").1.removed
        ≡ Harness.reverse (body smooth "grpc_adapter" fresh).1.started)
run_one-removes_example = Removal.run_one-removes smooth "grpc_adapter" (λ part. (refl, refl, refl))

harness : Unit {0}
unfolding body measure conclude start_path ready await_marker is_failed is_nonzero
harness = tt

-- The result has no field that is printed.
abbrev unprinted : World
unprinted = record smooth { printed = err "'objects_s'" }

abbrev http_group : Spec
http_group = group "http" "repeated_256k_c8" "grpc_adapter,nginx" (record defaults { kind = http })

abbrev nginx_run : Run
nginx_run = record { case = "repeated_256k_c8"; rep = 0; engine = "nginx" }

unprinted_raises : (body unprinted "nginx" fresh).0 ≡ err "'objects_s'"
unfolding harness
unprinted_raises = refl

undropped : (d : Doc) → unprinted.result_line ≡ ok d → is_nonzero (value d.dropped_arrivals) ≡ false
unfolding harness
undropped d h = subst (λ c. is_nonzero (value c.dropped_arrivals) ≡ false) (doc_injective h) refl
  where
    doc_injective : {c d : Doc} → ◌≡◌ {A = Result String Doc} (ok c) (ok d) → c ≡ d
    doc_injective e = cc

raised_refused_example : ¬ IsAccepted http_group nginx_run (files_of (run_one unprinted "nginx").1)
raised_refused_example =
    Outcome.raised_refused unprinted "nginx" http_group nginx_run unprinted_raises undropped

abbrev reversed : ℕ → List String → List String
reversed k = reverse

groups_schedule_example :
    Perm (schedule reversed http_group.cases http_group.reps) (expected_runs http_group)
groups_schedule_example =
    Groups.groups_schedule reversed (λ k xs. reverse_perm xs)
      (there (there (there (there (there here))))) refl

-- A row of the run, from the containers that its result names.
abbrev http_run : HttpDoc
http_run = record {
  path_containers = "cache" ∷ "target" ∷ [];
  origin_container = none;
  successful_objects = 1000;
  origin_requests_delta = 4;
  size_bytes = 262144;
  client_cpu_usec = 80;
  fields =
      ("objects_s", "10.0")
      ∷ ("payload_mib_s", "2.5")
      ∷ ("origin_bytes_delta", "0")
      ∷ ("p50_ms", "1.0")
      ∷ ("p95_ms", "2.0")
      ∷ ("p99_ms", "3.0")
      ∷ ("latency_samples", "1000")
      ∷ ("client_memory_peak_bytes", "4096")
      ∷ [];
}

abbrev usage_of : String → String → List (List String)
usage_of usec name = ("usage_usec" ∷ usec ∷ []) ∷ (if name == "cache" then "77" ∷ [] else []) ∷ []

abbrev run_files : HttpFiles
run_files = record { before = usage_of "100"; after = usage_of "450"; cache = [] }

http_row : (row : Row) × (http_columns "grpc_adapter" http_run run_files ≡ ok row)
unfolding http_columns components read_lines
http_row = (_, refl)

ended : (body smooth "grpc_adapter" fresh).1.result ≡ some http_doc
unfolding harness
ended = refl

named : http_run.path_containers ≡ (body smooth "grpc_adapter" fresh).1.path_containers
unfolding harness
named = refl

adapter_columns_example :
    Shows run_files http_row.0 "cache" seconds "grpc_server_cpu_s"
    × Shows run_files http_row.0 "cache" peak "grpc_server_memory_peak_bytes"
    × Shows run_files http_row.0 "target" seconds "adapter_cpu_s"
    × Shows run_files http_row.0 "target" peak "adapter_memory_peak_bytes"
adapter_columns_example =
    Containers.adapter_columns smooth http_run run_files ended named http_row.1
