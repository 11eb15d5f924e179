-- ===== src/Tests/Documents.antt =====
-- A campaign of four small groups, and the documents that are made of it.
use cachelib_grpc_server.Common.{
  ℕ, String, ◌≡◌, refl, ◌↔◌, Bool, true, some, List, [], ◌∷◌, ◌++◌, map, false, ◌==◌, if◌then◌else◌,
  ok, Place, here, there, All,
}
use cachelib_grpc_server.Campaign.Spec.{Spec, Run, group, defaults, expected_runs}
use cachelib_grpc_server.Campaign.Evidence.{
  required, keys, is_nonzero, is_positive, equals, is_below_99_percent,
}
use cachelib_grpc_server.Campaign.Validate.{
  validate_group, collect, validate_run, validate_result, validate_doc, missing, doc_problems,
  field_problems, drop_only_exit, probe_problems, error_problems, limitations, limited_by,
  drops_are_expected, probe_passed, is_excused, observations,
}
use cachelib_grpc_server.Campaign.Validate.Accepted.{IsAccepted}
use cachelib_grpc_server.Campaign.Validate.Claims.{Qualifies}
use cachelib_grpc_server.Reports.Floats.{round}
use cachelib_grpc_server.Published.Blocks.{begin, end, other, replace_readme_headlines}
use cachelib_grpc_server.Published.Rows.{Row, percent}
use cachelib_grpc_server.Published.Cells.{total_of, engine_lines, case_lines, line_of}
use cachelib_grpc_server.Published.Headlines.{
  Group, Summary, Files, expected_keys, is_incomplete, medians_of, collect_medians, check_rows,
  check_full_hits,
}
use cachelib_grpc_server.Published.Headlines.Figures.{
  Shown, shown, figure_cells, is_slower, supported, readme_headlines,
}
use cachelib_grpc_server.Published.Headlines.Bound
use cachelib_grpc_server.Published.Headlines.Bound.{IsFullHit}
use cachelib_grpc_server.Published.Render.{
  Entry, Sources, Document, check_evidence, check_entries, comparisons, sections, all_passed_of,
  render,
}
use cachelib_grpc_server.Published.Render.Claims
use cachelib_grpc_server.Published.Render.Claims.{IsBacked, IsValid}
use cachelib_grpc_server.Published.Render.Main.{Docs, main}
use cachelib_grpc_server.Tests.Fixtures.{kv_files}

abbrev small : String → String → Spec
small name engines = group name "hit_1k_c8" engines (record defaults { reps = 1 })

abbrev small_groups : List Spec
small_groups =
    small "primary" "grpc,redis,valkey,memcached"
    ∷ small "hybrid" "grpc_nvm,grpc,memcached_extstore"
    ∷ small "offered" "grpc_nvm,grpc"
    ∷ small "http" "grpc_adapter,nginx"
    ∷ []

abbrev row_of : String → ℕ → Row
row_of engine rate = record {
  case = "hit_1k_c8";
  repetition = 0;
  engine = engine;
  cells =
      ("objects_s", some rate)
      ∷ ("p99_ms", some 1)
      ∷ ("origins", some 0)
      ∷ ("hit_ratio", some 1)
      ∷ ("errors", some 0)
      ∷ [];
}

abbrev rows : List Row
rows = row_of "grpc" 700 ∷ row_of "redis" 900 ∷ row_of "valkey" 800 ∷ []

abbrev medians : Group
medians = record {
  n = 1;
  errors = 0;
  medians =
      ("objects_s", 200) ∷ ("p99_ms", 1) ∷ ("origins", 0) ∷ ("nvm_device_bytes_read_delta", 4) ∷ [];
}

abbrev summary_in : List Spec → String → Summary
summary_in [] name = record { failed_runs = 1; groups = [] }
summary_in (g ∷ gs) name =
    let rest = summary_in gs name in
    if g.name == name
    then record { failed_runs = 0; groups = map (λ key. (key, medians)) (expected_keys g) }
    else rest

abbrev all_rows : List Row
all_rows =
    row_of "grpc" 700
    ∷ row_of "redis" 900
    ∷ row_of "grpc_nvm" 300
    ∷ row_of "grpc_adapter" 50
    ∷ row_of "nginx" 70
    ∷ []

abbrev files : Files
files = record {
  runs = λ name run. kv_files;
  summary = summary_in small_groups;
  rows = λ name. all_rows;
  requested = ("redis", some "redis:8.2.10") ∷ ("grpc", some "sha256:a") ∷ [];
}

validation : Unit {0}
unfolding validate_group collect expected_runs validate_run validate_result validate_doc missing
    doc_problems field_problems drop_only_exit probe_problems error_problems limitations limited_by
    drops_are_expected probe_passed is_excused observations required keys is_nonzero is_positive
    equals is_below_99_percent
validation = tt

headlines : Unit {0}
unfolding readme_headlines supported figure_cells is_slower collect_medians medians_of is_incomplete
    check_rows check_full_hits round
headlines = tt

figures_shown : (s : Shown) × (readme_headlines 1 2 files small_groups ≡ ok (shown s))
unfolding validation headlines
figures_shown = (_, refl)

abbrev redis_run : Run
redis_run = record { case = "hit_1k_c8"; rep = 0; engine = "redis" }

shown-Qualifies_example :
    Qualifies (small "primary" "grpc,redis,valkey,memcached") redis_run kv_files
unfolding expected_runs
shown-Qualifies_example =
    Bound.shown-Qualifies 1 2 files small_groups figures_shown.1 here refl (there here)

abbrev always : List Spec → List Spec → Bool
always a b = true

abbrev entry : Entry
entry = record { valid = true; evidence = ("runs/a.json", "runs/a.json") ∷ [] }

abbrev sources : Sources
sources = record {
  campaign = record {
    groups = small_groups;
    progress = map (λ (g : Spec). (g.name, entry)) small_groups;
    finished = true;
  };
  hash_of = λ name. name;
  runs = λ name run. kv_files;
  rows = λ name. all_rows;
}

report : Unit {0}
unfolding render comparisons sections case_lines engine_lines line_of total_of percent round
    check_entries check_evidence all_passed_of
report = tt

rendered : (d : Document) × (render always 2 sources small_groups ≡ ok d)
unfolding validation report
rendered = (_, refl)

passed-IsAccepted_example : (rendered.0.passed ≡ true) ↔ (
    All IsValid sources.campaign.progress
    × ((g : Spec) (run : Run)
        → Place g small_groups
        → Place run (expected_runs g)
        → IsAccepted g run kv_files))
passed-IsAccepted_example = Claims.passed-IsAccepted always 2 sources small_groups rendered.1

abbrev before : Docs
before = record {
  report = "old";
  readme = other "intro" ∷ begin ∷ other "stale" ∷ end ∷ other "rest" ∷ [];
}

abbrev after : Docs
after = record {
  report = "report";
  readme = other "intro" ∷ begin ∷ other "new" ∷ end ∷ other "rest" ∷ [];
}

written :
    main (λ d. "report") (λ h. "new") false (ok rendered.0) (ok (shown figures_shown.0)) before
    ≡ ok after
unfolding main replace_readme_headlines
written = refl

abbrev run_of : String → ℕ → Row
run_of engine n = record {
  case = "http_256k";
  repetition = n;
  engine = engine;
  cells =
      ("errors", some 0)
      ∷ ("origins", some 0)
      ∷ ("objects_s", some 90)
      ∷ ("p99_ms", some 2)
      ∷ ("server_cpu_us_per_object", some 7)
      ∷ ("server_memory_peak_bytes", some 4096)
      ∷ [];
}

abbrev five_of : String → List Row
five_of engine =
    run_of engine 3 ∷ run_of engine 0 ∷ run_of engine 4 ∷ run_of engine 1 ∷ run_of engine 2 ∷ []

abbrev http_rows : String → List Row
http_rows source = five_of "nginx" ++ five_of "grpc_adapter"
