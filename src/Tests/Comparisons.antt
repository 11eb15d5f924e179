-- ===== src/Tests/Comparisons.antt =====
-- A landscape campaign of eleven small groups, of which one does not qualify, and its documents.
use cachelib_grpc_server.Common.{
  ℕ, String, ◌==◌, ◌≡◌, refl, Bool, true, some, none, List, [], ◌∷◌, map, if◌then◌else◌, ok, Place,
  All,
}
use cachelib_grpc_server.Campaign.Spec.{Spec, Run, group, defaults, expected_runs}
use cachelib_grpc_server.Campaign.Evidence.{
  RunFiles, required, keys, is_nonzero, is_positive, equals, is_below_99_percent,
}
use cachelib_grpc_server.Campaign.Validate.{
  validate_group, collect, validate_run, validate_result, validate_doc, missing, doc_problems,
  field_problems, drop_only_exit, probe_problems, error_problems, limitations, limited_by,
  drops_are_expected, probe_passed, is_excused, observations,
}
use cachelib_grpc_server.Reports.Floats.{round}
use cachelib_grpc_server.Published.Rows.{Row, percent}
use cachelib_grpc_server.Published.Ranking.{ranking, comparison_sentence}
use cachelib_grpc_server.Published.Cells.{total_of, engine_lines, line_of}
use cachelib_grpc_server.Published.Render.{
  Entry, Sources, check_evidence, check_entries, all_passed_of,
}
use cachelib_grpc_server.Published.Landscape.Headlines.{
  Figures, shown, order, hit_lines, set_lines, figures, readme_headlines,
}
use cachelib_grpc_server.Published.Landscape.Leads.{lead_groups, leads_of, file_tier}
use cachelib_grpc_server.Published.Landscape.Report.{Document, case_lines, sections, render}
use cachelib_grpc_server.Published.Landscape.Claims.{AllQualify, IsEarned}
use cachelib_grpc_server.Published.Landscape.Backed
use cachelib_grpc_server.Published.Landscape.Backed.{AreTrue}
use cachelib_grpc_server.Tests.Fixtures.{kv_files}

abbrev small : String → Spec
small name = group name "hit_1k_c8" "grpc,grpc_nvm,redis,kvrocks" (record defaults { reps = 1 })

abbrev small_groups : List Spec
small_groups = map small lead_groups

abbrev row_of : String → ℕ → Row
row_of engine rate = record {
  case = "hit_1k_c8";
  repetition = 0;
  engine = engine;
  cells =
      ("objects_s", some rate)
      ∷ ("p99_ms", some 1)
      ∷ ("origins", some 0)
      ∷ ("hit_ratio", some 1)
      ∷ ("errors", some 0)
      ∷ [];
}

abbrev rows : String → List Row
rows name = row_of "grpc" 700 ∷ row_of "redis" 900 ∷ row_of "grpc_nvm" 300 ∷ []

abbrev all_runs : String → Run → RunFiles
all_runs name run = kv_files

-- The group of the offered load has no evidence.
abbrev some_runs : String → Run → RunFiles
some_runs name run = if name == "offered" then record kv_files { correctness = none } else kv_files

validation : Unit {0}
unfolding validate_group collect expected_runs validate_run validate_result validate_doc missing
    doc_problems field_problems drop_only_exit probe_problems error_problems limitations limited_by
    drops_are_expected probe_passed is_excused observations required keys is_nonzero is_positive
    equals is_below_99_percent
validation = tt

headlines : Unit {0}
unfolding readme_headlines figures order hit_lines set_lines ranking comparison_sentence percent
    round
headlines = tt

figures_shown : (f : Figures) × (readme_headlines 2 all_runs rows small_groups ≡ ok (shown f))
unfolding validation headlines
figures_shown = (_, refl)

shown-AreTrue_example :
    ((g : Spec)
      → Place g small_groups
      → g.headline ≡ true
      → AllQualify all_runs rows small_groups g)
    × AreTrue rows small_groups figures_shown.0
shown-AreTrue_example = Backed.shown-AreTrue 2 all_runs rows small_groups figures_shown.1

abbrev always : List Spec → List Spec → Bool
always a b = true

abbrev entry : Entry
entry = record { valid = true; evidence = ("runs/a.json", "runs/a.json") ∷ [] }

abbrev sources : Sources
sources = record {
  campaign = record {
    groups = small_groups;
    progress = map (λ (g : Spec). (g.name, entry)) small_groups;
    finished = true;
  };
  hash_of = λ name. name;
  runs = some_runs;
  rows = rows;
}

report : Unit {0}
unfolding render sections case_lines engine_lines line_of total_of percent round ranking
    comparison_sentence leads_of file_tier check_entries check_evidence all_passed_of
report = tt

abbrev images : List (String × String)
images = ("grpc", "sha256:a") ∷ ("redis", "sha256:b") ∷ []

rendered : (d : Document) × (render always 2 sources images small_groups ≡ ok d)
unfolding validation report
rendered = (_, refl)

leads-IsEarned_example : All (IsEarned some_runs rows small_groups) rendered.0.leads
leads-IsEarned_example = Backed.leads-IsEarned always 2 sources images small_groups rendered.1
