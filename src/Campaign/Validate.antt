-- ===== src/Campaign/Validate.antt =====
-- bench/strong/release_campaign.py: `validate_group`. The findings of a run are three lists, and a
-- group's are those of its runs, one run after another.
pub mod Accepted
pub mod Claims
use cachelib_grpc_server.Common.{
  ℕ, ◌+◌, String, ◌==◌, Bool, true, false, not, ◌&&◌, ◌||◌, Option, none, some, List, [], ◌∷◌, ◌++◌,
  map, length, is_empty, elem, starts_with, if◌then◌else◌, is_some,
}
use cachelib_grpc_server.Campaign.Spec.{Kind, kv, http, Spec, Run, expected_runs}
use cachelib_grpc_server.Campaign.Evidence.{
  Number, nat, is_nonzero, is_positive, equals, is_below_99_percent, Doc, keys, required, absent,
  unreadable, parsed, ResultFile, Probe, RunFiles, Issue, missing_result, recorded_error,
  unreadable_result, missing_fields, no_latency_samples, other_duration, nonzero_field,
  truncated_measurement, missing_probe, failed_probe, dropped_arrivals_seen, unstable_warmup,
  full_hit_origins, repeated_hit_origins,
}

abbrev pub report_if : Bool → Issue → List Issue
report_if true i = i ∷ []
report_if false i = []

-- `d.get(field, 0)`, and `d[field]` of a required field
abbrev pub value : Option Number → Number
value none = nat 0
value (some n) = n

abbrev pub is_kv : Kind → Bool
is_kv kv = true
is_kv http = false

-- `sorted(required - d.keys())`
abbrev absent_from : List String → List String → List String
absent_from [] present = []
absent_from (k ∷ ks) present =
    if elem k present then absent_from ks present else k ∷ absent_from ks present

unfoldable pub missing : Kind → Doc → List String
missing kind d = absent_from (required kind) (keys d)

abbrev get_args : Option (Option Number) → Option Number
get_args none = none
get_args (some seconds) = seconds

-- The configured duration: `d["args"].get("measure_seconds")` or `d["measure_seconds"]`.
abbrev pub configured_seconds : Kind → Doc → Option Number
configured_seconds kv d = get_args d.args
configured_seconds http d = d.measure_seconds

abbrev pub is_seconds : Option Number → ℕ → Bool
is_seconds none n = false
is_seconds (some s) n = equals s n

-- The KV client exits with 3 for dropped arrivals too.
unfoldable pub drop_only_exit : Spec → Doc → Bool
drop_only_exit spec d =
    is_kv spec.kind
    && (equals (value d.client_exit_code) 3
        && (is_positive (value d.dropped_arrivals) && not (is_nonzero (value d.errors))))

-- The loop over `errors`, `client_exit_code` and `warmup_errors`.
unfoldable pub field_problems : Spec → Doc → List Issue
unfolding drop_only_exit
field_problems spec d =
    report_if (is_nonzero (value d.errors)) (nonzero_field "errors" (value d.errors))
    ++ (report_if (not (drop_only_exit spec d) && is_nonzero (value d.client_exit_code))
          (nonzero_field "client_exit_code" (value d.client_exit_code))
        ++ report_if (is_nonzero (value d.warmup_errors))
            (nonzero_field "warmup_errors" (value d.warmup_errors)))

abbrev is_passed : Option String → Bool
is_passed none = false
is_passed (some s) = s == "passed"

unfoldable pub probe_passed : String → Probe → Bool
probe_passed engine p =
    is_passed p.basic && (not (starts_with "grpc" engine) || is_passed p.batch_pipeline)

unfoldable pub probe_problems : Kind → String → Option Probe → List Issue
unfolding probe_passed
probe_problems kv engine none = missing_probe ∷ []
probe_problems kv engine (some p) = report_if (not (probe_passed engine p)) failed_probe
probe_problems http engine probe = []

-- Drops excuse an error text, when there is no error and the exit status is 0 or tells of drops.
unfoldable pub is_excused : Spec → Doc → Bool
unfolding drop_only_exit
is_excused spec d =
    is_nonzero (value d.dropped_arrivals)
    && (not (is_nonzero (value d.errors))
        && (not (is_nonzero (value d.client_exit_code)) || drop_only_exit spec d))

unfoldable pub error_problems : Spec → Doc → Option String → List Issue
unfolding is_excused
error_problems spec d none = []
error_problems spec d (some text) = report_if (not (is_excused spec d)) (recorded_error text)

unfoldable pub doc_problems : Spec → String → RunFiles → Doc → List Issue
doc_problems spec engine files d =
    report_if (not (is_positive (value d.latency_samples))) no_latency_samples
    ++ (report_if (not (is_seconds (configured_seconds spec.kind d) spec.seconds))
          (other_duration (configured_seconds spec.kind d) spec.seconds)
        ++ (field_problems spec d
            ++ (report_if (is_below_99_percent (value d.elapsed_s) spec.seconds)
                  (truncated_measurement (value d.elapsed_s))
                ++ (probe_problems spec.kind engine files.correctness
                    ++ error_problems spec d files.error_txt))))

abbrev pub full_hit_groups : List String
full_hit_groups = "primary" ∷ "ram192" ∷ "flash384" ∷ "parity1g-hit" ∷ []

-- Dropped arrivals are an observation where the group looks for them.
unfoldable pub drops_are_expected : Spec → Bool
drops_are_expected spec = spec.name == "offered-saturation" || spec.overload_probe

abbrev pub is_unstable : Doc → String → Bool
is_unstable d case = not (is_true d.warmup_stable) && not (starts_with "cold_" case)
  where
    is_true : Option Bool → Bool
    is_true none = false
    is_true (some b) = b

unfoldable pub observations : Spec → Run → Doc → List Issue
unfolding drops_are_expected
observations spec run d =
    if is_kv spec.kind
    then report_if (is_nonzero (value d.dropped_arrivals) && drops_are_expected spec)
        (dropped_arrivals_seen (value d.dropped_arrivals))
      ++ report_if (is_unstable d run.case && not spec.headline) unstable_warmup
    else []

unfoldable pub limited_by : Kind → Spec → Run → Doc → List Issue
unfolding drops_are_expected
limited_by kv spec run d =
    report_if (is_nonzero (value d.dropped_arrivals) && not (drops_are_expected spec))
      (dropped_arrivals_seen (value d.dropped_arrivals))
    ++ (report_if (is_unstable d run.case && spec.headline) unstable_warmup
        ++ report_if (elem spec.name full_hit_groups && is_nonzero (value d.origins))
            (full_hit_origins (value d.origins)))
limited_by http spec run d =
    report_if (spec.name == "http" && is_nonzero (value d.origin_requests_delta))
      (repeated_hit_origins (value d.origin_requests_delta))

unfoldable pub limitations : Spec → Run → Doc → List Issue
unfolding limited_by
limitations spec = limited_by spec.kind spec

pub record Findings : Type 0 where
  pub problems : List Issue
  pub observed : List Issue
  pub limited : List Issue

abbrev only_problem : Issue → Findings
only_problem i = record { problems = i ∷ []; observed = []; limited = [] }

abbrev absent_problem : Option String → Issue
absent_problem none = missing_result
absent_problem (some text) = recorded_error text

-- The body of the loop after the missing fields are computed.
unfoldable pub validate_doc : Spec → Run → RunFiles → Doc → List String → Findings
validate_doc spec run files d [] = record {
  problems = doc_problems spec run.engine files d;
  observed = observations spec run d;
  limited = limitations spec run d;
}
validate_doc spec run files d (k ∷ ks) = only_problem (missing_fields (k ∷ ks))

-- The loop's body, by what became of `result.json`.
unfoldable pub validate_result : Spec → Run → RunFiles → ResultFile → Findings
validate_result spec run files absent = only_problem (absent_problem files.error_txt)
validate_result spec run files (unreadable text) = only_problem (unreadable_result text)
validate_result spec run files (parsed d) = validate_doc spec run files d (missing spec.kind d)

unfoldable pub validate_run : Spec → Run → RunFiles → Findings
unfolding validate_result
validate_run spec run files = validate_result spec run files files.result

pub record Report : Type 0 where
  pub expected : ℕ
  pub problems : List (Run × Issue)
  pub observed : List (Run × Issue)
  pub claim_limitations : List (Run × Issue)
  pub valid : Bool
  pub qualified : Bool

abbrev label : Run → List Issue → List (Run × Issue)
label run = map (λ i. (run, i))

-- The loop over the expected runs, whose directories `dir` gives.
unfoldable pub collect :
    (Findings → List Issue) → Spec → (Run → RunFiles) → List Run → List (Run × Issue)
collect part spec dir [] = []
collect part spec dir (run ∷ runs) =
    label run (part (validate_run spec run (dir run))) ++ collect part spec dir runs

unfoldable pub validate_group : Spec → (Run → RunFiles) → Report
validate_group spec dir =
    let runs = expected_runs spec in
    let problems = collect (λ f. f.problems) spec dir runs in
    let limited = collect (λ f. f.limited) spec dir runs in
    record {
      expected = length runs;
      problems = problems;
      observed = collect (λ f. f.observed) spec dir runs;
      claim_limitations = limited;
      valid = is_empty problems;
      qualified = is_empty problems && is_empty limited;
    }
