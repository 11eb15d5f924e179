-- ===== src/Tests/Sessions.antt =====
-- Campaigns from their start, and after an interruption.
use cachelib_grpc_server.Common.{
  ℕ, ◌≡◌, refl, ◌≢◌, ◌↔◌, Bool, true, false, none, List, [], ◌∷◌, ok, All,
}
use cachelib_grpc_server.Campaign.Spec.{Spec, expected_runs}
use cachelib_grpc_server.Campaign.Evidence.{
  required, keys, is_nonzero, is_positive, equals, is_below_99_percent,
}
use cachelib_grpc_server.Campaign.Command.{group_command}
use cachelib_grpc_server.Campaign.Validate.{
  validate_group, collect, validate_run, validate_result, validate_doc, missing, doc_problems,
  field_problems, drop_only_exit, probe_problems, error_problems, limitations, limited_by,
  drops_are_expected, probe_passed, is_excused, observations,
}
use cachelib_grpc_server.Campaign.Driver.{
  Campaign, World, resume_state, fresh_state, measure, done, outcome, all_flags, run_groups, begun,
  start, finish, run,
}
use cachelib_grpc_server.Campaign.Driver.Resume
use cachelib_grpc_server.Campaign.Driver.Resume.{Distinct}
use cachelib_grpc_server.Campaign.Driver.Ending
use cachelib_grpc_server.Campaign.Driver.Ending.{IsDone}
use cachelib_grpc_server.Campaign.Driver.Verdict
use cachelib_grpc_server.Campaign.Driver.Verdict.{Passes, pinned}
use cachelib_grpc_server.Tests.Fixtures.{kv_files, primary, offered, image_ids}

abbrev machine : World
machine = record {
  grpc_image = "grpc:1.8.0";
  inside_repository = true;
  resume = false;
  saved = none;
  outputs_exist = false;
  ncpu = 8;
  file_hash = λ f. f;
  harness_files = "run_strong.py" ∷ [];
  references = ("grpc", "grpc:1.8.0") ∷ ("go", "go:rc") ∷ ("python", "python:local") ∷ [];
  resolve = λ r. r;
  architecture = λ r. "arm64";
  runs_root = "runs/";
  exit_code = λ parts. 0;
  summary_code = λ g. 0;
  evidence = λ parts r. kv_files;
}

abbrev empty : Campaign
empty = record {
  images = image_ids;
  harness = ("run_strong.py", "run_strong.py") ∷ [];
  groups = primary ∷ [];
  progress = [];
  finished = none;
}

abbrev always : List Spec → List Spec → Bool
always a b = true

measured-Distinct_example : Distinct (run_groups machine (primary ∷ offered ∷ []) empty).measured
measured-Distinct_example = Resume.measured-Distinct machine (primary ∷ offered ∷ []) empty

abbrev again : World
again = record machine { grpc_image = "sha256:a"; resume = true }

resume_state-refuses_example :
    resume_state always again (primary ∷ []) (begun primary empty) ≢ ok empty
resume_state-refuses_example = Resume.resume_state-refuses always again (primary ∷ []) empty primary

run_ends : (c : Campaign) × (run always machine (primary ∷ []) ≡ ok (c, 0))
unfolding run start resume_state fresh_state run_groups measure done outcome finish all_flags
    group_command validate_group collect validate_run validate_result validate_doc missing
    doc_problems field_problems drop_only_exit probe_problems error_problems limitations limited_by
    drops_are_expected expected_runs required keys is_nonzero is_positive equals is_below_99_percent
    probe_passed is_excused observations
run_ends = (_, refl)

run_verdict_example : ◌≡◌ {A = ℕ} 0 0 ↔ All (Passes machine (pinned machine)) (primary ∷ [])
run_verdict_example = Verdict.run_verdict always machine (primary ∷ []) refl (tt, tt) run_ends.1

abbrev with_nginx : World
with_nginx = record machine { references = ("nginx", "nginx:1.30") ∷ machine.references }

fresh_start : (s : Campaign) × (start always with_nginx (primary ∷ offered ∷ []) ≡ ok s)
unfolding start fresh_state
fresh_start = (_, refl)

run-IsDone_example :
    (final : Campaign) × (code : ℕ) × (run always with_nginx (primary ∷ offered ∷ [])
      ≡ ok (final, code))
    × All (IsDone final.progress) (primary ∷ offered ∷ [])
unfolding start fresh_state fresh_start
run-IsDone_example =
    Ending.run-IsDone always with_nginx (primary ∷ offered ∷ []) fresh_start.1
      (refl, (refl, (refl, (refl, tt))))
