-- ===== src/Tests/Runs.antt =====
-- Single runs of the harness.
use mathlib.Core.List.{Perm, reverse, reverse_perm}
use cachelib_grpc_server.Common.{
  ℕ, String, ◌≡◌, refl, true, false, none, some, List, [], ◌∷◌, ok, err, here, Result,
}
use cachelib_grpc_server.Campaign.Spec.{Spec, expected_runs, kv, group, defaults}
use cachelib_grpc_server.Campaign.Evidence.{
  Doc, is_nonzero, is_positive, equals, is_below_99_percent, required, keys,
}
use cachelib_grpc_server.Campaign.Validate.{
  value, validate_run, validate_result, validate_doc, missing, doc_problems, field_problems,
  drop_only_exit, probe_problems, error_problems, limitations, limited_by, drops_are_expected,
  probe_passed, is_excused, observations,
}
use cachelib_grpc_server.Campaign.Validate.Accepted
use cachelib_grpc_server.Campaign.Validate.Accepted.{IsAccepted}
use cachelib_grpc_server.Harness.Engines.{Word, ServerError, server_arguments}
use cachelib_grpc_server.Harness.RunOnce.{
  World, body, measure, conclude, await_server, await_client, attempt, cleanup, fresh, files_of,
  is_flagged,
}
use cachelib_grpc_server.Harness.RunOnce.Cleanup
use cachelib_grpc_server.Harness.RunOnce.Cleanup.{Cleaned}
use cachelib_grpc_server.Harness.RunOnce.Written
use cachelib_grpc_server.Harness.RunOnce.Written.{IsMeasured}
use cachelib_grpc_server.Harness.Schedule.{schedule, measured}
use cachelib_grpc_server.Harness.Schedule.Measured
use cachelib_grpc_server.Harness.Schedule.Groups
use cachelib_grpc_server.Harness.Schedule.Groups.{Launches}
use cachelib_grpc_server.Tests.Fixtures.{kv_doc, dropped_doc, passed, primary, offered, grpc_run}

abbrev words_or_nil : Result ServerError (List Word) → List Word
words_or_nil (ok ws) = ws
words_or_nil (err e) = []

abbrev garnet_words : List Word
garnet_words = words_or_nil (server_arguments "garnet_storage" 96 512)

-- A run in which everything answers.
abbrev smooth : World
smooth = record {
  set_up = ok tt;
  look = λ i. record { exited = false; answers = true };
  verified = ok passed;
  client = ok tt;
  client_looks = record { marked = true; gone = false } ∷ [];
  stats_before = ok tt;
  waited = ok tt;
  stats_after = ok tt;
  result_line = ok kv_doc;
  inspected = ok tt;
  printed = ok tt;
  logs = λ c. ok tt;
  stops = λ c. ok tt;
  removes = λ c. ok true;
  flash_files = none;
}

attempt-cleans_example :
    ((attempt smooth "grpc" false fresh).0 ≡ ok tt)
    × Cleaned smooth "grpc" false (attempt smooth "grpc" false fresh).1
attempt-cleans_example =
    Cleanup.attempt-cleans smooth "grpc" false (refl, refl, refl) (refl, refl, refl)

-- Docker does not answer when it is asked for a log.
abbrev unlogged : World
unlogged = record smooth { logs = λ c. err "docker logs timed out" }

unlogged-leaves_example :
    ((attempt unlogged "grpc" false fresh).0 ≡ err "docker logs timed out")
    × ((attempt unlogged "grpc" false fresh).1.removed ≡ [])
    × ((attempt unlogged "grpc" false fresh).1.server_log ≡ false)
    × ((attempt unlogged "grpc" false fresh).1.usage ≡ none)
unlogged-leaves_example = Cleanup.unlogged-leaves unlogged "grpc" false refl

-- The server is gone when its container is inspected, after a run with drops.
abbrev masked : World
masked = record smooth { result_line = ok dropped_doc; inspected = err "no such container" }

validation : Unit {0}
unfolding validate_run validate_result validate_doc missing doc_problems field_problems
    drop_only_exit probe_problems error_problems limitations limited_by drops_are_expected
    probe_passed is_excused observations required keys is_nonzero is_positive equals
    is_below_99_percent
validation = tt

program : Unit {0}
unfolding attempt cleanup body measure conclude await_server await_client is_flagged is_nonzero
program = tt

masked_raises : (body masked fresh).0 ≡ err "no such container"
unfolding program
masked_raises = refl

-- The text of the exception is in the directory, and the run is accepted.
masked-IsAccepted : IsAccepted offered grpc_run (files_of (attempt masked "grpc" false fresh).1)
unfolding program validation
masked-IsAccepted =
    (Accepted.validate_run-IsAccepted offered grpc_run
        (files_of (attempt masked "grpc" false fresh).1)).0
      refl

raised_accepted_example :
    (d : Doc) × ((body masked fresh).1.result ≡ some d)
    × (is_nonzero (value d.dropped_arrivals) ≡ true)
    × (is_nonzero (value d.errors) ≡ false)
raised_accepted_example =
    Written.raised_accepted masked "grpc" false offered grpc_run masked_raises masked-IsAccepted

kv-IsMeasured : IsMeasured primary "grpc" passed kv_doc
unfolding validation
kv-IsMeasured = record {
  complete = Accepted.absent_from-all (required kv) (keys kv_doc) refl;
  sampled = refl;
  configured = refl;
  warmed = refl;
  full_time = refl;
  probed = refl;
}

smooth_ends : (body smooth fresh).0 ≡ ok tt
unfolding program
smooth_ends = refl

smooth_unflagged : is_flagged kv_doc ≡ ok false
unfolding program
smooth_unflagged = refl

unflagged-IsAccepted_example :
    IsAccepted primary grpc_run (files_of (attempt smooth "grpc" false fresh).1)
unflagged-IsAccepted_example =
    Written.unflagged-IsAccepted smooth "grpc" false primary grpc_run smooth_ends refl refl
      smooth_unflagged kv-IsMeasured

-- The order of the engines reversed, at every seed.
abbrev reversed : ℕ → List String → List String
reversed k = reverse

abbrev first_group : Spec
first_group = group "primary" "hit_1k_c8" "grpc,redis,valkey,memcached" defaults

groups_measured_example :
    Perm
      (measured (schedule reversed first_group.cases first_group.reps first_group.engines))
      (expected_runs first_group)
groups_measured_example = Measured.groups_measured reversed (λ k xs. reverse_perm xs) here refl

groups_launch_example :
    Launches kv (group "primary" "hit_1k_c8" "grpc,redis,valkey,memcached" defaults)
groups_launch_example = Groups.groups_launch here
