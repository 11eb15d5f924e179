-- ===== src/Tests/Campaigns.antt =====
-- Groups of runs and their evidence.
use cachelib_grpc_server.Common.{◌≡◌, refl, ◌↔◌, true, List, [], Result, ok, err, Place}
use cachelib_grpc_server.Campaign.Spec.{Run, expected_runs}
use cachelib_grpc_server.Campaign.Evidence.{RunFiles}
use cachelib_grpc_server.Campaign.Command
use cachelib_grpc_server.Campaign.Command.{Arg, KeyError, Carries, group_command}
use cachelib_grpc_server.Campaign.Validate.{validate_group}
use cachelib_grpc_server.Campaign.Validate.Accepted
use cachelib_grpc_server.Campaign.Validate.Accepted.{IsAccepted}
use cachelib_grpc_server.Campaign.Validate.Claims
use cachelib_grpc_server.Campaign.Validate.Claims.{Qualifies}
use cachelib_grpc_server.Tests.Fixtures.{kv_files, primary, image_ids}

abbrev dir : Run → RunFiles
dir run = kv_files

validate_group-valid_example :
    ((validate_group primary dir).valid ≡ true)
    ↔ ((run : Run) → Place run (expected_runs primary) → IsAccepted primary run (dir run))
validate_group-valid_example = Accepted.validate_group-valid primary dir

validate_group-qualified_example :
    ((validate_group primary dir).qualified ≡ true)
    ↔ ((run : Run) → Place run (expected_runs primary) → Qualifies primary run (dir run))
validate_group-qualified_example = Claims.validate_group-qualified primary dir

abbrev parts_or_nil : Result KeyError (List Arg) → List Arg
parts_or_nil (ok parts) = parts
parts_or_nil (err e) = []

abbrev words : List Arg
words = parts_or_nil (group_command primary image_ids "runs/primary")

group_command-Carries_example : Carries primary words
unfolding group_command
group_command-Carries_example =
    Command.group_command-Carries primary image_ids "runs/primary" refl refl
