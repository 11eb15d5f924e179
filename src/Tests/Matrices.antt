-- ===== src/Tests/Matrices.antt =====
-- A matrix with one engine, and one run that proves the use of the file tier.
use cachelib_grpc_server.Common.{
  String, Result, ◌≡◌, refl, true, false, none, some, ◌↔◌, [], ◌∷◌, here, there, ok, err, Place,
}
use cachelib_grpc_server.Harness.RunOnce.{await_server}
use cachelib_grpc_server.Matrix.Server.Agreement
use cachelib_grpc_server.Matrix.Runs.{World, Case, fresh, case, body, run_case}
use cachelib_grpc_server.Matrix.Runs.Outcome
use cachelib_grpc_server.Matrix.Jobs.{Job, run_jobs, job, jobs}
use cachelib_grpc_server.Matrix.Jobs.Chosen

setups-StartsAlike_example : Agreement.StartsAlike 96 512 "grpc_nvm"
setups-StartsAlike_example =
    Agreement.setups-StartsAlike 96 512 (there (there (there (there (there here)))))

abbrev hits : Case
hits = case "origin_skew_64k" "origin" "skew" 65536 2048 3500 1 5

abbrev world : World
world = record {
  set_up = ok tt;
  look = λ n. record { exited = false; answers = true };
  verification = ok tt;
  measured = ok (record { nvm_hits_before = none; nvm_hits_after = some 3 });
  inspected = err "docker inspect failed";
  printed = ok tt;
  logs = ok tt;
  stops = true;
  removes = true;
}

run_case-removes_example :
    ((run_case world "grpc_nvm" hits).1.removed ≡ "server" ∷ [])
    × ((run_case world "grpc_nvm" hits).1.error
        ≡ Outcome.raised (body world "grpc_nvm" hits fresh).0)
    × ((run_case world "grpc_nvm" hits).0 ≡ ok tt)
unfolding body await_server
run_case-removes_example = Outcome.run_case-removes world "grpc_nvm" hits refl refl

-- A run that does not raise, and the job of the pilot.
abbrev quiet : Job → Result String (Unit {0})
quiet j = ok tt

abbrev pilot : Job
pilot = job "pilot" none [] 96 "redis" (case "hit_1k" "hit" "uniform" 1024 128 500 1 0) 0

jobs-IsChosen_example :
    Chosen.IsChosen "pilot" none [] 96 ("redis" ∷ []) pilot
    ↔ Place pilot (run_jobs quiet (jobs "pilot" none [] 96 ("redis" ∷ []))).0
jobs-IsChosen_example =
    Chosen.jobs-IsChosen "pilot" none [] 96 quiet ("redis" ∷ []) pilot (λ k. refl)
