-- ===== src/Matrix/Runs.antt =====
-- bench/investigation/run_matrix.py: the workloads (`cases`) and one run (`run_case`), as in
-- bench/strong/run_strong.py: what Docker and the client answer is a parameter.
pub mod Outcome
use cachelib_grpc_server.Common.{
  ℕ, zero, suc, String, ◌==◌, Bool, true, false, not, ◌&&◌, ◌||◌, Option, none, some, List, [], ◌∷◌,
  ◌++◌, leb, if◌then◌else◌, starts_with, Result, ok, err,
}
use cachelib_grpc_server.Harness.Engines.{Word, text, num}
use cachelib_grpc_server.Harness.RunOnce.{Look, await_server}
use cachelib_grpc_server.Harness.Actions.{
  Action, pure, raise, lift, continue, ◌>>=◌, ◌>>◌, modify, raise_when,
}

pub record Case : Type 0 where
  pub label : String
  pub mode : String
  pub pattern_name : String
  pub size : ℕ
  pub objects : ℕ
  pub requests : ℕ
  pub concurrency : ℕ
  pub origin_ms : ℕ

abbrev pub case : String → String → String → ℕ → ℕ → ℕ → ℕ → ℕ → Case
case label mode pattern_name size objects requests concurrency origin_ms = record {
  label = label;
  mode = mode;
  pattern_name = pattern_name;
  size = size;
  objects = objects;
  requests = requests;
  concurrency = concurrency;
  origin_ms = origin_ms;
}

abbrev matrix_cases : List Case
matrix_cases =
    case "hit_100b" "hit" "uniform" 100 1000 3000 1 0
    ∷ case "hit_1k_c1" "hit" "uniform" 1024 1000 3000 1 0
    ∷ case "hit_1k_c8" "hit" "uniform" 1024 1000 3000 8 0
    ∷ case "mixed_1k_90r10w" "mixed" "skew" 1024 1000 3000 1 0
    ∷ case "batch_1k_16" "hit" "uniform" 1024 1000 3200 1 0
    ∷ case "pipeline_1k_16" "hit" "uniform" 1024 1000 3200 1 0
    ∷ case "hit_16k" "hit" "uniform" 16384 1000 2500 1 0
    ∷ case "hit_64k" "hit" "uniform" 65536 500 2000 1 0
    ∷ case "media_256k" "hit" "uniform" 262144 160 1000 1 0
    ∷ case "media_1m" "hit" "uniform" 1048576 40 500 1 0
    ∷ case "near_limit" "hit" "uniform" 4193000 2 20 1 0
    ∷ case "origin_skew_64k" "origin" "skew" 65536 2048 3500 1 5
    ∷ case "origin_uniform_64k" "origin" "uniform" 65536 2048 3500 1 5
    ∷ case "steady_uniform_64k" "origin" "uniform" 65536 2048 5000 1 5
    ∷ case "origin_shift_64k" "origin" "hot_shift" 65536 2048 3500 1 5
    ∷ case "origin_onepass_64k" "origin" "one_pass" 65536 2048 500 1 5
    ∷ case "bypass_onepass_64k" "bypass" "one_pass" 65536 2048 500 1 5
    ∷ []

abbrev pub cases : String → List Case
cases level =
    if level == "pilot" then case "hit_1k" "hit" "uniform" 1024 128 500 1 0 ∷ [] else matrix_cases

-- `opts`: the client's command, and its arguments.
abbrev pub client_command : Case → String
client_command c =
    if starts_with "batch_" c.label || starts_with "pipeline_" c.label then "batch" else "run"

abbrev pub options : Case → String → List Word
options c run_id =
    text "--run-id"
    ∷ text run_id
    ∷ text "--mode"
    ∷ text c.mode
    ∷ text "--pattern"
    ∷ text c.pattern_name
    ∷ text "--value-bytes"
    ∷ num "" c.size ""
    ∷ text "--objects"
    ∷ num "" c.objects ""
    ∷ text "--requests"
    ∷ num "" c.requests ""
    ∷ text "--concurrency"
    ∷ num "" c.concurrency ""
    ∷ text "--origin-ms"
    ∷ num "" c.origin_ms ""
    ∷ text "--warmup"
    ∷ text (if starts_with "steady_" c.label then "1000" else "200")
    ∷ ((if starts_with "steady_" c.label then text "--preload" ∷ [] else [])
        ++ (if starts_with "pipeline_" c.label
            then text "--batch-kind" ∷ text "pipeline" ∷ []
            else []))

-- What `run_case` reads of a result: the counter of the file tier, before and after.
pub record Stats : Type 0 where
  pub nvm_hits_before : Option ℕ
  pub nvm_hits_after : Option ℕ

pub record Dir : Type 0 where
  pub commanded : Bool
  pub verified : Bool
  pub result : Option Stats
  pub nvm_proof : Option Bool
  pub error : Option String
  pub logged : Bool
  pub removed : List String

abbrev pub fresh : Dir
fresh = record {
  commanded = false;
  verified = false;
  result = none;
  nvm_proof = none;
  error = none;
  logged = false;
  removed = [];
}

pub record World : Type 0 where
  pub set_up : Result String (Unit {0})
  pub look : ℕ → Look
  pub verification : Result String (Unit {0})
  -- the client's call that measures, between two readings of the cgroup
  pub measured : Result String Stats
  pub inspected : Result String (Unit {0})
  pub printed : Result String (Unit {0})
  pub logs : Result String (Unit {0})
  pub stops : Bool
  pub removes : Bool

abbrev pub or_zero : Option ℕ → ℕ
or_zero none = 0
or_zero (some n) = n

-- Whether `nvm-proof.txt` tells of an increase.
abbrev pub has_increased : Stats → Bool
has_increased s = not (leb (or_zero s.nvm_hits_after) (or_zero s.nvm_hits_before))

abbrev pub write_proof : String → Case → Stats → Dir → Dir
write_proof engine c s dir =
    if engine == "grpc_nvm" && c.mode == "origin"
    then record dir { nvm_proof = some (has_increased s) }
    else dir

-- The body of the `try`.
unfoldable pub body : World → String → Case → Action Dir (Unit {0})
body w engine c = do
  lift w.set_up
  modify (λ dir. record dir { commanded = true })
  lift (await_server 60 0 w.look)
  lift w.verification
  modify (λ dir. record dir { verified = true })
  s ← lift w.measured
  modify (λ dir. record dir { result = some s })
  lift w.inspected
  modify (write_proof engine c s)
  lift w.printed

-- `except Exception`: the error is written before the logs are asked for.
abbrev pub handle : World → Result String (Unit {0}) → Action Dir (Unit {0})
handle w (ok a) = pure tt
handle w (err message) = do
  modify (λ dir. record dir { error = some message })
  lift w.logs
  modify (λ dir. record dir { logged = true })

-- `finally`
unfoldable pub cleanup : World → Action Dir (Unit {0})
cleanup w = do
  raise_when (not w.stops) "docker stop timed out"
  raise_when (not w.removes) "docker rm timed out"
  modify (λ dir. record dir { removed = dir.removed ++ "server" ∷ [] })

-- An exception of `finally` takes the place of one before it.
abbrev after :
    Result String (Unit {0}) → Result String (Unit {0}) × Dir → Result String (Unit {0}) × Dir
after r (ok a, dir) = (r, dir)
after r (err e, dir) = (err e, dir)

unfoldable pub run_case : World → String → Case → Result String (Unit {0}) × Dir
run_case w engine c =
    let (r, dir) = body w engine c fresh in
    let (h, dir') = handle w r dir in after h (cleanup w dir')
