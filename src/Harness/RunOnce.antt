-- ===== src/Harness/RunOnce.antt =====
-- bench/strong/run_strong.py: `run_once`, one engine measured on one workload. What Docker, the
-- server and the client answer is a parameter; what the run writes to its directory is the state.
pub mod Cleanup
pub mod Written
use cachelib_grpc_server.Common.{
  ℕ, zero, suc, ◌+◌, String, ◌==◌, Bool, true, false, not, ◌&&◌, ◌||◌, Option, none, some, List, [],
  ◌∷◌, ◌++◌, ltb, if◌then◌else◌, elem, starts_with, Result, ok, err, is_some,
}
use cachelib_grpc_server.Campaign.Evidence.{
  Number, is_nonzero, Doc, absent, parsed, Probe, RunFiles, ResultFile,
}
use cachelib_grpc_server.Harness.Cases.{Case}
use cachelib_grpc_server.Harness.Engines.{file_tier_engines}
use cachelib_grpc_server.Harness.Setup.{Usage, FileStat, record_flash_usage}
use cachelib_grpc_server.Harness.Actions.{
  Action, pure, raise, lift, continue, ◌>>=◌, ◌>>◌, modify, raise_when,
}

-- The directory of a run, and the containers that Docker has removed: those whose `docker rm` ended
-- with exit status 0.
pub record Dir : Type 0 where
  pub correctness : Option Probe
  pub client_started : Bool
  pub result : Option Doc
  pub error : Option String
  pub usage : Option Usage
  pub server_log : Bool
  pub removed : List String

abbrev pub fresh : Dir
fresh = record {
  correctness = none;
  client_started = false;
  result = none;
  error = none;
  usage = none;
  server_log = false;
  removed = [];
}

-- One look at a starting server: whether it has exited, and whether its statistics can be read.
pub record Look : Type 0 where
  pub exited : Bool
  pub answers : Bool

-- One look at a starting client: whether its log has the marker, and whether it has exited.
pub record ClientLook : Type 0 where
  pub marked : Bool
  pub gone : Bool

-- What the world answers in one run, in the order of the questions. A raised exception is its text.
pub record World : Type 0 where
  pub set_up : Result String (Unit {0})
  pub look : ℕ → Look
  pub verified : Result String Probe
  pub client : Result String (Unit {0})
  pub client_looks : List ClientLook
  pub stats_before : Result String (Unit {0})
  pub waited : Result String (Unit {0})
  pub stats_after : Result String (Unit {0})
  pub result_line : Result String Doc
  pub inspected : Result String (Unit {0})
  pub printed : Result String (Unit {0})
  -- `docker logs`, `docker stop` and `docker rm` of the clean-up, which raise where they run out of
  -- time; the exit status is not checked, and `removes` says whether that of `docker rm` is 0
  pub logs : String → Result String (Unit {0})
  pub stops : String → Result String (Unit {0})
  pub removes : String → Result String Bool
  pub flash_files : Option (List FileStat)

-- `for _ in range(60)`, at its `i`-th round with `n` rounds left: a server that has exited ends the
-- run, one that answers ends the loop.
unfoldable pub await_server : ℕ → ℕ → (ℕ → Look) → Result String (Unit {0})
await_server zero i look = err "server did not become ready"
await_server (suc n) i look =
    let rest = await_server n (i + 1) look in
    if (look i).exited
    then err "server exited before readiness"
    else if (look i).answers
    then ok tt
    else rest

-- `while time.monotonic() < deadline`: the looks that the deadline leaves time for
unfoldable pub await_client : List ClientLook → Result String (Unit {0})
await_client [] = err "client never started measurement"
await_client (l ∷ looks) =
    let rest = await_client looks in
    if l.marked then ok tt else if l.gone then err "client exited before measurement" else rest

abbrev pub client_errors : String
client_errors = "Client errors, dropped arrivals, or nonzero exit; see result.json."

abbrev flag_field : String → Option Number → Result String Bool → Result String Bool
flag_field name none rest = err name
flag_field name (some n) rest = if is_nonzero n then ok true else rest

-- `if result["client_exit_code"] or result["errors"] or result["dropped_arrivals"]`: a field that is
-- read and is not there raises.
unfoldable pub is_flagged : Doc → Result String Bool
is_flagged d =
    flag_field "'client_exit_code'" d.client_exit_code (
      flag_field "'errors'" d.errors
        (flag_field "'dropped_arrivals'" d.dropped_arrivals (ok false)))

abbrev write_error : String → Dir → Dir
write_error text dir = record dir { error = some text }

-- What follows the line of the result: it is written, then the inspection, then the flag.
unfoldable pub conclude : World → Doc → Action Dir (Unit {0})
conclude w d = do
  modify (λ dir. record dir { result = some d })
  lift w.inspected
  flag ← lift (is_flagged d)
  modify (λ dir. if flag then write_error client_errors dir else dir)
  lift w.printed

-- The measurement, from the start of the client on.
unfoldable pub measure : World → Action Dir (Unit {0})
measure w = do
  lift w.client
  modify (λ dir. record dir { client_started = true })
  lift (await_client w.client_looks)
  lift w.stats_before
  lift w.waited
  lift w.stats_after
  d ← lift w.result_line
  conclude w d

-- The body of the `try`.
unfoldable pub body : World → Action Dir (Unit {0})
body w = do
  lift w.set_up
  lift (await_server 60 0 w.look)
  probe ← lift w.verified
  modify (λ dir. record dir { correctness = some probe })
  measure w

-- `except Exception`
abbrev pub handle : Result String (Unit {0}) → Dir → Dir
handle (ok a) dir = dir
handle (err text) dir = write_error text dir

abbrev pub log_of : String → Dir → Dir
log_of container dir = if container == "server" then record dir { server_log = true } else dir

abbrev pub without : Bool → String → Dir → Dir
without gone container dir =
    if gone then record dir { removed = dir.removed ++ container ∷ [] } else dir

-- One round of `finally`: the log is asked for, and the server's is written, before the stop.
abbrev pub remove_container : World → String → Action Dir (Unit {0})
remove_container w container = do
  lift (w.logs container)
  modify (log_of container)
  lift (w.stops container)
  gone ← lift (w.removes container)
  modify (without gone container)

abbrev pub record_usage : World → String → Bool → Dir → Dir
record_usage w engine discard dir =
    if elem engine file_tier_engines
    then record dir { usage = (record_flash_usage w.flash_files discard).0 }
    else dir

-- `finally`: both containers are stopped and removed, and the backing files are recorded. An exception
-- ends it where it is raised.
unfoldable pub cleanup : World → String → Bool → Action Dir (Unit {0})
cleanup w engine discard = do
  remove_container w "client"
  remove_container w "server"
  modify (record_usage w engine discard)

-- The workloads that an engine does not run.
unfoldable pub is_skipped : String → Case → Bool
is_skipped engine c =
    ((c.operation == "pipeline") && not (engine == "grpc"))
    || (((c.operation == "batch-set") && starts_with "memcached" engine)
        || ((engine == "memcached_extstore") && ltb c.size 2048))

-- The `try` statement: the body, the handler, and what is done in any case. The first result is
-- that of the body, the second that of the whole statement.
unfoldable pub attempt : World → String → Bool → Dir → Result String (Unit {0}) × Dir
attempt w engine discard dir =
    let (r, dir') = body w dir in cleanup w engine discard (handle r dir')

unfoldable pub run_once : World → String → Case → Bool → Result String (Unit {0}) × Option Dir
run_once w engine c discard =
    if is_skipped engine c
    then (ok tt, none)
    else (let (r, dir) = attempt w engine discard fresh in (r, some dir))

-- What the run's directory shows to `validate_group`.
abbrev pub result_file : Option Doc → ResultFile
result_file none = absent
result_file (some d) = parsed d

abbrev pub files_of : Dir → RunFiles
files_of dir = record {
  result = result_file dir.result;
  error_txt = dir.error;
  correctness = dir.correctness;
}
