-- ===== src/Http/Harness.antt =====
-- bench/strong/run_http.py: one engine measured on one HTTP workload (`run_one`). What Docker and the
-- client answer is a parameter; what the run writes to its directory is the state.
pub mod Removal
pub mod Outcome
pub mod Schedule
use cachelib_grpc_server.Common.{
  ℕ, zero, suc, ◌+◌, String, ◌==◌, Bool, true, false, not, Option, none, some, List, [], ◌∷◌, ◌++◌,
  if◌then◌else◌, Result, ok, err,
}
use cachelib_grpc_server.Campaign.Evidence.{Number, is_nonzero, Doc, RunFiles}
use cachelib_grpc_server.Harness.Actions.{
  Action, pure, raise, lift, continue, ◌>>=◌, ◌>>◌, modify, raise_when,
}
use cachelib_grpc_server.Harness.RunOnce.{ClientLook, result_file}

-- The containers that Docker has started, those that the run has noted for removal, in this order,
-- what has been written, and the containers whose `docker rm` ended with exit status 0.
pub record Dir : Type 0 where
  pub started : List String
  pub active : List String
  pub result : Option Doc
  pub path_containers : List String
  pub error : Option String
  pub logged : List String
  pub removed : List String

abbrev pub fresh : Dir
fresh = record {
  started = [];
  active = [];
  result = none;
  path_containers = [];
  error = none;
  logged = [];
  removed = [];
}

pub record World : Type 0 where
  pub start : String → Result String (Unit {0})
  -- the exit status of each probe of the target, or an exception
  pub probe : ℕ → Result String Bool
  pub client_looks : List ClientLook
  pub sampled : Result String (Unit {0})
  -- whether the client's exit status is not zero
  pub waited : Result String Bool
  pub sampled_again : Result String (Unit {0})
  pub result_line : Result String Doc
  pub printed : Result String (Unit {0})
  -- `docker logs`, `docker stop` and `docker rm` of the clean-up, which raise where they run out of
  -- time; the exit status is not checked, and `removes` says whether that of `docker rm` is 0
  pub logs : String → Result String (Unit {0})
  pub stops : String → Result String (Unit {0})
  pub removes : String → Result String Bool

-- `docker run`, and `active.append`
abbrev pub start_one : World → String → Action Dir (Unit {0})
start_one w name = do
  lift (w.start name)
  modify (λ dir. record dir { started = dir.started ++ name ∷ [] })
  modify (λ dir. record dir { active = dir.active ++ name ∷ [] })

-- The containers between the client and the origin, by engine.
unfoldable pub start_path : World → String → Action Dir (Unit {0})
start_path w engine =
    if engine == "nginx"
    then start_one w "target"
    else if engine == "grpc_adapter"
    then (start_one w "cache" >> start_one w "target")
    else pure tt

abbrev probed : Result String Bool → Result String (Unit {0}) → Result String (Unit {0})
probed (err e) rest = err e
probed (ok true) rest = ok tt
probed (ok false) rest = rest

-- `ready`: at its `i`-th round with `n` rounds left
unfoldable pub ready : ℕ → ℕ → (ℕ → Result String Bool) → Result String (Unit {0})
ready zero i probe = err "HTTP target never became ready"
ready (suc n) i probe = let rest = ready n (i + 1) probe in probed (probe i) rest

unfoldable pub await_marker : List ClientLook → Result String (Unit {0})
await_marker [] = err "no MEASURE_START marker"
await_marker (l ∷ looks) =
    let rest = await_marker looks in
    if l.marked then ok tt else if l.gone then err "client stopped before measurement" else rest

-- `active[:-1]`
abbrev pub all_but_last : List String → List String
all_but_last [] = []
all_but_last (x ∷ []) = []
all_but_last (x ∷ y ∷ xs) = x ∷ all_but_last (y ∷ xs)

-- `if exit_code or result["errors"]`
unfoldable pub is_failed : Bool → Doc → Result String Bool
is_failed true d = ok true
is_failed false d = errors_of d.errors
  where
    errors_of : Option Number → Result String Bool
    errors_of none = err "'errors'"
    errors_of (some n) = ok (is_nonzero n)

abbrev write_error : String → Dir → Dir
write_error text dir = record dir { error = some text }

unfoldable pub conclude : World → Bool → Doc → Action Dir (Unit {0})
conclude w exit_code d = do
  modify (λ dir. record dir { result = some d; path_containers = all_but_last dir.active })
  flag ← lift (is_failed exit_code d)
  modify (λ dir. if flag then write_error "HTTP client error or nonzero exit" dir else dir)
  lift w.printed

-- From the start of the client on.
unfoldable pub measure : World → Action Dir (Unit {0})
measure w = do
  start_one w "client"
  lift (await_marker w.client_looks)
  lift w.sampled
  exit_code ← lift w.waited
  lift w.sampled_again
  d ← lift w.result_line
  conclude w exit_code d

-- The body of the `try`.
unfoldable pub body : World → String → Action Dir (Unit {0})
body w engine = do start_path w engine; lift (ready 60 0 w.probe); measure w

-- `except Exception`
abbrev pub handle : Result String (Unit {0}) → Dir → Dir
handle (ok a) dir = dir
handle (err text) dir = write_error text dir

abbrev pub log_of : String → Dir → Dir
log_of part dir = if part == "client" then dir else record dir { logged = dir.logged ++ part ∷ [] }

abbrev pub without : Bool → String → Dir → Dir
without gone part dir = if gone then record dir { removed = dir.removed ++ part ∷ [] } else dir

-- One round of `finally`: the log is asked for before the stop.
abbrev pub remove_part : World → String → Action Dir (Unit {0})
remove_part w part = do
  lift (w.logs part)
  modify (log_of part)
  lift (w.stops part)
  gone ← lift (w.removes part)
  modify (without gone part)

unfoldable pub remove_parts : World → List String → Action Dir (Unit {0})
remove_parts w [] = pure tt
remove_parts w (part ∷ parts) = remove_part w part >> remove_parts w parts

abbrev pub reverse : List String → List String
reverse [] = []
reverse (x ∷ xs) = reverse xs ++ x ∷ []

unfoldable pub cleanup : World → Action Dir (Unit {0})
cleanup w dir = remove_parts w (reverse dir.active) dir

unfoldable pub run_one : World → String → Result String (Unit {0}) × Dir
run_one w engine = let (r, dir) = body w engine fresh in cleanup w (handle r dir)

-- What the directory shows to `validate_group`; an HTTP run has no correctness probe.
abbrev pub files_of : Dir → RunFiles
files_of dir = record { result = result_file dir.result; error_txt = dir.error; correctness = none }
