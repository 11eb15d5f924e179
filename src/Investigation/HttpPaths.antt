-- ===== src/Investigation/HttpPaths.antt =====
-- bench/investigation/run_http.py: NGINX and the adapter measured through one HTTP interface (`main`).
-- What Docker and the client answer is a parameter; a container is named by its role.
pub mod Budgets
pub mod Removal
use cachelib_grpc_server.Common.{
  ℕ, zero, suc, ◌+◌, String, ◌==◌, Bool, true, false, not, Option, none, some, List, [], ◌∷◌, ◌++◌,
  if◌then◌else◌, Result, ok, err,
}
use cachelib_grpc_server.Harness.Actions.{
  Action, pure, raise, lift, continue, ◌>>=◌, ◌>>◌, modify, raise_when,
}

-- `--cpus`, `--memory`, `--memory-swap` and `--cpuset-cpus` of a container.
pub record Resources : Type 0 where
  pub cpus : ℕ
  pub memory_mib : ℕ
  pub swap_mib : Option ℕ
  pub cpuset : Option String

-- Given whether the two paths get the same budget.
abbrev pub if_equal {ℓ} : {A : Type ℓ} → Bool → A → Option A
if_equal equal a = if equal then some a else none

abbrev pub origin_resources : Bool → Resources
origin_resources equal = record {
  cpus = 2;
  memory_mib = 512;
  swap_mib = none;
  cpuset = if_equal equal "6-7";
}

abbrev pub nginx_resources : Bool → Resources
nginx_resources equal = record {
  cpus = 2;
  memory_mib = 768;
  swap_mib = if_equal equal 768;
  cpuset = if_equal equal "0-1";
}

abbrev pub cache_resources : Bool → Resources
cache_resources equal = record {
  cpus = if equal then 1 else 4;
  memory_mib = if equal then 384 else 768;
  swap_mib = if_equal equal 384;
  cpuset = if_equal equal "0-1";
}

abbrev pub adapter_resources : Bool → Resources
adapter_resources equal = record {
  cpus = if equal then 1 else 2;
  memory_mib = if equal then 384 else 768;
  swap_mib = if_equal equal 384;
  cpuset = if_equal equal "0-1";
}

-- The containers between the client and the origin, in the order of their start.
abbrev pub path_of : Bool → String → List (String × Resources)
path_of equal backend =
    if backend == "nginx"
    then ("nginx", nginx_resources equal) ∷ []
    else ("cache", cache_resources equal) ∷ ("adapter", adapter_resources equal) ∷ []

-- `name` and `cache`: what is stopped after the measurements, the target first
abbrev pub stopped_after : String → List String
stopped_after backend = if backend == "nginx" then "nginx" ∷ [] else "adapter" ∷ "cache" ∷ []

pub record Workload : Type 0 where
  pub size : ℕ
  pub objects : ℕ
  pub requests : ℕ
  pub concurrency : ℕ
  pub pattern_name : String

abbrev workload : ℕ → ℕ → ℕ → ℕ → String → Workload
workload size objects requests concurrency pattern_name = record {
  size = size;
  objects = objects;
  requests = requests;
  concurrency = concurrency;
  pattern_name = pattern_name;
}

abbrev pub workloads : List Workload
workloads =
    workload 262144 64 400 1 "repeated"
    ∷ workload 262144 64 400 8 "repeated"
    ∷ workload 1048576 32 250 1 "repeated"
    ∷ workload 262144 64 150 1 "one_pass"
    ∷ []

-- What the program has written and done.
pub record Dir : Type 0 where
  pub commands : List (String × Resources)
  -- `containers`
  pub active : List String
  pub started : List String
  pub manifest : Bool
  -- by backend and workload, with the memory that is measured for an equal budget
  pub results : List (String × Workload × Option ℕ)
  pub errors : List (String × Workload × String)
  pub removed : List String
  pub network_removed : Bool

abbrev pub fresh : Dir
fresh = record {
  commands = [];
  active = [];
  started = [];
  manifest = false;
  results = [];
  errors = [];
  removed = [];
  network_removed = false;
}

-- How the client ends: with a text of its error, or with a result.
pub data ClientEnd : Type 0 where
  failed : String → ClientEnd
  -- what reading its result raises, if anything
  reported : Result String (Unit {0}) → ClientEnd

pub record World : Type 0 where
  pub network : Result String (Unit {0})
  pub run : String → Result String (Unit {0})
  pub inspected : Result String (Unit {0})
  -- whether a probe of the target ends with 0
  pub probe : String → ℕ → Result String Bool
  pub client : String → Workload → Result String ClientEnd
  -- `memory_bytes`
  pub memory : String → Result String (Option ℕ)
  pub printed : String → Workload → Result String (Unit {0})
  pub stops : String → Bool
  pub removes : String → Bool
  pub network_removes : Bool

-- What the parts write.
abbrev pub recorded : String × Resources → Dir → Dir
recorded c dir = record dir { commands = dir.commands ++ c ∷ [] }

abbrev pub begun : String → Dir → Dir
begun name dir = record dir { active = dir.active ++ name ∷ []; started = dir.started ++ name ∷ [] }

abbrev pub described : Dir → Dir
described dir = record dir { manifest = true }

abbrev pub with_result : String → Workload → Option ℕ → Dir → Dir
with_result backend load bytes dir = record dir {
  results = dir.results ++ (backend, load, bytes) ∷ [];
}

abbrev pub with_error : String → Workload → String → Dir → Dir
with_error backend load message dir = record dir {
  errors = dir.errors ++ (backend, load, message) ∷ [];
}

abbrev pub start : World → String × Resources → Action Dir (Unit {0})
start w (name, resources) = do
  modify (recorded (name, resources))
  lift (w.run name)
  modify (begun name)

unfoldable pub start_all : World → List (String × Resources) → Action Dir (Unit {0})
start_all w [] = pure tt
start_all w (c ∷ cs) = start w c >> start_all w cs

abbrev probed : Result String Bool → Result String (Unit {0}) → Result String (Unit {0})
probed (err e) rest = err e
probed (ok true) rest = ok tt
probed (ok false) rest = rest

-- At the `i`-th round with `n` rounds left.
unfoldable pub ready : ℕ → ℕ → (ℕ → Result String Bool) → Result String (Unit {0})
ready zero i probe = err "never became ready"
ready (suc n) i probe = let rest = ready n (i + 1) probe in probed (probe i) rest

abbrev or_zero : Option ℕ → ℕ
or_zero none = 0
or_zero (some n) = n

unfoldable pub memory_of : World → List String → Action Dir ℕ
memory_of w [] = pure 0
memory_of w (part ∷ parts) = do
  bytes ← lift (w.memory part)
  rest ← memory_of w parts
  pure (or_zero bytes + rest)

abbrev pub measured_memory : World → Bool → List String → Action Dir (Option ℕ)
measured_memory w false parts = pure none
measured_memory w true parts = do bytes ← memory_of w parts; pure (some bytes)

-- What is written after the client has ended.
abbrev pub concluded : World → Bool → String → Workload → ClientEnd → Action Dir (Unit {0})
concluded w equal backend load (failed text) = modify (with_error backend load text)
concluded w equal backend load (reported read) = do
  lift read
  bytes ← measured_memory w equal (stopped_after backend)
  modify (with_result backend load bytes)
  lift (w.printed backend load)

unfoldable pub measure : World → Bool → String → List Workload → Action Dir (Unit {0})
measure w equal backend [] = pure tt
measure w equal backend (load ∷ loads) = do
  end ← lift (w.client backend load)
  concluded w equal backend load end
  measure w equal backend loads

-- `containers.remove(name)`, which takes the first
abbrev pub taken : String → List String → List String
taken name [] = []
taken name (x ∷ xs) = let rest = taken name xs in if x == name then xs else x ∷ rest

abbrev pub remove_one : World → String → Action Dir (Unit {0})
remove_one w name = do
  raise_when (not (w.stops name)) "docker stop timed out"
  raise_when (not (w.removes name)) "docker rm timed out"
  modify (λ dir. record dir { removed = dir.removed ++ name ∷ [] })

abbrev pub retire : World → String → Action Dir (Unit {0})
retire w name = do remove_one w name; modify (λ dir. record dir { active = taken name dir.active })

unfoldable pub stop_all : World → List String → Action Dir (Unit {0})
stop_all w [] = pure tt
stop_all w (name ∷ names) = retire w name >> stop_all w names

unfoldable pub measure_backend : World → Bool → String → Action Dir (Unit {0})
measure_backend w equal backend = do
  start_all w (path_of equal backend)
  lift (ready 40 0 (w.probe backend))
  measure w equal backend workloads
  stop_all w (stopped_after backend)

-- The body of the `try`.
unfoldable pub body : World → Bool → Action Dir (Unit {0})
body w equal = do
  start w ("origin", origin_resources equal)
  lift w.inspected
  modify described
  measure_backend w equal "nginx"
  measure_backend w equal "grpc_adapter"

abbrev pub reverse : List String → List String
reverse [] = []
reverse (x ∷ xs) = reverse xs ++ x ∷ []

unfoldable pub remove_all : World → List String → Action Dir (Unit {0})
remove_all w [] = pure tt
remove_all w (name ∷ names) = remove_one w name >> remove_all w names

-- `finally`
unfoldable pub cleanup : World → Action Dir (Unit {0})
cleanup w dir =
    (remove_all w (reverse dir.active)
        >> raise_when (not w.network_removes) "docker network rm timed out"
        >> modify (λ d. record d { network_removed = true }))
      dir

-- An exception of the clean-up takes the place of that of the body.
abbrev after_cleanup :
    Result String (Unit {0}) → Result String (Unit {0}) → Result String (Unit {0})
after_cleanup r (err e) = err e
after_cleanup r (ok u) = r

abbrev pub cleaned : World → Result String (Unit {0}) × Dir → Result String (Unit {0}) × Dir
cleaned w (r, dir) = let (c, dir') = cleanup w dir in (after_cleanup r c, dir')

abbrev pub in_network : World → Bool → Result String (Unit {0}) → Result String (Unit {0}) × Dir
in_network w equal (err e) = (err e, fresh)
in_network w equal (ok u) = cleaned w (body w equal fresh)

unfoldable pub main : World → Bool → Result String (Unit {0}) × Dir
main w equal = in_network w equal w.network
