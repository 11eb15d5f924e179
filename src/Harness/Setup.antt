-- ===== src/Harness/Setup.antt =====
-- bench/strong/run_strong.py: the container that a run starts (`setup`), and the backing files that
-- it leaves (`record_flash_usage`).
use cachelib_grpc_server.Common.{
  ℕ, ◌*◌, String, ◌==◌, Bool, Option, none, some, List, [], ◌∷◌, ◌++◌, map, elem, before_first,
  if◌then◌else◌, lookup, Result, ok, err, ◌>>=◌,
}
use cachelib_grpc_server.Campaign.Spec.{sum}
use cachelib_grpc_server.Harness.Engines.{
  Word, text, num, ServerError, file_tier_engines, ports, server_arguments,
}

-- The arguments of the harness that a run reads.
pub record Args : Type 0 where
  pub grpc_image : String
  pub engine_images : List (String × String)
  pub cache_mb : ℕ
  pub memory_mb : ℕ
  pub flash_mb : ℕ
  pub seconds : ℕ
  pub warmup : ℕ
  pub discard_flash_files : Bool

pub data SetupError : Type 0 where
  no_such_key : String → SetupError
  server_error : ServerError → SetupError

pub record Server : Type 0 where
  pub command : List Word
  pub backend : String
  pub port : ℕ

abbrev found {ℓ} : {A : Type ℓ} → String → Option A → Result SetupError A
found key none = err (no_such_key key)
found key (some a) = ok a

-- `engine.split("_")[0]`
abbrev pub base_of : String → String
base_of engine = before_first b'_' engine

abbrev image_of : Args → String → Result SetupError String
image_of args engine =
    if base_of engine == "grpc"
    then ok args.grpc_image
    else found engine (lookup engine args.engine_images)

abbrev pub backend_of : String → String
backend_of engine =
    if base_of engine == "grpc"
    then "grpc"
    else if base_of engine == "memcached"
    then "memcached"
    else engine

abbrev arguments : Result ServerError (List Word) → Result SetupError (List Word)
arguments (ok ws) = ok ws
arguments (err e) = err (server_error e)

abbrev mount : String → List Word
mount engine =
    if elem engine file_tier_engines
    then text "--mount" ∷ text "type=bind,src=flash,dst=/data" ∷ []
    else []

-- The command that starts the server, its backend and its port. To run it is the caller's.
unfoldable pub setup : String → String → String → Args → Result SetupError Server
unfolding server_arguments
setup engine name network args = do
  image ← image_of args engine
  port ← found (base_of engine) (lookup (base_of engine) ports)
  words ← arguments (server_arguments engine args.cache_mb args.flash_mb)
  ok (record {
    command =
        text "docker"
        ∷ text "run"
        ∷ text "-d"
        ∷ text "--name"
        ∷ text name
        ∷ text "--network"
        ∷ text network
        ∷ text "--cpus"
        ∷ text "4"
        ∷ text "--cpuset-cpus"
        ∷ text "0-3"
        ∷ text "--memory"
        ∷ num "" args.memory_mb "m"
        ∷ text "--memory-swap"
        ∷ num "" args.memory_mb "m"
        ∷ (mount engine ++ text image ∷ words);
    backend = backend_of engine;
    port = port;
  })

-- A regular file below `flash`: its path, its size, and its blocks of 512 bytes.
pub record FileStat : Type 0 where
  pub path : String
  pub size : ℕ
  pub blocks : ℕ

pub record Entry : Type 0 where
  pub path : String
  pub logical_bytes : ℕ
  pub allocated_bytes : ℕ

pub record Usage : Type 0 where
  pub files : List Entry
  pub logical_bytes : ℕ
  pub allocated_bytes : ℕ
  pub discarded : Bool

abbrev entry_of : FileStat → Entry
entry_of f = record { path = f.path; logical_bytes = f.size; allocated_bytes = f.blocks * 512 }

-- The usage that is recorded, and the directory afterwards; the files come in the order of their
-- paths. Without the directory nothing is recorded.
unfoldable pub record_flash_usage :
    Option (List FileStat) → Bool → Option Usage × Option (List FileStat)
record_flash_usage none discard = (none, none)
record_flash_usage (some files) discard =
    let entries = map entry_of files in
    let usage : Usage = record {
      files = entries;
      logical_bytes = sum (map (λ (e : Entry). e.logical_bytes) entries);
      allocated_bytes = sum (map (λ (e : Entry). e.allocated_bytes) entries);
      discarded = discard;
    } in
    (some usage, if discard then none else some files)
