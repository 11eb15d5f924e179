-- ===== src/Matrix/Server.antt =====
-- bench/investigation/run_matrix.py: the server of a run (`setup`) and the call of its client.
pub mod Agreement
use cachelib_grpc_server.Common.{
  ℕ, ◌*◌, String, ◌==◌, Bool, ◌||◌, Option, none, some, List, [], ◌∷◌, ◌++◌, if◌then◌else◌,
  starts_with, lookup, Result, ok, err, ◌>>=◌,
}
use cachelib_grpc_server.Harness.Engines.{Word, text, num}

-- `IMAGES`
abbrev pub images : List (String × String)
images =
    ("redis", "redis:8.2-alpine")
    ∷ ("valkey", "valkey/valkey:8.1-alpine")
    ∷ ("memcached", "memcached:1.6-alpine")
    ∷ ("memcached_extstore", "memcached:1.6-alpine")
    ∷ []

pub record Server : Type 0 where
  pub backend : String
  pub port : ℕ
  pub image : String
  pub command : List Word

abbrev image_or : String → Option String → Result String String
image_or engine none = err engine
image_or engine (some i) = ok i

abbrev pub image_of : String → String → Result String String
image_of grpc_image engine =
    if starts_with "grpc" engine then ok grpc_image else image_or engine (lookup engine images)

abbrev pub backend_of : String → String
backend_of engine =
    if starts_with "grpc" engine
    then "grpc"
    else if starts_with "memcached" engine
    then "memcached"
    else engine

abbrev pub port_of : String → ℕ
port_of backend =
    if backend == "grpc" then 50051 else if backend == "memcached" then 11211 else 6379

abbrev pub has_file : String → Bool
has_file engine = engine == "grpc_nvm" || engine == "memcached_extstore"

abbrev mount : String → List Word
mount engine =
    if has_file engine then text "--mount" ∷ text "type=bind,src=flash,dst=/data" ∷ [] else []

abbrev navy : String → ℕ → List Word
navy engine flash_mb =
    if engine == "grpc_nvm"
    then text "--enable_nvm=true"
      ∷ text "--enable_io_uring=false"
      ∷ text "--nvm_path=/data/navy"
      ∷ num "--nvm_size=" (flash_mb * 1048576) ""
      ∷ []
    else []

abbrev extstore : String → ℕ → List Word
extstore engine flash_mb =
    if engine == "memcached_extstore"
    then text "-o"
      ∷ num "ext_path=/data/extstore:" flash_mb "m,ext_item_size=2048,ext_wbuf_size=8"
      ∷ []
    else []

abbrev pub arguments : String → ℕ → ℕ → List Word
arguments engine ram_mb flash_mb =
    if starts_with "grpc" engine
    then num "--cache_size=" (ram_mb * 1048576) ""
      ∷ text "--metrics_port=0"
      ∷ text "--nvm_reader_threads=4"
      ∷ text "--nvm_writer_threads=4"
      ∷ navy engine flash_mb
    else if engine == "redis" || engine == "valkey"
    then text "--save"
      ∷ text ""
      ∷ text "--appendonly"
      ∷ text "no"
      ∷ text "--maxmemory"
      ∷ num "" (ram_mb * 1048576) ""
      ∷ text "--maxmemory-policy"
      ∷ text "allkeys-lru"
      ∷ []
    else text "-m"
      ∷ num "" ram_mb ""
      ∷ text "-t"
      ∷ text "4"
      ∷ text "-I"
      ∷ text "5m"
      ∷ text "-U"
      ∷ text "0"
      ∷ extstore engine flash_mb

-- The command that starts the server. To run it is the caller's.
unfoldable pub setup : String → String → String → String → ℕ → ℕ → ℕ → String → Result String Server
setup engine name network grpc_image ram_mb flash_mb container_memory_mb server_cpuset = do
  image ← image_of grpc_image engine
  ok (record {
    backend = backend_of engine;
    port = port_of (backend_of engine);
    image = image;
    command =
        text "run"
        ∷ text "-d"
        ∷ text "--name"
        ∷ text name
        ∷ text "--network"
        ∷ text network
        ∷ text "--cpus"
        ∷ text "4"
        ∷ text "--cpuset-cpus"
        ∷ text server_cpuset
        ∷ text "--memory"
        ∷ num "" container_memory_mb "m"
        ∷ text "--memory-swap"
        ∷ num "" container_memory_mb "m"
        ∷ (mount engine ++ text image ∷ arguments engine ram_mb flash_mb);
  })

-- `client_call`: the arguments of the client's container. The first of `args` is the command.
abbrev pub client_arguments : String → String → String → ℕ → String → List Word → String → List Word
client_arguments network name backend port command args client_cpuset =
    text "run"
    ∷ text "--rm"
    ∷ text "--network"
    ∷ text network
    ∷ text "--cpus"
    ∷ text "2"
    ∷ text "--memory"
    ∷ text "768m"
    ∷ text "--cpuset-cpus"
    ∷ text client_cpuset
    ∷ text "cachelib-investigation-client:local"
    ∷ text command
    ∷ text "--backend"
    ∷ text backend
    ∷ text "--host"
    ∷ text name
    ∷ text "--port"
    ∷ num "" port ""
    ∷ args
