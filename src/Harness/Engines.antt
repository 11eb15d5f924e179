-- ===== src/Harness/Engines.antt =====
-- bench/strong/run_strong.py: the engines, their images and ports, and the arguments that their
-- servers start with (`server_arguments`).
pub mod Budgets
use cachelib_grpc_server.Common.{
  ℕ, ◌*◌, String, ◌==◌, Bool, true, false, not, ◌&&◌, ◌||◌, List, [], ◌∷◌, ◌++◌, ltb, if◌then◌else◌,
  elem, starts_with, Result, ok, err, ◌>>=◌, ◌>>◌, raise_if,
}

-- A word of a command line: a constant, or a number in decimal between two constants.
pub data Word : Type 0 where
  text : String → Word
  num : String → ℕ → String → Word

pub data ServerError : Type 0 where
  too_little_memory : ℕ → ServerError
  too_little_file : ℕ → ServerError
  no_arguments : String → ServerError

-- `IMAGES`
abbrev pub images : List (String × String)
images =
    ("redis", "redis:8.10.2-alpine")
    ∷ ("valkey", "valkey/valkey:9.1.2-alpine")
    ∷ ("memcached", "memcached:1.6.45-alpine")
    ∷ ("memcached_extstore", "memcached:1.6.45-alpine")
    ∷ ("dragonfly", "docker.dragonflydb.io/dragonflydb/dragonfly:v2.0.0")
    ∷ ("dragonfly_tiered", "docker.dragonflydb.io/dragonflydb/dragonfly:v2.0.0")
    ∷ ("garnet", "ghcr.io/microsoft/garnet:2.1.8")
    ∷ ("garnet_storage", "ghcr.io/microsoft/garnet:2.1.8")
    ∷ ("kvrocks", "apache/kvrocks:2.17.0")
    ∷ []

abbrev pub base_engines : List String
base_engines = "redis" ∷ "valkey" ∷ "memcached" ∷ "dragonfly" ∷ "garnet" ∷ "kvrocks" ∷ []

abbrev pub file_tier_engines : List String
file_tier_engines =
    "grpc_nvm" ∷ "memcached_extstore" ∷ "dragonfly_tiered" ∷ "garnet_storage" ∷ "kvrocks" ∷ []

abbrev pub ports : List (String × ℕ)
ports =
    ("grpc", 50051)
    ∷ ("memcached", 11211)
    ∷ ("kvrocks", 6666)
    ∷ ("redis", 6379)
    ∷ ("valkey", 6379)
    ∷ ("dragonfly", 6379)
    ∷ ("garnet", 6379)
    ∷ []

abbrev extra : Bool → List Word → List Word
extra true ws = ws
extra false ws = []

abbrev grpc_arguments : String → ℕ → ℕ → List Word
grpc_arguments engine cache_mb flash_mb =
    num "--cache_size=" (cache_mb * 1048576) ""
    ∷ text "--metrics_port=0"
    ∷ text "--nvm_reader_threads=4"
    ∷ text "--nvm_writer_threads=4"
    ∷ extra (engine == "grpc_nvm") (
        text "--enable_nvm=true"
        ∷ text "--enable_io_uring=false"
        ∷ text "--nvm_path=/data/navy"
        ∷ num "--nvm_size=" (flash_mb * 1048576) ""
        ∷ [])

abbrev redis_arguments : ℕ → List Word
redis_arguments cache_mb =
    text "--save"
    ∷ text ""
    ∷ text "--appendonly"
    ∷ text "no"
    ∷ text "--maxmemory"
    ∷ num "" (cache_mb * 1048576) ""
    ∷ text "--maxmemory-policy"
    ∷ text "allkeys-lru"
    ∷ []

abbrev memcached_arguments : String → ℕ → ℕ → List Word
memcached_arguments engine cache_mb flash_mb =
    text "-m"
    ∷ num "" cache_mb ""
    ∷ text "-t"
    ∷ text "4"
    ∷ text "-I"
    ∷ text "5m"
    ∷ text "-U"
    ∷ text "0"
    ∷ extra (engine == "memcached_extstore") (
        text "-o"
        ∷ num "ext_path=/data/extstore:" flash_mb "m,ext_item_size=2048,ext_wbuf_size=8"
        ∷ [])

abbrev pub threads : ℕ
threads = 4

abbrev pub dragonfly_arguments : String → ℕ → ℕ → List Word
dragonfly_arguments engine cache_mb flash_mb =
    text "--bind"
    ∷ text "0.0.0.0"
    ∷ text "--port"
    ∷ text "6379"
    ∷ num "--maxmemory=" cache_mb "mb"
    ∷ text "--cache_mode=true"
    ∷ num "--proactor_threads=" threads ""
    ∷ text "--dbfilename="
    ∷ text "--snapshot_cron="
    ∷ extra (engine == "dragonfly_tiered")
        (text "--tiered_prefix=/data/dragonfly" ∷ num "--tiered_max_file_size=" flash_mb "mb" ∷ [])

abbrev garnet_arguments : String → ℕ → List Word
garnet_arguments engine cache_mb =
    text "--port"
    ∷ text "6379"
    ∷ text "--bind"
    ∷ text "0.0.0.0"
    ∷ text "--memory"
    ∷ num "" cache_mb "m"
    ∷ text "--index"
    ∷ text "16m"
    ∷ text "--no-obj"
    ∷ text "--checkpointdir"
    ∷ text "/tmp/garnet-checkpoint"
    ∷ extra (engine == "garnet_storage")
        (text "--storage-tier" ∷ text "true" ∷ text "--logdir" ∷ text "/data" ∷ [])

abbrev kvrocks_arguments : ℕ → List Word
kvrocks_arguments cache_mb =
    text "--bind"
    ∷ text "0.0.0.0"
    ∷ text "--port"
    ∷ text "6666"
    ∷ text "--dir"
    ∷ text "/data"
    ∷ text "--rocksdb.block_cache_size"
    ∷ num "" cache_mb ""
    ∷ text "--daemonize"
    ∷ text "no"
    ∷ []

-- At least 256 MiB for each proactor thread, and a tiering file that large again.
abbrev pub dragonfly_checked : String → ℕ → ℕ → Result ServerError (List Word)
dragonfly_checked engine cache_mb flash_mb = do
  raise_if (ltb cache_mb (256 * threads)) (too_little_memory cache_mb)
  raise_if (engine == "dragonfly_tiered" && ltb flash_mb (256 * threads)) (too_little_file flash_mb)
  ok (dragonfly_arguments engine cache_mb flash_mb)

unfoldable pub server_arguments : String → ℕ → ℕ → Result ServerError (List Word)
server_arguments engine cache_mb flash_mb =
    if starts_with "grpc" engine
    then ok (grpc_arguments engine cache_mb flash_mb)
    else if engine == "redis" || engine == "valkey"
    then ok (redis_arguments cache_mb)
    else if starts_with "memcached" engine
    then ok (memcached_arguments engine cache_mb flash_mb)
    else if starts_with "dragonfly" engine
    then dragonfly_checked engine cache_mb flash_mb
    else if starts_with "garnet" engine
    then ok (garnet_arguments engine cache_mb)
    else if engine == "kvrocks"
    then ok (kvrocks_arguments cache_mb)
    else err (no_arguments engine)
