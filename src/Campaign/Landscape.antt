-- ===== src/Campaign/Landscape.antt =====
-- bench/strong/landscape_campaign.py: the groups that the landscape comparison measures (`GROUPS`).
use cachelib_grpc_server.Common.{String, true, false, some, List, [], ◌∷◌}
use cachelib_grpc_server.Campaign.Spec.{Spec, defaults, group, http}

abbrev dram : String
dram = "grpc,redis,valkey,memcached,garnet"

abbrev file_tier : String
file_tier = "grpc_nvm,memcached_extstore,garnet_storage,kvrocks"

abbrev parity : String
parity = "grpc,redis,valkey,memcached,dragonfly,garnet"

abbrev ssd : String
ssd = "grpc_nvm,memcached_extstore,garnet_storage,kvrocks,grpc"

abbrev pub landscape_groups : List Spec
landscape_groups =
    (group "primary" "hit_1k_c8" dram defaults)
    ∷ (group "hybrid" "origin_uniform_64k_5ms"
        "grpc,grpc_nvm,redis,valkey,memcached,memcached_extstore,garnet,garnet_storage,kvrocks"
        (record defaults { discard_flash = true }))
    ∷ (group "offered" "offered_origin_64k_1500"
        "grpc,grpc_nvm,redis,memcached_extstore,garnet_storage,kvrocks"
        (record defaults { discard_flash = true }))
    ∷ (group "ram192" "origin_uniform_64k_5ms" dram (record defaults { cache = 192; memory = 384 }))
    ∷ (group "flash384" "origin_uniform_64k_5ms" file_tier
        (record defaults { memory = 384; discard_flash = true }))
    ∷ (group "ssd-highvolume" "origin_uniform_64k_2gib_c32,origin_skew_64k_2gib_c32" ssd
        (record defaults {
          cache = 256;
          memory = 1024;
          warmup = 30;
          flash = (some 4096);
          discard_flash = true;
        }))
    ∷ (group "ssd-overcapacity" "origin_uniform_64k_6gib_c32" ssd (record defaults {
      reps = 3;
      seconds = 60;
      cache = 256;
      memory = 1024;
      warmup = 60;
      flash = (some 4096);
      discard_flash = true;
      headline = false;
    }))
    ∷ (group "ssd-small-objects" "origin_uniform_16k_2gib_c32" ssd (record defaults {
      cache = 256;
      memory = 1024;
      warmup = 30;
      flash = (some 4096);
      discard_flash = true;
    }))
    ∷ (group "ssd-offered" "offered_origin_64k_2gib_10k" ssd (record defaults {
      cache = 256;
      memory = 1024;
      warmup = 30;
      flash = (some 4096);
      discard_flash = true;
      headline = false;
      overload_probe = true;
    }))
    ∷ (group "ssd-sustained" "origin_uniform_64k_2gib_c32" file_tier (record defaults {
      reps = 3;
      seconds = 300;
      cache = 256;
      memory = 1024;
      warmup = 60;
      flash = (some 4096);
      discard_flash = true;
      headline = false;
    }))
    ∷ (group "parity1g-hit" "hit_1k_c8" parity (record defaults { cache = 1024; memory = 2048 }))
    ∷ (group "parity1g-origin" "origin_uniform_64k_1gib" parity
        (record defaults { cache = 1024; memory = 2048 }))
    ∷ (group "http" "repeated_256k_c8" "grpc_adapter,nginx" (record defaults { kind = http }))
    ∷ (group "exploratory-kv"
        "hit_100b_c8,hit_16k_c8,hit_64k_c8,hit_256k_c8,hit_1m_c4,hit_1k_c1,hit_1k_c4,hit_1k_c16,readheavy_1k_c8,mixed_1k_c8"
        dram (record defaults { reps = 1; seconds = 10; headline = false }))
    ∷ (group "stress-kv" "hit_1k_c32,hit_1k_c64,mixed_1k_c32" dram
        (record defaults { reps = 2; seconds = 20; headline = false }))
    ∷ (group "batch-get" "batch_get_1k_c8" "grpc,redis,valkey,memcached,garnet,kvrocks"
        (record defaults { reps = 2; seconds = 20; headline = false; discard_flash = true }))
    ∷ (group "batch-set" "batch_set_1k_c8" "grpc,redis,valkey,garnet,kvrocks"
        (record defaults { reps = 2; seconds = 20; headline = false; discard_flash = true }))
    ∷ (group "pipeline" "pipeline_1k_c8" "grpc"
        (record defaults { reps = 2; seconds = 20; headline = false }))
    ∷ (group "offered-saturation" "offered_1k_20k,offered_1k_50k,offered_1k_80k,offered_1k_120k"
        "grpc,redis,valkey,garnet" (record defaults { reps = 1; seconds = 20; headline = false }))
    ∷ (group "origin-sensitivity" "origin_uniform_64k_1ms,origin_uniform_64k_20ms"
        "grpc,grpc_nvm,memcached_extstore,garnet_storage,kvrocks,redis"
        (record defaults { reps = 1; seconds = 10; headline = false; discard_flash = true }))
    ∷ (group "origin-patterns"
        "origin_near_64k_5ms,origin_skew_64k_5ms,origin_shift_64k_5ms,cold_origin_uniform_64k_5ms,onepass_64k_5ms"
        "grpc,grpc_nvm,memcached_extstore,garnet_storage,kvrocks,redis"
        (record defaults { reps = 1; seconds = 10; headline = false; discard_flash = true }))
    ∷ (group "http-secondary" "recent_replay_256k_c8,repeated_1m_c8" "grpc_adapter,nginx"
        (record defaults { reps = 2; seconds = 30; kind = http; headline = false }))
    ∷ (group "http-onepass" "onepass_256k_c8" "grpc_adapter,nginx,origin_direct"
        (record defaults { reps = 2; seconds = 30; kind = http; headline = false }))
    ∷ []
