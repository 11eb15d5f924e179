-- ===== src/Campaign/Release.antt =====
-- bench/strong/release_campaign.py: the groups that the release comparison measures (`GROUPS`).
use cachelib_grpc_server.Common.{false, List, [], ◌∷◌}
use cachelib_grpc_server.Campaign.Spec.{Spec, defaults, group, http}

abbrev pub release_groups : List Spec
release_groups =
    (group "primary" "hit_1k_c8" "grpc,redis,valkey,memcached" defaults)
    ∷ (group "hybrid" "origin_uniform_64k_5ms"
        "grpc,grpc_nvm,redis,valkey,memcached,memcached_extstore" defaults)
    ∷ (group "offered" "offered_origin_64k_1500" "grpc,grpc_nvm,redis,memcached_extstore" defaults)
    ∷ (group "ram192" "origin_uniform_64k_5ms" "grpc,redis,memcached"
        (record defaults { cache = 192; memory = 384 }))
    ∷ (group "flash384" "origin_uniform_64k_5ms" "grpc_nvm,memcached_extstore"
        (record defaults { memory = 384 }))
    ∷ (group "http" "repeated_256k_c8" "grpc_adapter,nginx" (record defaults { kind = http }))
    ∷ (group "exploratory-kv"
        "hit_100b_c8,hit_16k_c8,hit_64k_c8,hit_256k_c8,hit_1m_c4,hit_1k_c1,hit_1k_c4,hit_1k_c16,readheavy_1k_c8,mixed_1k_c8"
        "grpc,redis,memcached" (record defaults { reps = 1; seconds = 10; headline = false }))
    ∷ (group "batch-get" "batch_get_1k_c8" "grpc,redis,memcached"
        (record defaults { reps = 2; seconds = 20; headline = false }))
    ∷ (group "batch-set" "batch_set_1k_c8" "grpc,redis"
        (record defaults { reps = 2; seconds = 20; headline = false }))
    ∷ (group "pipeline" "pipeline_1k_c8" "grpc"
        (record defaults { reps = 2; seconds = 20; headline = false }))
    ∷ (group "offered-saturation" "offered_1k_20k,offered_1k_50k,offered_1k_80k" "grpc,redis"
        (record defaults { reps = 1; seconds = 20; headline = false }))
    ∷ (group "origin-sensitivity" "origin_uniform_64k_1ms,origin_uniform_64k_20ms"
        "grpc,grpc_nvm,redis,memcached_extstore"
        (record defaults { reps = 1; seconds = 10; headline = false }))
    ∷ (group "origin-patterns"
        "origin_near_64k_5ms,origin_skew_64k_5ms,origin_shift_64k_5ms,cold_origin_uniform_64k_5ms,onepass_64k_5ms"
        "grpc,grpc_nvm,redis,memcached_extstore"
        (record defaults { reps = 1; seconds = 10; headline = false }))
    ∷ (group "http-secondary" "recent_replay_256k_c8,repeated_1m_c8" "grpc_adapter,nginx"
        (record defaults { reps = 2; seconds = 30; kind = http; headline = false }))
    ∷ (group "http-onepass" "onepass_256k_c8" "grpc_adapter,nginx,origin_direct"
        (record defaults { reps = 2; seconds = 30; kind = http; headline = false }))
    ∷ []
