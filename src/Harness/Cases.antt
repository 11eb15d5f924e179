-- ===== src/Harness/Cases.antt =====
-- bench/strong/run_strong.py: the workloads that a run can measure (`CASES`).
use cachelib_grpc_server.Common.{ℕ, String, Bool, true, false, List, [], ◌∷◌}

pub record Case : Type 0 where
  pub size : ℕ
  pub objects : ℕ
  pub concurrency : ℕ
  pub pattern_name : String
  pub workload : String
  pub operation : String
  pub preload : Bool
  pub origin_ms : ℕ
  pub model : String
  pub offered_rate : ℕ

abbrev case : ℕ → ℕ → ℕ → String → String → String → Bool → ℕ → String → ℕ → Case
case size objects concurrency pattern_name workload operation preload origin_ms model rate =
    record {
      size = size;
      objects = objects;
      concurrency = concurrency;
      pattern_name = pattern_name;
      workload = workload;
      operation = operation;
      preload = preload;
      origin_ms = origin_ms;
      model = model;
      offered_rate = rate;
    }

abbrev pub all_cases : List (String × Case)
all_cases =
    ("hit_100b_c8", case 100 1000 8 "uniform" "read-only" "unary" true 0 "closed" 0)
    ∷ ("hit_1k_c1", case 1024 1000 1 "uniform" "read-only" "unary" true 0 "closed" 0)
    ∷ ("hit_1k_c4", case 1024 1000 4 "uniform" "read-only" "unary" true 0 "closed" 0)
    ∷ ("hit_1k_c8", case 1024 1000 8 "uniform" "read-only" "unary" true 0 "closed" 0)
    ∷ ("hit_1k_c16", case 1024 1000 16 "uniform" "read-only" "unary" true 0 "closed" 0)
    ∷ ("hit_16k_c8", case 16384 1000 8 "uniform" "read-only" "unary" true 0 "closed" 0)
    ∷ ("hit_64k_c8", case 65536 1000 8 "uniform" "read-only" "unary" true 0 "closed" 0)
    ∷ ("hit_256k_c8", case 262144 160 8 "uniform" "read-only" "unary" true 0 "closed" 0)
    ∷ ("hit_1m_c4", case 1048576 40 4 "uniform" "read-only" "unary" true 0 "closed" 0)
    ∷ ("hit_1k_c32", case 1024 1000 32 "uniform" "read-only" "unary" true 0 "closed" 0)
    ∷ ("hit_1k_c64", case 1024 1000 64 "uniform" "read-only" "unary" true 0 "closed" 0)
    ∷ ("readheavy_1k_c8", case 1024 1000 8 "skew" "read-heavy" "unary" true 0 "closed" 0)
    ∷ ("mixed_1k_c8", case 1024 1000 8 "skew" "mixed" "unary" true 0 "closed" 0)
    ∷ ("mixed_1k_c32", case 1024 1000 32 "skew" "mixed" "unary" true 0 "closed" 0)
    ∷ ("batch_get_1k_c8", case 1024 1000 8 "uniform" "read-only" "batch-get" true 0 "closed" 0)
    ∷ ("batch_set_1k_c8", case 1024 1000 8 "uniform" "read-only" "batch-set" true 0 "closed" 0)
    ∷ ("pipeline_1k_c8", case 1024 1000 8 "uniform" "read-only" "pipeline" true 0 "closed" 0)
    ∷ ("origin_uniform_64k_1ms", case 65536 2048 8 "uniform" "origin" "unary" true 1 "closed" 0)
    ∷ ("origin_near_64k_5ms", case 65536 1400 8 "uniform" "origin" "unary" true 5 "closed" 0)
    ∷ ("origin_uniform_64k_5ms", case 65536 2048 8 "uniform" "origin" "unary" true 5 "closed" 0)
    ∷ ("origin_uniform_64k_1gib", case 65536 20480 8 "uniform" "origin" "unary" true 5 "closed" 0)
    ∷ (
      "cold_origin_uniform_64k_5ms",
      case 65536 2048 8 "uniform" "origin" "unary" false 5 "closed" 0,
    )
    ∷ ("origin_uniform_64k_20ms", case 65536 2048 8 "uniform" "origin" "unary" true 20 "closed" 0)
    ∷ ("origin_skew_64k_5ms", case 65536 2048 8 "skew" "origin" "unary" true 5 "closed" 0)
    ∷ ("origin_shift_64k_5ms", case 65536 2048 8 "hot_shift" "origin" "unary" false 5 "closed" 0)
    ∷ ("onepass_64k_5ms", case 65536 2048 4 "one_pass" "origin" "unary" false 5 "closed" 0)
    ∷ (
      "origin_uniform_64k_2gib_c32",
      case 65536 32768 32 "uniform" "origin" "unary" true 5 "closed" 0,
    )
    ∷ ("origin_skew_64k_2gib_c32", case 65536 32768 32 "skew" "origin" "unary" true 5 "closed" 0)
    ∷ (
      "origin_uniform_16k_2gib_c32",
      case 16384 131072 32 "uniform" "origin" "unary" true 5 "closed" 0,
    )
    ∷ (
      "origin_uniform_64k_6gib_c32",
      case 65536 98304 32 "uniform" "origin" "unary" false 5 "closed" 0,
    )
    ∷ ("offered_1k_20k", case 1024 1000 8 "uniform" "read-only" "unary" true 0 "offered" 20000)
    ∷ ("offered_1k_50k", case 1024 1000 16 "uniform" "read-only" "unary" true 0 "offered" 50000)
    ∷ ("offered_1k_80k", case 1024 1000 16 "uniform" "read-only" "unary" true 0 "offered" 80000)
    ∷ ("offered_1k_120k", case 1024 1000 16 "uniform" "read-only" "unary" true 0 "offered" 120000)
    ∷ (
      "offered_origin_64k_1500",
      case 65536 2048 8 "uniform" "origin" "unary" true 5 "offered" 1500,
    )
    ∷ (
      "offered_origin_64k_2gib_10k",
      case 65536 32768 64 "uniform" "origin" "unary" true 5 "offered" 10000,
    )
    ∷ []
