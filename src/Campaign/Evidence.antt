-- ===== src/Campaign/Evidence.antt =====
-- What a finished run leaves in its directory, as `validate_group` of
-- bench/strong/release_campaign.py reads it: `result.json`, `error.txt` and `correctness.json`.
use cachelib_grpc_server.Common.{
  ℕ, ◌*◌, ◌^◌, String, Bool, false, not, ◌&&◌, ◌||◌, Option, none, some, List, [], ◌∷◌, ◌++◌, eqb,
  ltb, if◌then◌else◌,
}
use cachelib_grpc_server.Campaign.Spec.{Kind, kv, http}

-- A JSON number, written in decimal: the mantissa, scaled down by a power of ten.
pub record Number : Type 0 where
  pub negative : Bool
  pub mantissa : ℕ
  pub places : ℕ

abbrev pub nat : ℕ → Number
nat n = record { negative = false; mantissa = n; places = 0 }

-- `if number`, `number > 0` and `number == k`
unfoldable pub is_nonzero : Number → Bool
is_nonzero n = ltb 0 n.mantissa

unfoldable pub is_positive : Number → Bool
is_positive n = not n.negative && ltb 0 n.mantissa

unfoldable pub equals : Number → ℕ → Bool
equals n k = eqb n.mantissa (k * 10 ^ n.places) && (not n.negative || eqb n.mantissa 0)

-- `elapsed < seconds * .99`
unfoldable pub is_below_99_percent : Number → ℕ → Bool
is_below_99_percent n seconds =
    if n.negative
    then ltb 0 n.mantissa || ltb 0 seconds
    else ltb (n.mantissa * 100) (seconds * 99 * 10 ^ n.places)

-- A decoded `result.json`. A field is there, with a value of its type, or it is absent; the names of
-- the fields that are only required to be there are in `others`.
pub record Doc : Type 0 where
  pub args : Option (Option Number)
  pub client_exit_code : Option Number
  pub dropped_arrivals : Option Number
  pub elapsed_s : Option Number
  pub errors : Option Number
  pub latency_samples : Option Number
  pub measure_seconds : Option Number
  pub origin_requests_delta : Option Number
  pub origins : Option Number
  pub warmup_errors : Option Number
  pub warmup_stable : Option Bool
  pub others : List String

abbrev key {ℓ} : {A : Type ℓ} → String → Option A → List String
key name none = []
key name (some a) = name ∷ []

-- `d.keys()`
unfoldable pub keys : Doc → List String
keys d =
    key "args" d.args
    ++ (key "client_exit_code" d.client_exit_code
        ++ (key "dropped_arrivals" d.dropped_arrivals
            ++ (key "elapsed_s" d.elapsed_s
                ++ (key "errors" d.errors
                    ++ (key "latency_samples" d.latency_samples
                        ++ (key "measure_seconds" d.measure_seconds
                            ++ (key "origin_requests_delta" d.origin_requests_delta
                                ++ (key "origins" d.origins
                                    ++ (key "warmup_errors" d.warmup_errors
                                        ++ (key "warmup_stable" d.warmup_stable
                                            ++ d.others))))))))))

-- `required`, in ascending order
unfoldable pub required : Kind → List String
required kv =
    "args" ∷ "client_cgroup_after" ∷ "client_cgroup_before" ∷ "client_exit_code"
    ∷ "dropped_arrivals" ∷ "elapsed_s" ∷ "errors" ∷ "hits" ∷ "latency_ms" ∷ "latency_samples"
    ∷ "operations" ∷ "origins" ∷ "server_stats_after" ∷ "server_stats_before" ∷ "successful_ops_s"
    ∷ "warmup_stable" ∷ []
required http =
    "client_cpu_usage_usec" ∷ "client_exit_code" ∷ "client_memory_peak_bytes" ∷ "elapsed_s"
    ∷ "errors" ∷ "latency_samples" ∷ "measure_seconds" ∷ "objects_s" ∷ "origin_container"
    ∷ "origin_requests_delta" ∷ "p50_ms" ∷ "p95_ms" ∷ "p99_ms" ∷ "path_containers"
    ∷ "successful_objects" ∷ "warmup_errors" ∷ "warmup_seconds" ∷ "warmup_success" ∷ []

-- `result.json` is not there, cannot be read (with the exception's text), or decodes to fields.
pub data ResultFile : Type 0 where
  absent : ResultFile
  unreadable : String → ResultFile
  parsed : Doc → ResultFile

-- A decoded `correctness.json`.
pub record Probe : Type 0 where
  pub basic : Option String
  pub batch_pipeline : Option String

pub record RunFiles : Type 0 where
  pub result : ResultFile
  pub error_txt : Option String
  pub correctness : Option Probe

-- What is reported of a run: one constructor for each message.
pub data Issue : Type 0 where
  missing_result : Issue
  recorded_error : String → Issue
  unreadable_result : String → Issue
  missing_fields : List String → Issue
  no_latency_samples : Issue
  other_duration : Option Number → ℕ → Issue
  nonzero_field : String → Number → Issue
  truncated_measurement : Number → Issue
  missing_probe : Issue
  failed_probe : Issue
  dropped_arrivals_seen : Number → Issue
  unstable_warmup : Issue
  full_hit_origins : Number → Issue
  repeated_hit_origins : Number → Issue
  harness_exit : ℕ → ℕ → Issue
