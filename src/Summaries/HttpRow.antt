-- ===== src/Summaries/HttpRow.antt =====
-- bench/strong/summarize.py: the row of an HTTP run (`main`, where `--kind` is `http`). A field of the
-- result that the row copies is in `fields`, as it is written there.
pub mod Containers
use cachelib_grpc_server.Common.{
  ℕ, zero, suc, ◌+◌, ◌-◌, ◌*◌, String, ◌==◌, Bool, Option, none, some, List, [], ◌∷◌, ◌++◌,
  get_elem?, lookup, if◌then◌else◌, Result, ok, err, ◌>>=◌,
}
use cachelib_grpc_server.Summaries.Integers.{ℤ, pos, minus, ◌+ℤ◌}
use cachelib_grpc_server.Summaries.Counters.{Usage, cgroup, nothing, value_or_zero}
use cachelib_grpc_server.Summaries.Values.{
  Value, absent, int, quotient, Row, nat_or_none, copy_or_none, growth, File, logical_bytes,
  allocated_bytes,
}
use cachelib_grpc_server.Summaries.KvRow.{field}

pub record HttpDoc : Type 0 where
  pub path_containers : List String
  pub origin_container : Option String
  pub successful_objects : ℕ
  pub origin_requests_delta : ℕ
  pub size_bytes : ℕ
  pub client_cpu_usec : ℕ
  pub fields : List (String × String)

-- The texts of a container's cgroup, before and after, and the files of the cache.
pub record HttpFiles : Type 0 where
  pub before : String → List (List String)
  pub after : String → List (List String)
  pub cache : List File

-- What one container of the path used: its CPU in microseconds, and its peak.
pub record Component : Type 0 where
  pub cpu : ℤ
  pub memory : ℕ

abbrev pub component_of : Usage → Usage → Component
component_of before after = record {
  cpu = growth before.usage_usec after.usage_usec;
  memory = value_or_zero after.memory_peak;
}

unfoldable pub components : HttpFiles → List String → Result String (List Component)
components files [] = ok []
components files (name ∷ names) = do
  before ← cgroup (files.before name)
  after ← cgroup (files.after name)
  rest ← components files names
  ok (component_of before after ∷ rest)

abbrev pub total_cpu : List Component → ℤ
total_cpu [] = pos 0
total_cpu (c ∷ cs) = c.cpu +ℤ total_cpu cs

abbrev pub total_memory : List Component → ℕ
total_memory [] = 0
total_memory (c ∷ cs) = c.memory + total_memory cs

-- `cgroup(...) if origin_name else {}`
abbrev pub origin_usage : (String → List (List String)) → Option String → Result String Usage
origin_usage texts none = ok nothing
origin_usage texts (some name) = if name == "" then ok nothing else cgroup (texts name)

abbrev origin_columns : Option String → Usage → Usage → Row
origin_columns none before after =
    ("origin_cpu_s", absent) ∷ ("origin_memory_peak_bytes", absent) ∷ []
origin_columns (some name) before after =
    if name == ""
    then ("origin_cpu_s", absent) ∷ ("origin_memory_peak_bytes", absent) ∷ []
    else ("origin_cpu_s", quotient (growth before.usage_usec after.usage_usec) 1000000)
      ∷ ("origin_memory_peak_bytes", nat_or_none after.memory_peak)
      ∷ []

-- `component[i] if engine == name else None`: the list has an element there, or it raises
abbrev found_part : Option Component → (Component → Value) → Result String Value
found_part none f = err "list index out of range"
found_part (some c) f = ok (f c)

abbrev pub part_if : Bool → ℕ → List Component → (Component → Value) → Result String Value
part_if b i cs f = if b then found_part (get_elem? cs i) f else ok absent

abbrev pub seconds : Component → Value
seconds c = quotient c.cpu 1000000

abbrev pub peak : Component → Value
peak c = int (pos c.memory)

abbrev at_least_one : ℕ → ℕ
at_least_one zero = 1
at_least_one (suc n) = suc n

-- `1 - requests / max(1, objects)`
abbrev pub hit_share : HttpDoc → Value
hit_share d =
    quotient (minus (at_least_one d.successful_objects) d.origin_requests_delta)
      (at_least_one d.successful_objects)

abbrev count_columns : HttpDoc → List Component → List File → Row
count_columns d cs cache =
    ("operations", int (pos d.successful_objects))
    ∷ ("origins", int (pos d.origin_requests_delta))
    ∷ (
      "origin_bytes_avoided",
      int (pos ((d.successful_objects - d.origin_requests_delta) * d.size_bytes)),
    )
    ∷ ("hit_ratio", hit_share d)
    ∷ ("byte_hit_ratio", hit_share d)
    ∷ ("server_cpu_s", quotient (total_cpu cs) 1000000)
    ∷ ("server_cpu_us_per_object", quotient (total_cpu cs) (at_least_one d.successful_objects))
    ∷ ("server_memory_peak_bytes", int (pos (total_memory cs)))
    ∷ ("path_component_peak_sum_upper_bound_bytes", int (pos (total_memory cs)))
    ∷ ("client_cpu_s", quotient (pos d.client_cpu_usec) 1000000)
    ∷ ("cache_file_logical_bytes", int (pos (logical_bytes cache)))
    ∷ ("cache_file_allocated_bytes", int (pos (allocated_bytes cache)))
    ∷ ("p999_ms", copy_or_none (lookup "p999_ms" d.fields))
    ∷ []

-- `row |= {...}`. The order of the columns is by what they are made of.
unfoldable pub http_columns : String → HttpDoc → HttpFiles → Result String Row
unfolding components
http_columns engine d files = do
  origin_before ← origin_usage files.before d.origin_container
  origin_after ← origin_usage files.after d.origin_container
  cs ← components files d.path_containers
  objects_s ← field "objects_s" d.fields
  payload_mib_s ← field "payload_mib_s" d.fields
  origin_bytes ← field "origin_bytes_delta" d.fields
  p50_ms ← field "p50_ms" d.fields
  p95_ms ← field "p95_ms" d.fields
  p99_ms ← field "p99_ms" d.fields
  samples ← field "latency_samples" d.fields
  client_memory ← field "client_memory_peak_bytes" d.fields
  nginx_cpu ← part_if (engine == "nginx") 0 cs seconds
  adapter_cpu ← part_if (engine == "grpc_adapter") 1 cs seconds
  grpc_cpu ← part_if (engine == "grpc_adapter") 0 cs seconds
  adapter_memory ← part_if (engine == "grpc_adapter") 1 cs peak
  grpc_memory ← part_if (engine == "grpc_adapter") 0 cs peak
  ok (
      ("objects_s", objects_s)
      ∷ ("payload_mib_s", payload_mib_s)
      ∷ ("origin_bytes", origin_bytes)
      ∷ ("p50_ms", p50_ms)
      ∷ ("p95_ms", p95_ms)
      ∷ ("p99_ms", p99_ms)
      ∷ ("samples", samples)
      ∷ ("client_memory_peak_bytes", client_memory)
      ∷ ("nginx_cpu_s", nginx_cpu)
      ∷ ("adapter_cpu_s", adapter_cpu)
      ∷ ("grpc_server_cpu_s", grpc_cpu)
      ∷ ("adapter_memory_peak_bytes", adapter_memory)
      ∷ ("grpc_server_memory_peak_bytes", grpc_memory)
      ∷ (count_columns d cs files.cache
          ++ origin_columns d.origin_container origin_before origin_after))
