-- ===== src/Summaries/KvRow.antt =====
-- bench/strong/summarize.py: the row of a KV run (`main`, where `--kind` is `kv`). A field of the
-- result that the row copies is in `fields`, as it is written there.
use cachelib_grpc_server.Common.{
  ℕ, ◌*◌, String, ◌==◌, Option, none, some, List, [], ◌∷◌, ◌++◌, lookup, prepend, if◌then◌else◌,
  Result, ok, err, ◌>>=◌,
}
use cachelib_grpc_server.Summaries.Integers.{ℤ, pos, minus, neg, ◌+ℤ◌}
use cachelib_grpc_server.Summaries.Counters.{
  Usage, Totals, cgroup, io_counters, counter_delta, value_or_zero,
}
use cachelib_grpc_server.Summaries.Values.{
  Value, int, quotient, copied, Row, over, over_int, int_or_none, nat_or_none, copy_or_none, growth,
  grown, File, logical_bytes, allocated_bytes,
}

pub record KvDoc : Type 0 where
  pub operations : ℕ
  pub errors : ℕ
  pub get_attempts : Option ℕ
  pub hits : ℕ
  pub origins : ℕ
  pub fields : List (String × String)
  pub latency_ms : List (String × String)
  pub stats_before : List (String × ℕ)
  pub stats_after : List (String × ℕ)
  pub client_before : List (String × ℕ)
  pub client_after : List (String × ℕ)

-- The other files of the run: the texts of the server's cgroup, by the words of their lines, the
-- recorded sizes if they are there, and the files of the file tier.
pub record KvFiles : Type 0 where
  pub before : List (List String)
  pub after : List (List String)
  pub recorded : Option (ℕ × ℕ)
  pub flash : List File

-- `flash_logical, flash_allocated`
abbrev flash_sizes : Option (ℕ × ℕ) → List File → ℕ × ℕ
flash_sizes none files = (logical_bytes files, allocated_bytes files)
flash_sizes (some sizes) files = sizes

abbrev pub gets_of : Option ℕ → ℕ → ℕ
gets_of none operations = operations
gets_of (some gets) operations = gets

abbrev pub copy_field : String → Option String → Result String Value
copy_field name none = err name
copy_field name (some s) = ok (copied s)

-- `d[name]`
abbrev pub field : String → List (String × String) → Result String Value
field name fields = copy_field name (lookup name fields)

abbrev or_later : Option ℕ → Option ℕ → Option ℕ
or_later none later = later
or_later (some n) later = some n

-- `next((int(stats[name]) for name in names if name in stats), None)`
abbrev first_of : List (String × ℕ) → List String → Option ℕ
first_of stats [] = none
first_of stats (name ∷ names) = or_later (lookup name stats) (first_of stats names)

abbrev io_deltas : Totals → Totals → Row
io_deltas before [] = []
io_deltas before ((name, after) ∷ totals) =
    (
      prepend "cgroup_io_" (prepend name "_delta"),
      int (minus after (value_or_zero (lookup name before))),
    )
    ∷ io_deltas before totals

-- The columns of the two tiers: the hits of the file, and those that are inferred of the memory.
abbrev pub tiers : String → ℕ → ℕ → ℤ → Row
tiers engine hits gets flash_hits =
    if engine == "grpc_nvm"
    then ("flash_hits", int flash_hits)
      ∷ ("inferred_dram_hits", int (pos hits +ℤ neg flash_hits))
      ∷ ("flash_hit_ratio", over flash_hits gets)
      ∷ ("inferred_dram_hit_ratio", over (pos hits +ℤ neg flash_hits) gets)
      ∷ []
    else if engine == "grpc"
    then ("flash_hits", int (pos 0))
      ∷ ("inferred_dram_hits", int (pos hits))
      ∷ ("flash_hit_ratio", int (pos 0))
      ∷ ("inferred_dram_hit_ratio", over (pos hits) gets)
      ∷ []
    else []

-- What is made of the statistics of the server: the growth of its counters, and its size at the end.
abbrev stats_columns : List (String × ℕ) → List (String × ℕ) → Row
stats_columns before after =
    ("nvm_hits_delta", int (grown "nvm_hit_count" before after))
    ∷ ("nvm_written_bytes_delta", int (grown "nvm_used" before after))
    ∷ ("nvm_device_bytes_written_delta", int (grown "nvm_device_bytes_written" before after))
    ∷ ("nvm_device_bytes_read_delta", int (grown "nvm_device_bytes_read" before after))
    ∷ ("extstore_objects_read_delta", int (grown "extstore_objects_read" before after))
    ∷ ("extstore_bytes_written_delta", int (grown "extstore_bytes_written" before after))
    ∷ (
      "extstore_bytes_read_delta",
      int_or_none (counter_delta before after ("extstore_bytes_read" ∷ [])),
    )
    ∷ (
      "evictions_delta",
      int_or_none
          (counter_delta before after ("eviction_count" ∷ "evicted_keys" ∷ "evictions" ∷ [])),
    )
    ∷ ("cache_item_count_after", nat_or_none (first_of after ("item_count" ∷ "curr_items" ∷ [])))
    ∷ (
      "cache_used_bytes_after",
      nat_or_none (first_of after ("used_size" ∷ "bytes" ∷ "used_memory" ∷ [])),
    )
    ∷ []

abbrev latency : KvDoc → String → Value
latency d name = copy_or_none (lookup name d.latency_ms)

abbrev count_columns : KvDoc → ℕ → Row
count_columns d gets =
    ("operations", int (pos d.operations))
    ∷ ("get_attempts", int (pos gets))
    ∷ ("hits", int (pos d.hits))
    ∷ ("origins", int (pos d.origins))
    ∷ ("hit_ratio", over (pos d.hits) gets)
    ∷ ("byte_hit_ratio", over (pos d.hits) gets)
    ∷ ("origin_per_1000_gets", over (pos (1000 * d.origins)) gets)
    ∷ ("p50_ms", latency d "p50")
    ∷ ("p95_ms", latency d "p95")
    ∷ ("p99_ms", latency d "p99")
    ∷ ("p999_ms", latency d "p999")
    ∷ []

abbrev server_columns : KvDoc → Usage → Usage → ℕ × ℕ → Row
server_columns d before after sizes =
    let cpu = growth before.usage_usec after.usage_usec in
    ("server_cpu_s", quotient cpu 1000000)
    ∷ ("server_cpu_us_per_object", over_int cpu (minus d.operations d.errors))
    ∷ ("server_memory_current_bytes", nat_or_none after.memory_current)
    ∷ ("server_memory_peak_bytes", nat_or_none after.memory_peak)
    ∷ ("client_cpu_s", quotient (grown "usage_usec" d.client_before d.client_after) 1000000)
    ∷ ("client_memory_peak_bytes", nat_or_none (lookup "memory.peak" d.client_after))
    ∷ ("flash_file_logical_bytes", int (pos sizes.0))
    ∷ ("flash_file_allocated_bytes", int (pos sizes.1))
    ∷ []

-- `row |= {...}`, and the columns of the tiers. The order of the columns is by what they are made of.
unfoldable pub kv_columns : String → KvDoc → KvFiles → Result String Row
kv_columns engine d files = do
  before ← cgroup files.before
  after ← cgroup files.after
  io_before ← io_counters files.before
  io_after ← io_counters files.after
  objects_s ← field "successful_ops_s" d.fields
  payload_mib_s ← field "payload_mib_s" d.fields
  batches ← field "batches" d.fields
  origin_bytes ← field "origin_bytes" d.fields
  origin_bytes_avoided ← field "origin_bytes_avoided" d.fields
  samples ← field "latency_samples" d.fields
  warmup_stable ← field "warmup_stable" d.fields
  dropped_arrivals ← field "dropped_arrivals" d.fields
  ok (
      ("objects_s", objects_s)
      ∷ ("payload_mib_s", payload_mib_s)
      ∷ ("batches", batches)
      ∷ ("origin_bytes", origin_bytes)
      ∷ ("origin_bytes_avoided", origin_bytes_avoided)
      ∷ ("samples", samples)
      ∷ ("warmup_stable", warmup_stable)
      ∷ ("dropped_arrivals", dropped_arrivals)
      ∷ (count_columns d (gets_of d.get_attempts d.operations)
          ++ (server_columns d before after (flash_sizes files.recorded files.flash)
              ++ (io_deltas io_before io_after
                  ++ (stats_columns d.stats_before d.stats_after
                      ++ tiers engine d.hits (gets_of d.get_attempts d.operations)
                          (grown "nvm_hit_count" d.stats_before d.stats_after))))))
