-- ===== src/Published/Headlines/Figures.antt =====
-- bench/strong/render_release_report.py: the figures of the headlines, and `readme_headlines`.
use cachelib_grpc_server.Common.{
  ℕ, String, Bool, true, false, some, List, [], ◌∷◌, eqb, ltb, is_empty, lookup, if◌then◌else◌,
  Result, ok, ◌>>=◌, ◌>>◌, raise_if,
}
use cachelib_grpc_server.Campaign.Spec.{Spec}
use cachelib_grpc_server.Published.Rows.{Cell, number}
use cachelib_grpc_server.Published.Headlines.{
  Files, HeadlineError, no_device_reads, Medians, need, measured_versions, headline_specs, limited,
  collect_medians, check_full_hits, full_hit_names,
}

-- `groups[group][engine][field]`
abbrev median_at : List (String × Medians) → String → String → String → Result HeadlineError ℕ
median_at groups group engine field = do
  engines ← need group (lookup group groups)
  medians ← need engine (lookup engine engines)
  need field (lookup field medians)

-- A figure of the text: `value(group, engine, field, places)`
abbrev Figure : Type 0
Figure = String × String × String × ℕ

abbrev rate : String → String → Figure
rate group engine = (group, engine, "objects_s", 0)

abbrev p99 : String → String → Figure
p99 group engine = (group, engine, "p99_ms", 3)

abbrev origins : String → String → Figure
origins group engine = (group, engine, "origins", 0)

abbrev headline_figures : List Figure
headline_figures =
    rate "primary" "grpc"
    ∷ p99 "primary" "grpc"
    ∷ rate "primary" "redis"
    ∷ p99 "primary" "redis"
    ∷ rate "primary" "valkey"
    ∷ p99 "primary" "valkey"
    ∷ rate "primary" "memcached"
    ∷ p99 "primary" "memcached"
    ∷ origins "hybrid" "grpc_nvm"
    ∷ rate "hybrid" "grpc_nvm"
    ∷ rate "hybrid" "grpc"
    ∷ rate "hybrid" "memcached_extstore"
    ∷ origins "offered" "grpc_nvm"
    ∷ origins "offered" "grpc"
    ∷ rate "http" "grpc_adapter"
    ∷ p99 "http" "grpc_adapter"
    ∷ rate "http" "nginx"
    ∷ p99 "http" "nginx"
    ∷ []

unfoldable pub figure_cells :
    ℕ → List (String × Medians) → List Figure → Result HeadlineError (List Cell)
figure_cells den groups [] = ok []
figure_cells den groups ((group, engine, field, places) ∷ figures) = do
  v ← median_at groups group engine field
  rest ← figure_cells den groups figures
  ok (number den (some v) places ∷ rest)

-- `all(primary["grpc"]["objects_s"] < primary[e]["objects_s"] for e in ...)`, which ends with the
-- first that is not greater
unfoldable pub is_slower : List (String × Medians) → List String → Result HeadlineError Bool
is_slower groups [] = ok true
is_slower groups (e ∷ es) = do
  own ← median_at groups "primary" "grpc" "objects_s"
  other ← median_at groups "primary" e "objects_s"
  if ltb own other then is_slower groups es else ok false

pub record Shown : Type 0 where
  pub slower : Bool
  pub versions : List (String × String)
  pub figures : List Cell

pub data Headlines : Type 0 where
  withheld : List String → Headlines
  shown : Shown → Headlines

-- The headlines once every group qualifies.
unfoldable pub supported : ℕ → ℕ → Files → List Spec → Result HeadlineError Headlines
unfolding figure_cells is_slower collect_medians
supported unit den files specs = do
  groups ← collect_medians files [] specs
  check_full_hits unit files full_hit_names
  device_reads ← median_at groups "hybrid" "grpc_nvm" "nvm_device_bytes_read_delta"
  raise_if (eqb device_reads 0) no_device_reads
  slower ← is_slower groups ("redis" ∷ "valkey" ∷ "memcached" ∷ [])
  figures ← figure_cells den groups headline_figures
  ok (
      shown (record {
        slower = slower;
        versions = measured_versions [] files.requested;
        figures = figures;
      }))

unfoldable pub readme_headlines : ℕ → ℕ → Files → List Spec → Result HeadlineError Headlines
readme_headlines unit den files groups =
    let specs = headline_specs groups in
    let out = supported unit den files specs in
    if is_empty (limited files.runs specs) then out else ok (withheld (limited files.runs specs))
