-- ===== src/Published/Landscape.antt =====
-- bench/strong/render_landscape_report.py: what the report of the landscape campaign is made of, with
-- its labels, versions and titles. The cells and the order of the engines are those of Published/Rows
-- and Published/Ranking.
pub mod Headlines
pub mod Leads
pub mod Report
pub mod Claims
pub mod Backed
use cachelib_grpc_server.Common.{
  String, ◌==◌, ◌||◌, Option, none, some, List, [], ◌∷◌, lookup, if◌then◌else◌, Result, ok, err,
}
use cachelib_grpc_server.Campaign.Spec.{Spec}
use cachelib_grpc_server.Published.Cells.{ReportError, key_error}
use cachelib_grpc_server.Published.Ranking.{SentenceError}

-- LABELS
abbrev pub labels : List (String × String)
labels =
    ("grpc", "CacheLib gRPC DRAM")
    ∷ ("grpc_nvm", "CacheLib gRPC + Navy")
    ∷ ("redis", "Redis OSS")
    ∷ ("valkey", "Valkey")
    ∷ ("memcached", "Memcached DRAM")
    ∷ ("memcached_extstore", "Memcached extstore")
    ∷ ("dragonfly", "Dragonfly")
    ∷ ("dragonfly_tiered", "Dragonfly tiered")
    ∷ ("garnet", "Garnet")
    ∷ ("garnet_storage", "Garnet storage tier")
    ∷ ("kvrocks", "Kvrocks")
    ∷ ("grpc_adapter", "gRPC + Python HTTP adapter")
    ∷ ("nginx", "NGINX cache")
    ∷ ("origin_direct", "Direct origin (reference)")
    ∷ []

-- VERSIONS
abbrev pub versions : List (String × String)
versions =
    ("grpc", "published 1.8.0 image")
    ∷ ("grpc_nvm", "published 1.8.0 image")
    ∷ ("redis", "redis:8.10.2-alpine")
    ∷ ("valkey", "valkey/valkey:9.1.2-alpine")
    ∷ ("memcached", "memcached:1.6.45-alpine")
    ∷ ("memcached_extstore", "memcached:1.6.45-alpine")
    ∷ ("dragonfly", "docker.dragonflydb.io/dragonflydb/dragonfly:v2.0.0")
    ∷ ("garnet", "ghcr.io/microsoft/garnet:2.1.8")
    ∷ ("garnet_storage", "ghcr.io/microsoft/garnet:2.1.8")
    ∷ ("kvrocks", "apache/kvrocks:2.17.0")
    ∷ ("nginx", "nginx:1.30.5-alpine")
    ∷ ("grpc_adapter", "published 1.8.0 image + Python adapter")
    ∷ ("origin_direct", "simulated origin service")
    ∷ []

-- TITLES
abbrev pub titles : List (String × String)
titles =
    ("primary", "All-RAM unary hits, 96 MiB configured DRAM")
    ∷ ("hybrid", "Reusable 128 MiB set, 96 MiB configured DRAM")
    ∷ ("offered", "Equal demand: 1,500 scheduled arrivals/s")
    ∷ ("ram192", "Full-hit objective: 192 MiB DRAM / 384 MiB service ceiling")
    ∷ ("flash384", "Full-hit objective: 96 MiB DRAM + 512 MiB file / 384 MiB service ceiling")
    ∷ (
      "ssd-highvolume", "SSD+RAM under volume: 2 GiB set, 256 MiB DRAM, 4 GiB file, 32 connections",
    )
    ∷ ("ssd-overcapacity", "SSD+RAM over capacity: 6 GiB set, 4 GiB file, 32 connections")
    ∷ ("ssd-small-objects", "SSD+RAM under volume: 2 GiB set in 16 KiB objects, 32 connections")
    ∷ ("ssd-offered", "SSD+RAM under traffic: 10,000 scheduled arrivals/s, 64 connections")
    ∷ ("ssd-sustained", "SSD+RAM steady state: five-minute runs")
    ∷ ("parity1g-hit", "Equal 1 GiB configured DRAM: all-RAM hits")
    ∷ ("parity1g-origin", "Equal 1 GiB configured DRAM: 1.28 GiB reusable set")
    ∷ ("http", "Repeated 256 KiB objects through a common HTTP interface")
    ∷ ("exploratory-kv", "Exploratory value sizes, concurrency and writes")
    ∷ ("stress-kv", "Exploratory concurrency and write stress")
    ∷ ("batch-get", "Exploratory 16-object batch GET")
    ∷ ("batch-set", "Exploratory 16-object batch SET")
    ∷ ("pipeline", "Exploratory sustained Pipeline")
    ∷ ("offered-saturation", "Exploratory scheduled-load saturation")
    ∷ ("origin-sensitivity", "Exploratory origin-delay sensitivity")
    ∷ ("origin-patterns", "Exploratory near-capacity, skew, changing, cold and one-pass traces")
    ∷ ("http-secondary", "Exploratory HTTP replay and 1 MiB objects")
    ∷ ("http-onepass", "Exploratory one-pass HTTP objects")
    ∷ []

-- `VERSIONS.get(role, "—") if role not in ("go", "python") else "benchmark client"`
abbrev pub version_of : String → Option String
version_of role =
    if (role == "go") || (role == "python") then some "benchmark client" else lookup role versions

pub data LandscapeError : Type 0 where
  of_report : ReportError → LandscapeError
  of_sentence : SentenceError → LandscapeError
  stop_iteration index_error : LandscapeError

abbrev pub reported {ℓ} : {A : Type ℓ} → Result ReportError A → Result LandscapeError A
reported (ok a) = ok a
reported (err e) = err (of_report e)

abbrev pub sentenced {ℓ} : {A : Type ℓ} → Result SentenceError A → Result LandscapeError A
sentenced (ok a) = ok a
sentenced (err e) = err (of_sentence e)

-- `d[key]`
abbrev pub need {ℓ} : {A : Type ℓ} → String → Option A → Result LandscapeError A
need key none = err (of_report (key_error key))
need key (some a) = ok a

-- `xs[0]`
abbrev pub first {ℓ} : {A : Type ℓ} → List A → Result LandscapeError A
first [] = err index_error
first (x ∷ xs) = ok x

-- `next(s for s in GROUPS if s["name"] == name)`
abbrev pub named : String → List Spec → Result LandscapeError Spec
named name [] = err stop_iteration
named name (g ∷ gs) = let rest = named name gs in if g.name == name then ok g else rest
