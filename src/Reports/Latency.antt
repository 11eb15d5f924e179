-- ===== src/Reports/Latency.antt =====
-- bench/report.py: `summarize`, the percentiles of a run. Latencies are in nanoseconds, as ghz reports
-- them; a percentile is given in hundredths of a percent.
use cachelib_grpc_server.Common.{
  ℕ, ◌-◌, min, String, ◌==◌, Option, List, [], ◌∷◌, leb, length, get_elem?, if◌then◌else◌, Result,
  ok, err,
}
use cachelib_grpc_server.Reports.Floats.{round, nearest, divided_by, times, plus_half, rounded}

-- A request of the run: its latency and its status.
pub record Detail : Type 0 where
  pub latency : ℕ
  pub status : String

abbrev pub insert_sorted : ℕ → List ℕ → List ℕ
insert_sorted n [] = n ∷ []
insert_sorted n (x ∷ xs) = let rest = insert_sorted n xs in if leb n x then n ∷ x ∷ xs else x ∷ rest

-- `sorted(xs)`
abbrev pub sorted : List ℕ → List ℕ
sorted [] = []
sorted (x ∷ xs) = insert_sorted x (sorted xs)

abbrev pub ok_latencies : List Detail → List ℕ
ok_latencies [] = []
ok_latencies (d ∷ ds) =
    let rest = ok_latencies ds in if d.status == "OK" then d.latency ∷ rest else rest

-- `int(round(p / 100.0 * n + 0.5))`, in double precision
unfoldable pub rank : ℕ → ℕ → ℕ
unfolding round nearest
rank p n = rounded (plus_half (times (divided_by (nearest p 100) 100) n))

-- `min(len(lat) - 1, rank - 1)`, for a percentile of at least 50, where the rank is not zero
unfoldable pub index : ℕ → ℕ → ℕ
unfolding rank
index p n = min (n - 1) (rank p n - 1)

abbrev pub pct : List ℕ → ℕ → Option ℕ
pct lat p = get_elem? lat (index p (length lat))

pub record Percentiles : Type 0 where
  pub p50 : Option ℕ
  pub p90 : Option ℕ
  pub p99 : Option ℕ
  pub p999 : Option ℕ
  pub p9999 : Option ℕ
  pub max : Option ℕ

abbrev percentiles : List ℕ → Percentiles
percentiles lat = record {
  p50 = pct lat 5000;
  p90 = pct lat 9000;
  p99 = pct lat 9900;
  p999 = pct lat 9990;
  p9999 = pct lat 9999;
  max = get_elem? lat (length lat - 1);
}

abbrev of_sorted : List ℕ → Result String Percentiles
of_sorted [] = err "no successful requests"
of_sorted (x ∷ xs) = ok (percentiles (x ∷ xs))

unfoldable pub summarize : List Detail → Result String Percentiles
summarize details = of_sorted (sorted (ok_latencies details))
