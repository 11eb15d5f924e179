-- ===== src/Published/Cells.antt =====
-- bench/strong/render_release_report.py: the table of a group in the report (the loop of `render`).
use cachelib_grpc_server.Common.{
  ℕ, ◌+◌, ◌*◌, String, ◌==◌, Option, none, some, List, [], ◌∷◌, ◌++◌, length, lookup, if◌then◌else◌,
  Result, ok, err, ◌>>=◌,
}
use cachelib_grpc_server.Campaign.Spec.{Spec}
use cachelib_grpc_server.Published.Rows.{Row, Cell, dash, select, median, number, percent}

pub data ReportError : Type 0 where
  campaign_incomplete not_a_number division_by_zero : ReportError
  evidence_changed key_error : String → ReportError

-- LABELS
abbrev pub labels : List (String × String)
labels =
    ("grpc", "CacheLib gRPC DRAM")
    ∷ ("grpc_nvm", "CacheLib gRPC + Navy")
    ∷ ("redis", "Redis OSS")
    ∷ ("valkey", "Valkey")
    ∷ ("memcached", "Memcached DRAM")
    ∷ ("memcached_extstore", "Memcached extstore")
    ∷ ("grpc_adapter", "gRPC + Python HTTP adapter")
    ∷ ("nginx", "NGINX cache")
    ∷ ("origin_direct", "Direct origin (reference)")
    ∷ []

-- TITLES
abbrev pub titles : List (String × String)
titles =
    ("primary", "All-RAM unary hits")
    ∷ ("hybrid", "Reusable 128 MiB set, 96 MiB configured DRAM")
    ∷ ("offered", "Equal demand: 1,500 scheduled arrivals/s")
    ∷ ("ram192", "Full-hit objective: 192 MiB DRAM / 384 MiB service ceiling")
    ∷ ("flash384", "Full-hit objective: 96 MiB DRAM + 512 MiB file / 384 MiB service ceiling")
    ∷ ("http", "Repeated 256 KiB objects through a common HTTP interface")
    ∷ ("exploratory-kv", "Exploratory value sizes, concurrency and writes")
    ∷ ("batch-get", "Exploratory 16-object batch GET")
    ∷ ("batch-set", "Exploratory 16-object batch SET")
    ∷ ("pipeline", "Exploratory sustained Pipeline")
    ∷ ("offered-saturation", "Exploratory scheduled-load saturation")
    ∷ ("origin-sensitivity", "Exploratory origin-delay sensitivity")
    ∷ ("origin-patterns", "Exploratory near-capacity, skew, changing, cold and one-pass traces")
    ∷ ("http-secondary", "Exploratory HTTP replay and 1 MiB objects")
    ∷ ("http-onepass", "Exploratory one-pass HTTP objects")
    ∷ []

abbrev pub need {ℓ} : {A : Type ℓ} → String → Option A → Result ReportError A
need key none = err (key_error key)
need key (some a) = ok a

abbrev whole : Option ℕ → Result ReportError ℕ
whole none = err not_a_number
whole (some n) = ok n

-- `int(r["errors"])`, and `int(r.get("dropped_arrivals", 0))`
abbrev required_int : String → Row → Result ReportError ℕ
required_int key row = do cell ← need key (lookup key row.cells); whole cell

abbrev or_absent : Option (Option ℕ) → Result ReportError ℕ
or_absent none = ok 0
or_absent (some cell) = whole cell

abbrev optional : String → Row → Result ReportError ℕ
optional key row = or_absent (lookup key row.cells)

unfoldable pub total_of : (Row → Result ReportError ℕ) → List Row → Result ReportError ℕ
total_of f [] = ok 0
total_of f (row ∷ rows) = do n ← f row; rest ← total_of f rows; ok (n + rest)

pub record Line : Type 0 where
  pub case : String
  pub label : String
  pub n : ℕ
  pub objects_s : Cell
  pub p99_ms : Cell
  pub hit_ratio : Cell
  pub origins : Cell
  pub cpu : Cell
  pub peak_mib : Cell
  pub errors : ℕ
  pub drops : ℕ

abbrev unless_direct : String → Cell → Cell
unless_direct engine cell = if engine == "origin_direct" then dash else cell

-- One line of the table, for the labels of the engines. `den` is what a doubled median is divided by.
module _ (names : List (String × String)) (den : ℕ) where
  unfoldable pub line_of : String → String → List Row → Result ReportError Line
  unfolding total_of
  line_of case engine selected = do
    label ← need engine (lookup engine names)
    errors ← total_of (required_int "errors") selected
    drops ← total_of (optional "dropped_arrivals") selected
    ok (record {
      case = case;
      label = label;
      n = length selected;
      objects_s = number den (median selected "objects_s") 0;
      p99_ms = number den (median selected "p99_ms") 3;
      hit_ratio = percent den (median selected "hit_ratio");
      origins = number den (median selected "origins") 0;
      cpu = unless_direct engine (number den (median selected "server_cpu_us_per_object") 1);
      peak_mib =
          unless_direct engine
            (number (den * 1048576) (median selected "server_memory_peak_bytes") 1);
      errors = errors;
      drops = drops;
    })

  unfoldable pub engine_lines : List Row → String → List String → Result ReportError (List Line)
  unfolding line_of
  engine_lines rows case [] = ok []
  engine_lines rows case (engine ∷ engines) = do
    line ← line_of case engine (select case engine rows)
    rest ← engine_lines rows case engines
    ok (line ∷ rest)

  unfoldable pub case_lines : List Row → List String → List String → Result ReportError (List Line)
  case_lines rows engines [] = ok []
  case_lines rows engines (case ∷ cases) = do
    lines ← engine_lines rows case engines
    rest ← case_lines rows engines cases
    ok (lines ++ rest)

  abbrev pub table : Spec → List Row → Result ReportError (List Line)
  table spec rows = case_lines rows spec.engines spec.cases
