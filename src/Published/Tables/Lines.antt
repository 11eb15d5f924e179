-- ===== src/Published/Tables/Lines.antt =====
-- bench/strong/render_report_tables.py: the lines of a table, and `table`.
use cachelib_grpc_server.Common.{
  ℕ, ◌+◌, ◌-◌, ◌*◌, String, Bool, some, List, [], ◌∷◌, ◌++◌, map, ltb, if◌then◌else◌, Result, ok,
  ◌>>=◌, ◌>>◌,
}
use cachelib_grpc_server.Reports.Sweep.{twice_median}
use cachelib_grpc_server.Reports.Floats.{round}
use cachelib_grpc_server.Published.Rows.{Row, Cell, percentage, number}
use cachelib_grpc_server.Published.Tables.{
  Table, primary, hybrid, offered, objective, http, labels, source_of, TableError, by_repetition,
  of_engine, cell, check_runs,
}

-- `float(r[field]) for r in rs`
abbrev column : String → List Row → Result TableError (List ℕ)
column field [] = ok []
column field (r ∷ rs) = do n ← cell field r; rest ← column field rs; ok (n ∷ rest)

pub record Line : Type 0 where
  pub label : String
  -- the five runs, in the order of the repetitions
  pub runs : List Cell
  pub columns : List Cell

-- The numbers of a file are multiples of a unit.
module _ (unit : ℕ) where
  abbrev middle : String → ℕ → List Row → Result TableError Cell
  middle field places rs = do
    ns ← column field rs
    ok (number (2 * unit) (some (twice_median ns)) places)

  abbrev peak_mib : List Row → Result TableError Cell
  peak_mib rs = do
    ns ← column "server_memory_peak_bytes" rs
    ok (number (2 * unit * 1048576) (some (twice_median ns)) 1)

  -- `"100%" if abs(hit - 100) < .05 else f"{hit:.1f}%"`
  abbrev hit_cell : ℕ → Cell
  hit_cell twice =
      if ltb ((twice - 2 * unit + (2 * unit - twice)) * 2000) (2 * unit)
      then percentage 100 0
      else percentage (round (twice * 1000) (2 * unit)) 1

  abbrev hybrid_columns : List Row → Result TableError (List Cell)
  hybrid_columns rs = do
    hits ← column "hit_ratio" rs
    p99 ← middle "p99_ms" 2 rs
    ok (hit_cell (twice_median hits) ∷ p99 ∷ [])

  abbrev one_column : Result TableError Cell → Result TableError (List Cell)
  one_column r = do c ← r; ok (c ∷ [])

  abbrev latency_columns : Table → List Row → Result TableError (List Cell)
  latency_columns hybrid rs = hybrid_columns rs
  latency_columns objective rs = one_column (middle "p99_ms" 2 rs)
  latency_columns http rs = one_column (middle "p99_ms" 2 rs)
  latency_columns primary rs = one_column (middle "p99_ms" 3 rs)
  latency_columns offered rs = one_column (middle "p99_ms" 3 rs)

  abbrev offered_line : String → List Row → Result TableError Line
  offered_line label rs = do
    counts ← column "origins" rs
    origins ← middle "origins" 0 rs
    p99 ← middle "p99_ms" 2 rs
    peak ← peak_mib rs
    ok (record {
      label = label;
      runs = map (λ n. number unit (some n) 0) counts;
      columns = origins ∷ p99 ∷ peak ∷ [];
    })

  abbrev rate_line : Table → String → List Row → Result TableError Line
  rate_line kind label rs = do
    rates ← column "objects_s" rs
    rate ← middle "objects_s" 0 rs
    latency ← latency_columns kind rs
    cpu ← middle "server_cpu_us_per_object" 1 rs
    peak ← peak_mib rs
    ok (record {
      label = label;
      runs = map (λ n. number unit (some n) 0) rates;
      columns = rate ∷ (latency ++ cpu ∷ peak ∷ []);
    })

  abbrev line_of : Table → String → List Row → Result TableError Line
  line_of offered label rs = offered_line label rs
  line_of primary label rs = rate_line primary label rs
  line_of hybrid label rs = rate_line hybrid label rs
  line_of objective label rs = rate_line objective label rs
  line_of http label rs = rate_line http label rs

  abbrev lines_of : Table → List (String × String × List Row) → Result TableError (List Line)
  lines_of kind [] = ok []
  lines_of kind ((engine, label, rs) ∷ rest) = do
    line ← line_of kind label rs
    lines ← lines_of kind rest
    ok (line ∷ lines)

-- Every engine with its label and its runs, in order: `grouped`
abbrev pub grouped :
    (String → List Row) → Table → List (String × String) → List (String × String × List Row)
grouped files kind [] = []
grouped files kind ((engine, label) ∷ rest) =
    (engine, label, by_repetition (of_engine engine (files (source_of kind engine))))
    ∷ grouped files kind rest

unfoldable pub check_all :
    (Row → Bool) → Table → List (String × String × List Row) → Result TableError (Unit {0})
unfolding check_runs
check_all is_stable kind [] = ok tt
check_all is_stable kind ((engine, label, rs) ∷ rest) = do
  check_runs is_stable kind rs
  check_all is_stable kind rest

-- Every table checks all of its runs before it has a line.
unfoldable pub table :
    ℕ → (Row → Bool) → (String → List Row) → Table → Result TableError (List Line)
unfolding check_all
table unit is_stable files kind = do
  check_all is_stable kind (grouped files kind (labels kind))
  lines_of unit kind (grouped files kind (labels kind))
