-- ===== src/Published/Rows.antt =====
-- bench/strong/render_release_report.py: the rows of a `runs.csv`, and the cells of a table that are
-- made of them (`median`, `number`, `percent`). A number of the file is a natural multiple of a unit.
pub mod Honest
use cachelib_grpc_server.Common.{
  ℕ, ◌*◌, ◌^◌, String, ◌==◌, Bool, ◌&&◌, Option, none, some, List, [], ◌∷◌, ltb, eqb, if◌then◌else◌,
  lookup,
}
use cachelib_grpc_server.Reports.Floats.{round}
use cachelib_grpc_server.Reports.Sweep.{twice_median}

-- A cell is absent, empty, or has a number.
pub record Row : Type 0 where
  pub case : String
  pub repetition : ℕ
  pub engine : String
  pub cells : List (String × Option ℕ)

-- `row.get(key)`, where an empty cell counts as none
abbrev pub number_at : Option (Option ℕ) → Option ℕ
number_at none = none
number_at (some cell) = cell

abbrev kept : Option ℕ → List ℕ → List ℕ
kept none ns = ns
kept (some n) ns = n ∷ ns

abbrev pub values : String → List Row → List ℕ
values key [] = []
values key (row ∷ rows) = kept (number_at (lookup key row.cells)) (values key rows)

abbrev median_of : List ℕ → Option ℕ
median_of [] = none
median_of (n ∷ ns) = some (twice_median (n ∷ ns))

-- Twice the median, or nothing.
abbrev pub median : List Row → String → Option ℕ
median rows key = median_of (values key rows)

abbrev pub select : String → String → List Row → List Row
select case engine [] = []
select case engine (row ∷ rows) =
    let rest = select case engine rows in
    if (row.case == case) && (row.engine == engine) then row ∷ rest else rest

-- A formatted number: its digits without the point, and how many of them stand after it.
pub data Cell : Type 0 where
  dash : Cell
  decimal : ℕ → ℕ → Cell
  percentage : ℕ → ℕ → Cell
  below_hundred : Cell

-- The numbers here are quotients by `den`.
module _ (den : ℕ) where
  abbrev pub number : Option ℕ → ℕ → Cell
  number none places = dash
  number (some v) places = decimal (round (v * 10 ^ places) den) places

  unfoldable pub percent : Option ℕ → Cell
  percent none = dash
  percent (some v) =
      if ltb 0 v && (ltb v den && eqb (round (v * 1000) den) 1000)
      then if ltb (round (v * 100000) den) 100000
        then percentage (round (v * 100000) den) 3
        else below_hundred
      else percentage (round (v * 1000) den) 1
