-- ===== src/Rendered/Levels.antt =====
-- bench/render.py: the two tables of the sweep over levels of concurrency (`sweep_rows`,
-- `render_sweep`, `render_readme_sweep`).
pub mod Agreement
use cachelib_grpc_server.Common.{
  ℕ, String, Bool, true, false, ◌||◌, List, [], ◌∷◌, eqb, leb, min, if◌then◌else◌, Result, ok, err,
  ◌>>=◌,
}
use cachelib_grpc_server.Rendered.Rounding.{round_half_up}

-- The measurement at one level. Its numbers are written without the point.
pub record Level : Type 0 where
  pub rps_runs : List ℕ
  pub rps_median : ℕ
  pub p50_median_ms : ℕ
  pub p99_median_ms : ℕ
  pub p999_median_ms : ℕ

-- `get_concurrency_sweep`, with the keys read as numbers
abbrev pub Sweep : Type 0
Sweep = List (ℕ × Level)

abbrev pub insert_row : ℕ × Level → Sweep → Sweep
insert_row r [] = r ∷ []
insert_row r (s ∷ rows) =
    let rest = insert_row r rows in if leb r.0 s.0 then r ∷ s ∷ rows else s ∷ rest

-- `sorted(..., key=lambda kv: kv[0])`
unfoldable pub sweep_rows : Sweep → Sweep
sweep_rows [] = []
sweep_rows (r ∷ rows) = insert_row r (sweep_rows rows)

abbrev smallest : ℕ → List ℕ → ℕ
smallest m [] = m
smallest m (n ∷ ns) = smallest (min m n) ns

abbrev greatest : ℕ → List ℕ → ℕ
greatest m [] = m
greatest m (n ∷ ns) = greatest (if leb m n then n else m) ns

-- `min(runs)` and `max(runs)`
abbrev pub range_of : List ℕ → Result String (ℕ × ℕ)
range_of [] = err "min() arg is an empty sequence"
range_of (n ∷ ns) = ok (smallest n ns, greatest n ns)

-- The figures of a level in whole requests per second and in hundredths of a millisecond.
pub record Figures : Type 0 where
  pub rps : ℕ
  pub p50 : ℕ
  pub p99 : ℕ
  pub p999 : ℕ

pub record SweepLine : Type 0 where
  pub level : ℕ
  pub figures : Figures
  pub lowest : ℕ
  pub highest : ℕ

pub record ReadmeLine : Type 0 where
  pub level : ℕ
  pub figures : Figures
  pub bold : Bool

-- README_LEVELS and README_KNEE
abbrev pub readme_levels : List ℕ
readme_levels = 1 ∷ 25 ∷ 100 ∷ 400 ∷ []

abbrev pub readme_knee : ℕ
readme_knee = 100

abbrev pub is_level : ℕ → List ℕ → Bool
is_level c [] = false
is_level c (n ∷ ns) = eqb c n || is_level c ns

module _ (digits : ℕ) where
  -- `_fmt_rps` and `_fmt_ms`
  abbrev pub fmt_rps : ℕ → ℕ
  fmt_rps v = round_half_up v digits 0

  abbrev pub fmt_ms : ℕ → ℕ
  fmt_ms v = round_half_up v digits 2

  abbrev pub figures_of : Level → Figures
  figures_of r = record {
    rps = fmt_rps r.rps_median;
    p50 = fmt_ms r.p50_median_ms;
    p99 = fmt_ms r.p99_median_ms;
    p999 = fmt_ms r.p999_median_ms;
  }

  unfoldable pub sweep_lines : Sweep → Result String (List SweepLine)
  sweep_lines [] = ok []
  sweep_lines ((c, r) ∷ rows) = do
    (low, high) ← range_of r.rps_runs
    lines ← sweep_lines rows
    ok (
        record { level = c; figures = figures_of r; lowest = fmt_rps low; highest = fmt_rps high }
        ∷ lines)

  unfoldable pub render_sweep : Sweep → Result String (List SweepLine)
  unfolding sweep_lines sweep_rows
  render_sweep sweep = sweep_lines (sweep_rows sweep)

  unfoldable pub readme_lines : Sweep → List ReadmeLine
  readme_lines [] = []
  readme_lines ((c, r) ∷ rows) =
      let rest = readme_lines rows in
      if is_level c readme_levels
      then record { level = c; figures = figures_of r; bold = eqb c readme_knee } ∷ rest
      else rest

  unfoldable pub render_readme_sweep : Sweep → List ReadmeLine
  unfolding readme_lines sweep_rows
  render_readme_sweep sweep = readme_lines (sweep_rows sweep)
