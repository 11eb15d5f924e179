-- ===== src/Rendered/Levels/Agreement.antt =====
-- What the two tables of the sweep say of the measurement, and of each other.
use cachelib_grpc_server.Common.{
  ℕ, ◌≤◌, ◌≡◌, refl, sym, subst, true, Bool-cases, inl, inr, List, [], ◌∷◌, ok, >>=-eq-ok,
  ok_injective, Place, here, there, Place-cons-inv, All,
}
use cachelib_grpc_server.Rendered.Levels.{
  Level, Sweep, sweep_rows, range_of, Figures, SweepLine, ReadmeLine, readme_levels, is_level,
  figures_of, sweep_lines, render_sweep, readme_lines, render_readme_sweep,
}

abbrev AtLeast : ℕ → ℕ × Level → Type 0
AtLeast c r = c ≤ r.0

abbrev IsAscending : Sweep → Type 0
IsAscending [] = Unit
IsAscending (r ∷ rows) = All (AtLeast r.0) rows × IsAscending rows

-- The levels of a table do not decrease.
abbrev pub AtLeastLevel : ℕ → SweepLine → Type 0
AtLeastLevel c l = c ≤ l.level

abbrev pub InOrder : List SweepLine → Type 0
InOrder [] = Unit
InOrder (l ∷ lines) = All (AtLeastLevel l.level) lines × InOrder lines

module _ (digits : ℕ) where
  -- A line with the figures of a level.
  abbrev pub HasLine : ℕ → Figures → List SweepLine → Type 0
  HasLine c f lines = (l : SweepLine) × Place l lines × (l.level ≡ c) × (l.figures ≡ f)

  module _ (c : ℕ) (r : Level) (rows : Sweep) {lines : List SweepLine} where
    sweep_lines-cons :
        sweep_lines digits ((c, r) ∷ rows) ≡ ok lines
        → (l : SweepLine) × (rest : List SweepLine) × (l.level ≡ c)
          × (l.figures ≡ figures_of digits r)
          × (sweep_lines digits rows ≡ ok rest)
          × (l ∷ rest ≡ lines)
    unfolding sweep_lines
    sweep_lines-cons h =
        let (range, m, h1) = >>=-eq-ok (range_of r.rps_runs) _ h in
        let (rest, s, h2) = >>=-eq-ok (sweep_lines digits rows) _ h1 in
        (_, rest, refl, refl, s, ok_injective h2)

  lines-HasLine :
      (rows : Sweep) {c : ℕ} {r : Level} {lines : List SweepLine}
      → sweep_lines digits rows ≡ ok lines
      → Place (c, r) rows
      → HasLine c (figures_of digits r) lines
  lines-HasLine [] h m = elim m [ ]
  lines-HasLine ((c, r) ∷ rows) h here =
      let (l, rest, at, shows, s, e) = sweep_lines-cons c r rows h in
      subst (HasLine c (figures_of digits r)) e (l, here, at, shows)
  lines-HasLine ((d, q) ∷ rows) {c} {r} h (there m) =
      let (l, rest, at, shows, s, e) = sweep_lines-cons d q rows h in
      let (k, place, at', shows') = lines-HasLine rows s m in
      subst (HasLine c (figures_of digits r)) e (k, there place, at', shows')

  readme_lines-inv :
      (rows : Sweep) {l : ReadmeLine}
      → Place l (readme_lines digits rows)
      → (r : Level) × Place (l.level, r) rows
        × (l.figures ≡ figures_of digits r)
        × (is_level l.level readme_levels ≡ true)
  unfolding readme_lines
  readme_lines-inv [] m = elim m [ ]
  readme_lines-inv ((c, r) ∷ rows) {l} m = elim (Bool-cases (is_level c readme_levels)) [
    | inl k ↦ elim (Place-cons-inv (rw k at m)) [
      | inl e ↦ rw (← e) (r, here, refl, k)
      | inr m' ↦
          let (q, place, shows, chosen) = readme_lines-inv rows m' in
          (q, there place, shows, chosen)
    ]
    | inr k ↦
        let (q, place, shows, chosen) = readme_lines-inv rows (rw k at m) in
        (q, there place, shows, chosen)
  ]

  -- Every line of the README's table is of one of its levels, and shows the figures that the full
  -- table shows for that level.
  pub readme_agrees :
      (sweep : Sweep) {lines : List SweepLine} {l : ReadmeLine}
      → render_sweep digits sweep ≡ ok lines
      → Place l (render_readme_sweep digits sweep)
      → HasLine l.level l.figures lines × (is_level l.level readme_levels ≡ true)
  unfolding render_sweep render_readme_sweep
  readme_agrees sweep {lines} {l} h m =
      let (r, place, shows, chosen) = readme_lines-inv (sweep_rows sweep) m in
      let line = lines-HasLine (sweep_rows sweep) h place in
      (subst (λ f. HasLine l.level f lines) (sym shows) line, chosen)
