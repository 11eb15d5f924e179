-- ===== src/Rendered/Main.antt =====
-- bench/render.py: what the blocks are made of (`blocks`), and `main`, which writes the documents or
-- checks them. How a table is written out is a parameter.
pub mod Check
use cachelib_grpc_server.Common.{
  ℕ, String, ◌==◌, Bool, true, false, not, ◌&&◌, Option, none, some, List, [], ◌∷◌, map, is_empty,
  if◌then◌else◌, Result, ok, err, ◌>>=◌,
}
use cachelib_grpc_server.Rendered.Environment.{Environment, EnvironmentTable, render_environment}
use cachelib_grpc_server.Rendered.Levels.{
  Sweep, SweepLine, ReadmeLine, render_sweep, render_readme_sweep,
}
use cachelib_grpc_server.Rendered.Operations.{Operation, OpLine, render_ops, render_get_vs_ping}
use cachelib_grpc_server.Rendered.Marked.{Piece, begin, end, other, Text, BlockError, apply_blocks}

-- results-summary.json
pub record Measurement : Type 0 where
  pub environment : Environment
  pub operation_mix : List (String × Operation)
  pub get_concurrency_sweep : Sweep

pub data Block : Type 0 where
  environment : EnvironmentTable → Block
  full_sweep : List SweepLine → Block
  readme_sweep : List ReadmeLine → Block
  operations : List OpLine → Block
  get_vs_ping : ℕ → Block

-- `source` is the version that the tree names.
unfoldable pub blocks : ℕ → Option String → Measurement → Result String (List (String × Block))
blocks digits source m = do
  env ← render_environment m.environment source m.environment.requests_per_measurement
  sweep ← render_sweep digits m.get_concurrency_sweep
  ops ← render_ops digits m.operation_mix
  share ← render_get_vs_ping m.operation_mix
  ok (
      ("environment", environment env)
      ∷ ("sweep", full_sweep sweep)
      ∷ ("readme-sweep", readme_sweep (render_readme_sweep digits m.get_concurrency_sweep))
      ∷ ("operations", operations ops)
      ∷ ("get-vs-ping", get_vs_ping share)
      ∷ [])

abbrev same_line : Bool → Bool → Bool
same_line true b = b
same_line false b = not b

abbrev pub same_piece : Piece → Piece → Bool
same_piece (begin n nl) (begin m ml) = n == m && same_line nl ml
same_piece (end n) (end m) = n == m
same_piece (other s) (other t) = s == t
same_piece (begin n nl) (end m) = false
same_piece (begin n nl) (other t) = false
same_piece (end n) (begin m ml) = false
same_piece (end n) (other t) = false
same_piece (other s) (begin m ml) = false
same_piece (other s) (end m) = false

-- `before == after`
abbrev pub same_text : Text → Text → Bool
same_text [] [] = true
same_text [] (y ∷ ys) = false
same_text (x ∷ xs) [] = false
same_text (x ∷ xs) (y ∷ ys) = same_piece x y && same_text xs ys

pub data MainError : Type 0 where
  missing_measurement : MainError
  of_blocks : String → MainError
  of_document : String → BlockError → MainError

-- The documents by name, and what the program ends with: the names of those that have drifted.
abbrev pub Files : Type 0
Files = List (String × Text)

abbrev pub Outcome : Type 0
Outcome = Result MainError (List String) × Files

abbrev pub add_name : String → Result MainError (List String) → Result MainError (List String)
add_name name (err e) = err e
add_name name (ok names) = ok (name ∷ names)

abbrev pub kept : String → Text → Outcome → Outcome
kept name before o = (o.0, (name, before) ∷ o.1)

-- A document that differs from its rendering is named by a check, and written otherwise.
abbrev pub differs : Bool → String → Text → Text → Outcome → Outcome
differs true name before after o = (add_name name o.0, (name, before) ∷ o.1)
differs false name before after o = (o.0, (name, after) ∷ o.1)

-- An exception leaves the documents that come later as they are.
abbrev pub one_target : Bool → String → Text → Files → Result BlockError Text → Outcome → Outcome
one_target check name before files (err e) o = (err (of_document name e), (name, before) ∷ files)
one_target check name before files (ok after) o =
    if same_text before after then kept name before o else differs check name before after o

-- The loop over TARGETS.
unfoldable pub update : Bool → List (String × String) → Files → Outcome
update check rendered [] = (ok [], [])
update check rendered ((name, before) ∷ files) =
    one_target check name before files (apply_blocks rendered before) (update check rendered files)

-- `return 1` when a checked document has drifted, and 0 otherwise
abbrev pub status : Result MainError (List String) → Result MainError ℕ
status (err e) = err e
status (ok names) = ok (if is_empty names then 0 else 1)

module _ (written : Block → String) where
  abbrev pub with_blocks :
      Bool → Files → Result String (List (String × Block)) → Result MainError ℕ × Files
  with_blocks check files (err e) = (err (of_blocks e), files)
  with_blocks check files (ok bs) =
      let o = update check (map (λ (b : String × Block). (b.0, written b.1)) bs) files in
      (status o.0, o.1)

  unfoldable pub main :
      ℕ → Bool → Option String → Option Measurement → Files → Result MainError ℕ × Files
  unfolding update
  main digits check source none files = (err missing_measurement, files)
  main digits check source (some m) files = with_blocks check files (blocks digits source m)
