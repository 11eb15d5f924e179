-- ===== src/Summaries/Runs.antt =====
-- bench/strong/summarize.py: the runs of a directory, and the summary of their groups (`main`).
pub mod Accounting
use cachelib_grpc_server.Common.{
  ℕ, zero, suc, ◌+◌, ◌*◌, ◌/◌, String, ◌==◌, Bool, true, false, ◌&&◌, ◌||◌, Option, none, some,
  List, [], ◌∷◌, ◌++◌, map, length, elem, lookup, leb, min, if◌then◌else◌, Result, ok, err, ◌>>=◌,
}
use cachelib_grpc_server.Campaign.Spec.{sum}
use cachelib_grpc_server.Summaries.Values.{Value, Row}

-- A directory of a run, by the last three parts of its path: the texts of its files, if they are
-- there. `D` is what `result.json` and the other files of the measurement say.
pub record Found (D : Type 0) : Type 0 where
  pub case : String
  pub repetition : String
  pub engine : String
  pub result : Option D
  pub error : Option String

pub record Failure : Type 0 where
  pub case : String
  pub repetition : String
  pub engine : String
  pub error : String

-- A row, with the parts of it that the summary reads by name.
pub record Run : Type 0 where
  pub case : String
  pub repetition : String
  pub engine : String
  pub errors : ℕ
  pub columns : Row

pub record Split : Type 0 where
  pub rows : List Run
  pub failures : List Failure

abbrev pub failure_of : {D : Type 0} → Found D → String → Failure
failure_of f error = record {
  case = f.case;
  repetition = f.repetition;
  engine = f.engine;
  error = error;
}

module _ {D : Type 0} (errors_of : D → ℕ) (columns_of : String → D → Result String Row) where
  abbrev row_of : Found D → D → Row → Run
  row_of f d columns = record {
    case = f.case;
    repetition = f.repetition;
    engine = f.engine;
    errors = errors_of d;
    columns = columns;
  }

  -- `continue`: a directory without a result is a failure alone
  abbrev pub missing : Found D → Option String → Split → Split
  missing f none s = record s { failures = failure_of f "missing result.json" ∷ s.failures }
  missing f (some error) s = record s { failures = failure_of f error ∷ s.failures }

  -- a result beside an error text is a row and a failure
  abbrev pub measured : Found D → D → Row → Option String → Split → Split
  measured f d columns none s = record s { rows = row_of f d columns ∷ s.rows }
  measured f d columns (some error) s = record {
    rows = row_of f d columns ∷ s.rows;
    failures = failure_of f error ∷ s.failures;
  }

  -- The rest of the loop runs after the directory: its parts stand behind those of this one.
  abbrev pub read_found : Found D → Option D → Result String Split → Result String Split
  read_found f none rest = do s ← rest; ok (missing f f.error s)
  read_found f (some d) rest = do
    columns ← columns_of f.engine d
    s ← rest
    ok (measured f d columns f.error s)

  unfoldable pub read_all : List (Found D) → Result String Split
  read_all [] = ok (record { rows = []; failures = [] })
  read_all (f ∷ fs) = read_found f f.result (read_all fs)

-- `groups[(case, engine)].append(row)`, in the order of the first rows
pub record Group : Type 0 where
  pub case : String
  pub engine : String
  pub runs : List Run

abbrev pub is_of : Run → Group → Bool
is_of r g = (g.case == r.case) && (g.engine == r.engine)

abbrev pub append_row : Run → List Group → List Group
append_row r [] = record { case = r.case; engine = r.engine; runs = r ∷ [] } ∷ []
append_row r (g ∷ gs) =
    let rest = append_row r gs in
    if is_of r g then record g { runs = g.runs ++ r ∷ [] } ∷ gs else g ∷ rest

abbrev pub group_rows : List Group → List Run → List Group
group_rows groups [] = groups
group_rows groups (r ∷ rs) = group_rows (append_row r groups) rs

-- `sorted(groups.items())`, by an order of the keys
abbrev pub insert_group : (Group → Group → Bool) → Group → List Group → List Group
insert_group before g [] = g ∷ []
insert_group before g (h ∷ hs) =
    let rest = insert_group before g hs in if before g h then g ∷ h ∷ hs else h ∷ rest

abbrev pub sort_groups : (Group → Group → Bool) → List Group → List Group
sort_groups before [] = []
sort_groups before (g ∷ gs) = insert_group before g (sort_groups before gs)

pub record Entry : Type 0 where
  pub case : String
  pub engine : String
  pub n : ℕ
  pub repetitions : List String
  pub errors : ℕ

abbrev pub entry_of : Group → Entry
entry_of g = record {
  case = g.case;
  engine = g.engine;
  n = length g.runs;
  repetitions = map (λ (r : Run). r.repetition) g.runs;
  errors = sum (map (λ (r : Run). r.errors) g.runs);
}

unfoldable pub summarize : (Group → Group → Bool) → List Run → List Entry
summarize before rows = map entry_of (sort_groups before (group_rows [] rows))
