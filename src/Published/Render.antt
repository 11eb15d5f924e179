-- ===== src/Published/Render.antt =====
-- bench/strong/render_release_report.py: the report of a campaign (`render`) and `main`. A report is
-- what its sentences and tables say; the text that is the same in every report is left out.
pub mod Claims
pub mod Main
use cachelib_grpc_server.Common.{
  ℕ, ◌+◌, ◌-◌, ◌*◌, String, ◌==◌, Bool, true, false, not, ◌&&◌, ◌||◌, Option, none, some, List, [],
  ◌∷◌, ◌++◌, map, length, all_b, elem, is_empty, eqb, ltb, lookup, if◌then◌else◌, Result, ok, err,
  ◌>>=◌, ◌>>◌, raise_if,
}
use cachelib_grpc_server.Campaign.Spec.{Spec, Run, Kind, kv, http, sum, expected_runs}
use cachelib_grpc_server.Campaign.Evidence.{RunFiles, Issue}
use cachelib_grpc_server.Campaign.Validate.{Report, validate_group, is_kv}
use cachelib_grpc_server.Reports.Floats.{round}
use cachelib_grpc_server.Published.Rows.{Row, Cell, decimal, percentage, median, number}
use cachelib_grpc_server.Published.Cells.{
  ReportError, campaign_incomplete, evidence_changed, not_a_number, division_by_zero, key_error,
  Line, labels, titles, need, table,
}

-- An entry of `progress`: its flag, and the hashes of its evidence by file name.
pub record Entry : Type 0 where
  pub valid : Bool
  pub evidence : List (String × String)

-- `campaign.json`, as it is read back
pub record Recorded : Type 0 where
  pub groups : List Spec
  pub progress : List (String × Entry)
  pub finished : Bool

-- What the report is made of: the recorded campaign, the present hash of a file, the directories of
-- the runs and the rows of a group, by its name.
pub record Sources : Type 0 where
  pub campaign : Recorded
  pub hash_of : String → String
  pub runs : String → Run → RunFiles
  pub rows : String → List Row

abbrev pub names_of : List (String × Entry) → List String
names_of = map (λ (e : String × Entry). e.0)

abbrev pub same_names : List String → List String → Bool
same_names xs ys = all_b (λ x. elem x ys) xs && all_b (λ y. elem y xs) ys

unfoldable pub check_evidence :
    (String → String) → List (String × String) → Result ReportError (Unit {0})
check_evidence hash_of [] = ok tt
check_evidence hash_of ((name, expected) ∷ files) = do
  raise_if (not (hash_of name == expected)) (evidence_changed name)
  check_evidence hash_of files

unfoldable pub check_entries :
    (String → String) → List (String × Entry) → Result ReportError (Unit {0})
unfolding check_evidence
check_entries hash_of [] = ok tt
check_entries hash_of ((name, entry) ∷ entries) = do
  check_evidence hash_of entry.evidence
  check_entries hash_of entries

-- The paragraph after the table of some groups.
pub data Remark : Type 0 where
  overload cold_start direct_origin : Remark

abbrev remarks : String → List Remark
remarks name =
    (if name == "offered-saturation" then overload ∷ [] else [])
    ++ ((if name == "origin-patterns" then cold_start ∷ [] else [])
        ++ (if name == "http-onepass" then direct_origin ∷ [] else []))

-- What follows the table: the notes of the validation, or that there are none.
pub data Notes : Type 0 where
  recorded : List (Run × Issue) → Notes
  all_passed : Bool → Notes

abbrev pub notes_of : Spec → Report → Notes
notes_of spec v =
    let notes = v.problems ++ (v.claim_limitations ++ v.observed) in
    if is_empty notes then all_passed (is_kv spec.kind && spec.headline) else recorded notes

pub record Section : Type 0 where
  pub title : String
  pub rows : ℕ
  pub expected : ℕ
  pub lines : List Line
  pub notes : Notes
  pub remarks : List Remark

-- A comparison of two engines of a group: their medians, the difference or the ratio, and which one
-- is higher.
pub record Comparison : Type 0 where
  pub group : String
  pub first : Cell
  pub second : Cell
  pub change : Cell
  pub is_higher : Bool

pub record Document : Type 0 where
  pub runs : ℕ
  pub groups : ℕ
  pub passed : Bool
  pub failed : ℕ
  pub limited : ℕ
  pub sections : List Section
  pub comparisons : List Comparison
  pub affected : Bool

abbrev pub select_engine : String → List Row → List Row
select_engine engine [] = []
select_engine engine (row ∷ rows) =
    let rest = select_engine engine rows in if row.engine == engine then row ∷ rest else rest

-- What of two medians is shown: how much the one is above or below the other in percent, or how many
-- times the other it is.
pub data Shape : Type 0 where
  difference ratio : Shape

abbrev change_of : Shape → ℕ → ℕ → Cell
change_of difference a b = percentage (round ((a - b + (b - a)) * 1000) b) 1
change_of ratio a b = decimal (round (a * 100) b) 2

-- The sources of a report and what a doubled median is divided by, for one list of definitions.
module _ (same_groups : List Spec → List Spec → Bool) (den : ℕ) (src : Sources) where
  abbrev pub validation : Spec → Report
  validation g = validate_group g (src.runs g.name)

  abbrev compared : String → Shape → Option ℕ → Option ℕ → Result ReportError Comparison
  compared group shape none b = err not_a_number
  compared group shape (some a) none = err not_a_number
  compared group shape (some a) (some b) = do
    raise_if (eqb b 0) division_by_zero
    ok (record {
      group = group;
      first = number den (some a) 0;
      second = number den (some b) 0;
      change = change_of shape a b;
      is_higher = ltb b a;
    })

  -- `result(name, engine, "objects_s")`
  abbrev rate : String → String → Option ℕ
  rate name engine = median (select_engine engine (src.rows name)) "objects_s"

  abbrev group_named : String → List Spec → Option Spec
  group_named name [] = none
  group_named name (g ∷ gs) =
      let rest = group_named name gs in if g.name == name then some g else rest

  abbrev if_qualified :
      String → Shape → String → String → Option Spec → Result ReportError (List Comparison)
  if_qualified name shape a b none = err (key_error name)
  if_qualified name shape a b (some g) =
      if (validation g).qualified
      then (do c ← compared name shape (rate name a) (rate name b); ok (c ∷ []))
      else ok []

  unfoldable pub comparisons : List Spec → Result ReportError (List Comparison)
  comparisons groups = do
    primary ← if_qualified "primary" difference "grpc" "redis" (group_named "primary" groups)
    hybrid ← if_qualified "hybrid" ratio "grpc_nvm" "grpc" (group_named "hybrid" groups)
    http_path ← if_qualified "http" difference "grpc_adapter" "nginx" (group_named "http" groups)
    ok (primary ++ (hybrid ++ http_path))

  unfoldable pub sections : List Spec → Result ReportError (List Section)
  sections [] = ok []
  sections (g ∷ gs) = do
    title ← need g.name (lookup g.name titles)
    lines ← table labels den g (src.rows g.name)
    rest ← sections gs
    ok (
        record {
          title = title;
          rows = length (src.rows g.name);
          expected = length (expected_runs g);
          lines = lines;
          notes = notes_of g (validation g);
          remarks = remarks g.name;
        }
        ∷ rest)

  abbrev pub counted : (Spec → Bool) → List Spec → ℕ
  counted p [] = 0
  counted p (g ∷ gs) = let rest = counted p gs in if p g then rest + 1 else rest

  abbrev pub failed_entries : List (String × Entry) → ℕ
  failed_entries [] = 0
  failed_entries ((name, e) ∷ es) =
      let rest = failed_entries es in if e.valid then rest else rest + 1

  -- `not failed and not problems`
  unfoldable pub all_passed_of : List Spec → Bool
  all_passed_of groups =
      all_b (λ (e : String × Entry). (e.1).valid) src.campaign.progress
      && all_b (λ g. is_empty (validation g).problems) groups

  unfoldable pub render : List Spec → Result ReportError Document
  unfolding comparisons sections
  render groups = do
    raise_if
        (not (same_groups src.campaign.groups groups)
          || (not (same_names (names_of src.campaign.progress) (map (λ (g : Spec). g.name) groups))
              || not src.campaign.finished))
        campaign_incomplete
    check_entries src.hash_of src.campaign.progress
    parts ← sections groups
    compared_groups ← comparisons groups
    ok (record {
      runs = sum (map (λ g. length (expected_runs g)) groups);
      groups = length groups;
      passed = all_passed_of groups;
      failed = failed_entries src.campaign.progress;
      limited = counted (λ g. not (is_empty (validation g).claim_limitations)) groups;
      sections = parts;
      comparisons = compared_groups;
      affected =
          not (all_passed_of groups)
          || not (eqb (counted (λ g. not (is_empty (validation g).claim_limitations)) groups) 0);
    })
