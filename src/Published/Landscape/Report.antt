-- ===== src/Published/Landscape/Report.antt =====
-- bench/strong/render_landscape_report.py: the report of the landscape campaign (`render`). A report
-- is what its sentences and tables say; the text that is the same in every report is left out.
use cachelib_grpc_server.Common.{
  ℕ, String, ◌==◌, Bool, not, ◌||◌, Option, List, [], ◌∷◌, ◌++◌, map, length, concat_map, is_empty,
  eqb, lookup, if◌then◌else◌, Result, ok, ◌>>=◌, ◌>>◌, raise_if,
}
use cachelib_grpc_server.Campaign.Spec.{Spec, sum, expected_runs}
use cachelib_grpc_server.Published.Rows.{Row}
use cachelib_grpc_server.Published.Ranking.{Ranked, ranking}
use cachelib_grpc_server.Published.Cells.{Line, campaign_incomplete, engine_lines}
use cachelib_grpc_server.Published.Render.{
  Sources, Notes, notes_of, names_of, same_names, check_entries, validation, counted,
  failed_entries, all_passed_of,
}
use cachelib_grpc_server.Published.Landscape.{
  labels, titles, version_of, LandscapeError, of_report, reported, need,
}
use cachelib_grpc_server.Published.Landscape.Leads.{Lead, lead_groups, leads_of, file_tier}

-- The paragraph after the table of some groups.
pub data Remark : Type 0 where
  equal_budget over_capacity offered_volume overload cold_start direct_origin : Remark

abbrev remark_on : String → String → Remark → List Remark
remark_on name about remark = if name == about then remark ∷ [] else []

abbrev remarks : String → List Remark
remarks name =
    remark_on name "parity1g-hit" equal_budget
    ++ (remark_on name "ssd-overcapacity" over_capacity
        ++ (remark_on name "ssd-offered" offered_volume
            ++ (remark_on name "offered-saturation" overload
                ++ (remark_on name "origin-patterns" cold_start
                    ++ remark_on name "http-onepass" direct_origin))))

pub record Section : Type 0 where
  pub title : String
  pub reps : ℕ
  pub seconds : ℕ
  pub rows : ℕ
  pub expected : ℕ
  pub lines : List Line
  pub notes : Notes
  pub remarks : List Remark

-- A line of the table of builds: the role, its version and the identity of its image.
pub record Build : Type 0 where
  pub role : String
  pub version : Option String
  pub image : String

pub record Document : Type 0 where
  pub runs : ℕ
  pub groups : ℕ
  pub configurations : ℕ
  pub passed : Bool
  pub failed : ℕ
  pub limited : ℕ
  pub builds : List Build
  pub sections : List Section
  pub leads : List Lead
  pub file_tier : Option Ranked
  pub affected : Bool

abbrev without : String → List String → List String
without engine [] = []
without engine (e ∷ es) = let rest = without engine es in if e == engine then rest else e ∷ rest

-- `sorted(set(engines), key=engines.index)`
abbrev pub measured : List String → List String
measured [] = []
measured (e ∷ es) = e ∷ without e (measured es)

abbrev build_of : String × String → Build
build_of (role, image) = record { role = role; version = version_of role; image = image }

-- `ranking(...) or [(e, None) for e in spec["engines"]]`
abbrev pub shown_engines : List Ranked → List String → List String
shown_engines [] engines = engines
shown_engines (p ∷ ps) engines = map (λ (q : Ranked). q.0) (p ∷ ps)

module _ (den : ℕ) where
  unfoldable pub case_lines :
      List Row → List String → List String → Result LandscapeError (List Line)
  case_lines rows engines [] = ok []
  case_lines rows engines (case ∷ cases) = do
    lines ← reported (
        engine_lines labels den rows case
          (shown_engines (ranking rows "objects_s" case engines) engines))
    rest ← case_lines rows engines cases
    ok (lines ++ rest)

-- The sources of a report, the images of the campaign by role, and what a doubled median is divided
-- by, for one list of definitions.
module _ (same_groups : List Spec → List Spec → Bool) (den : ℕ) (src : Sources)
    (images : List (String × String)) where
  unfoldable pub sections : List Spec → Result LandscapeError (List Section)
  unfolding case_lines
  sections [] = ok []
  sections (g ∷ gs) = do
    title ← need g.name (lookup g.name titles)
    lines ← case_lines den (src.rows g.name) g.engines g.cases
    rest ← sections gs
    ok (
        record {
          title = title;
          reps = g.reps;
          seconds = g.seconds;
          rows = length (src.rows g.name);
          expected = length (expected_runs g);
          lines = lines;
          notes = notes_of g (validation same_groups den src g);
          remarks = remarks g.name;
        }
        ∷ rest)

  abbrev limited_groups : List Spec → ℕ
  limited_groups groups =
      counted same_groups den src
        (λ g. not (is_empty (validation same_groups den src g).claim_limitations)) groups

  unfoldable pub render : List Spec → Result LandscapeError Document
  unfolding sections leads_of file_tier
  render groups = do
    raise_if
        (not (same_groups src.campaign.groups groups)
          || (not (same_names (names_of src.campaign.progress) (map (λ (g : Spec). g.name) groups))
              || not src.campaign.finished))
        (of_report campaign_incomplete)
    reported (check_entries src.hash_of src.campaign.progress)
    parts ← sections groups
    leads ← leads_of src.runs src.rows groups lead_groups
    best ← file_tier src.runs src.rows groups
    ok (record {
      runs = sum (map (λ g. length (expected_runs g)) groups);
      groups = length groups;
      configurations = length (measured (concat_map (λ (g : Spec). g.engines) groups));
      passed = all_passed_of same_groups den src groups;
      failed = failed_entries same_groups den src src.campaign.progress;
      limited = limited_groups groups;
      builds = map build_of images;
      sections = parts;
      leads = leads;
      file_tier = best;
      affected =
          not (all_passed_of same_groups den src groups) || not (eqb (limited_groups groups) 0);
    })
