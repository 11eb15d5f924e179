-- ===== src/Published/Headlines.antt =====
-- bench/strong/render_release_report.py: the headlines of the README (`readme_headlines`,
-- `measured_versions`). The text around the figures is the same in every document; what is modelled
-- is which figures it gets, and when there are none.
pub mod Figures
pub mod Bound
use cachelib_grpc_server.Common.{
  ℕ, zero, suc, ◌*◌, String, ◌==◌, Bool, true, false, not, ◌&&◌, ◌||◌, Option, none, some, List, [],
  ◌∷◌, map, concat_map, all_b, any_b, elem, eqb, ltb, is_empty, starts_with, after_first, prepend,
  lookup, insert, if◌then◌else◌, Result, ok, err, ◌>>=◌, ◌>>◌, raise_if,
}
use cachelib_grpc_server.Campaign.Spec.{Spec, Run}
use cachelib_grpc_server.Campaign.Evidence.{RunFiles}
use cachelib_grpc_server.Campaign.Validate.{validate_group}
use cachelib_grpc_server.Published.Rows.{Row, Cell, number, number_at}

-- The group of one workload and engine in a `summary.json`. Its medians are numerators.
pub record Group : Type 0 where
  pub n : ℕ
  pub errors : ℕ
  pub medians : List (String × ℕ)

pub record Summary : Type 0 where
  pub failed_runs : ℕ
  pub groups : List (String × Group)

-- The files that the headlines are made of, by the group's name, and `campaign["images"]`: by role,
-- what was asked for.
pub record Files : Type 0 where
  pub runs : String → Run → RunFiles
  pub summary : String → Summary
  pub rows : String → List Row
  pub requested : List (String × Option String)

pub data HeadlineError : Type 0 where
  incomplete_summary full_hit_unsupported : String → HeadlineError
  key_error : String → HeadlineError
  not_a_number no_device_reads : HeadlineError

abbrev version_of : Option String → Option String
version_of none = none
version_of (some requested) =
    if starts_with "sha256:" requested then none else after_first b':' requested

abbrev with_version : String → Option String → List (String × String) → List (String × String)
with_version role none versions = versions
with_version role (some version) versions = insert role version versions

abbrev pub measured_versions :
    List (String × String) → List (String × Option String) → List (String × String)
measured_versions versions [] = versions
measured_versions versions ((role, requested) ∷ images) =
    measured_versions (with_version role (version_of requested) versions) images

abbrev pub headline_specs : List Spec → List Spec
headline_specs [] = []
headline_specs (g ∷ gs) = let rest = headline_specs gs in if g.headline then g ∷ rest else rest

-- `limited`: the names of the groups that do not qualify
abbrev pub limited : (String → Run → RunFiles) → List Spec → List String
limited runs [] = []
limited runs (g ∷ gs) =
    let rest = limited runs gs in
    if (validate_group g (runs g.name)).qualified then rest else g.name ∷ rest

-- `f"{case}/{engine}"`
abbrev pub key_of : String → String → String
key_of case engine = prepend case (prepend "/" engine)

abbrev pub expected_keys : Spec → List String
expected_keys g = concat_map (λ case. map (key_of case) g.engines) g.cases

abbrev same_set : List String → List String → Bool
same_set xs ys = all_b (λ x. elem x ys) xs && all_b (λ y. elem y xs) ys

abbrev pub keys : List (String × Group) → List String
keys = map (λ (e : String × Group). e.0)

abbrev pub is_failed_group : ℕ → String × Group → Bool
is_failed_group reps e = not (eqb (e.1).n reps) || not (eqb (e.1).errors 0)

unfoldable pub is_incomplete : Spec → Summary → Bool
is_incomplete g s =
    not (eqb s.failed_runs 0)
    || (not (same_set (keys s.groups) (expected_keys g)) || any_b (is_failed_group g.reps) s.groups)

-- `groups[name][engine]`: the medians by engine
abbrev pub Medians : Type 0
Medians = List (String × List (String × ℕ))

abbrev pub need {ℓ} : {A : Type ℓ} → String → Option A → Result HeadlineError A
need key none = err (key_error key)
need key (some a) = ok a

abbrev first_case : List String → Result HeadlineError String
first_case [] = err (key_error "cases")
first_case (case ∷ cases) = ok case

unfoldable pub medians_of : Summary → String → List String → Result HeadlineError Medians
medians_of s case [] = ok []
medians_of s case (engine ∷ engines) = do
  g ← need (key_of case engine) (lookup (key_of case engine) s.groups)
  rest ← medians_of s case engines
  ok ((engine, g.medians) ∷ rest)

-- `groups`: of two definitions with one name the later counts
unfoldable pub collect_medians :
    Files → List (String × Medians) → List Spec → Result HeadlineError (List (String × Medians))
unfolding medians_of is_incomplete
collect_medians files so_far [] = ok so_far
collect_medians files so_far (g ∷ gs) = do
  raise_if (is_incomplete g (files.summary g.name)) (incomplete_summary g.name)
  case ← first_case g.cases
  medians ← medians_of (files.summary g.name) case g.engines
  collect_medians files (insert g.name medians so_far) gs

-- Whether a row is one of a full hit: `origins` is 0, and `hit_ratio`, in units, is 1.
abbrev pub is_full : ℕ → Option ℕ → Option ℕ → Result HeadlineError Bool
is_full unit none ratio = err not_a_number
is_full unit (some (suc n)) ratio = ok false
is_full unit (some zero) none = err not_a_number
is_full unit (some zero) (some ratio) = ok (eqb ratio unit)

unfoldable pub check_rows : ℕ → String → List Row → Result HeadlineError (Unit {0})
check_rows unit name [] = ok tt
check_rows unit name (row ∷ rows) = do
  full ←
      is_full unit (number_at (lookup "origins" row.cells))
        (number_at (lookup "hit_ratio" row.cells))
  raise_if (not full) (full_hit_unsupported name)
  check_rows unit name rows

abbrev pub full_hit_names : List String
full_hit_names = "primary" ∷ "ram192" ∷ "flash384" ∷ "http" ∷ []

unfoldable pub check_full_hits : ℕ → Files → List String → Result HeadlineError (Unit {0})
unfolding check_rows
check_full_hits unit files [] = ok tt
check_full_hits unit files (name ∷ names) = do
  check_rows unit name (files.rows name)
  check_full_hits unit files names
