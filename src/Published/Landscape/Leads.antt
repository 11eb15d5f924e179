-- ===== src/Published/Landscape/Leads.antt =====
-- bench/strong/render_landscape_report.py: the sentences of the report on who leads (the end of
-- `render`). A sentence is about a qualified group alone.
use cachelib_grpc_server.Common.{
  String, ◌==◌, Bool, Option, none, some, List, [], ◌∷◌, ◌++◌, elem, ltb, is_some, lookup,
  if◌then◌else◌, Result, ok, ◌>>=◌,
}
use cachelib_grpc_server.Campaign.Spec.{Spec, Run}
use cachelib_grpc_server.Campaign.Evidence.{RunFiles}
use cachelib_grpc_server.Campaign.Validate.{validate_group}
use cachelib_grpc_server.Published.Rows.{Row}
use cachelib_grpc_server.Published.Ranking.{
  Ranked, Sentence, ranking, value_of, with_median, comparison_sentence,
}
use cachelib_grpc_server.Published.Landscape.{titles, LandscapeError, sentenced, need, first, named}

pub data Lead : Type 0 where
  withheld : String → Lead
  leads : String → Sentence → Lead

abbrev pub lead_groups : List String
lead_groups =
    "primary" ∷ "parity1g-hit" ∷ "hybrid" ∷ "ssd-highvolume" ∷ "ssd-overcapacity"
    ∷ "ssd-small-objects" ∷ "ssd-offered" ∷ "ssd-sustained" ∷ "offered" ∷ "parity1g-origin"
    ∷ "flash384" ∷ []

-- `"grpc_nvm" if "grpc_nvm" in spec["engines"] else "grpc"`
abbrev pub subject_of : Spec → String
subject_of g = if elem "grpc_nvm" g.engines then "grpc_nvm" else "grpc"

abbrev pub titled : String → Option Sentence → Result LandscapeError (List Lead)
titled name none = ok []
titled name (some s) = do title ← need name (lookup name titles); ok (leads title s ∷ [])

-- `max(pairs, key=...)`: the first of those with the highest value
abbrev pub max_of : Ranked → List Ranked → Ranked
max_of best [] = best
max_of best (p ∷ ps) = max_of (if ltb best.1 p.1 then p else best) ps

abbrev pub best_of : List Ranked → Option Ranked
best_of [] = none
best_of (p ∷ ps) = some (max_of p ps)

abbrev pub dram_engines : List String
dram_engines = "grpc" ∷ "redis" ∷ "valkey" ∷ "memcached" ∷ "garnet" ∷ []

-- The engines of a list that have a value, with it.
abbrev pub valued : List Ranked → List String → List Ranked
valued ps [] = []
valued ps (engine ∷ engines) = with_median engine (value_of ps engine) (valued ps engines)

abbrev group_called : String → List Spec → Option Spec
group_called name [] = none
group_called name (g ∷ gs) =
    let rest = group_called name gs in if g.name == name then some g else rest

module _ (runs : String → Run → RunFiles) (rows_of : String → List Row) (groups : List Spec) where
  abbrev pub is_qualified : Spec → Bool
  is_qualified g = (validate_group g (runs g.name)).qualified

  abbrev pub sentence_about : Spec → Result LandscapeError (Option Sentence)
  sentence_about g = do
    case ← first g.cases
    sentenced (comparison_sentence (rows_of g.name) case g.engines (subject_of g) "objects_s")

  abbrev pub lead_on : String → Spec → Result LandscapeError (List Lead)
  lead_on name g = do sentence ← sentence_about g; titled name sentence

  unfoldable pub leads_of : List String → Result LandscapeError (List Lead)
  leads_of [] = ok []
  leads_of (name ∷ names) = do
    g ← named name groups
    lead ← if is_qualified g then lead_on name g else ok (withheld name ∷ [])
    rest ← leads_of names
    ok (lead ++ rest)

  abbrev pub best_dram : List Ranked → Option Ranked
  best_dram hybrid =
      if is_some (value_of hybrid "grpc_nvm") then best_of (valued hybrid dram_engines) else none

  abbrev compared : Spec → Result LandscapeError (Option Ranked)
  compared g = do
    case ← first g.cases
    ok (best_dram (ranking (rows_of g.name) "objects_s" case g.engines))

  -- The best engine without a file that the group of the file tiers is compared with.
  unfoldable pub file_tier : Result LandscapeError (Option Ranked)
  file_tier = do
    g ← need "hybrid" (group_called "hybrid" groups)
    if is_qualified g then compared g else ok none
