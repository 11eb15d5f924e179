-- ===== src/Published/Landscape/Headlines.antt =====
-- bench/strong/render_landscape_report.py: the block of the README (`readme_headlines`). The text
-- around the figures is the same in every document; what is modelled is which figures it gets.
use cachelib_grpc_server.Common.{
  ℕ, String, Option, none, some, List, [], ◌∷◌, map, elem, is_empty, lookup, if◌then◌else◌, Result,
  ok, ◌>>=◌,
}
use cachelib_grpc_server.Campaign.Spec.{Spec, Run}
use cachelib_grpc_server.Campaign.Evidence.{RunFiles}
use cachelib_grpc_server.Published.Rows.{Row, Cell, median, number, percent}
use cachelib_grpc_server.Published.Ranking.{
  Ranked, Sentence, ranking, median_in, value_of, comparison_sentence,
}
use cachelib_grpc_server.Published.Headlines.{headline_specs, limited}
use cachelib_grpc_server.Published.Render.{select_engine}
use cachelib_grpc_server.Published.Landscape.{labels, LandscapeError, sentenced, need, first, named}

-- A line of the table of all-RAM hits, and of the table of the reusable set.
pub record HitLine : Type 0 where
  pub label : String
  pub requests_s : Cell
  pub p99 : Cell

pub record SetLine : Type 0 where
  pub label : String
  pub objects_s : Cell
  pub hit_ratio : Cell
  pub origins : Cell

pub record Figures : Type 0 where
  pub hits : List HitLine
  pub sets : List SetLine
  pub navy_origins : Cell
  pub navy_hit_ratio : Cell
  -- written without digits after the point, as are the medians of the sentence
  pub navy_rate : ℕ
  pub dram_rate : ℕ
  pub leader : String
  pub leader_label : String
  pub leader_rate : ℕ
  pub own_parity_rate : Cell
  pub sentence : Option Sentence

pub data Headlines : Type 0 where
  withheld : List String → Headlines
  shown : Figures → Headlines

-- `groups` are those with headlines, `rows_of` what their files have, and `den` what a doubled
-- median is divided by.
module _ (den : ℕ) (rows_of : String → List Row) (groups : List Spec) where
  -- `rows[name]`
  abbrev pub rows_in : String → Result LandscapeError (List Row)
  rows_in name =
      need name
        (if elem name (map (λ (g : Spec). g.name) groups) then some (rows_of name) else none)

  unfoldable pub order : List Spec → String → Result LandscapeError (List Ranked)
  order all name = do
    spec ← named name all
    rows ← rows_in name
    case ← first spec.cases
    ok (ranking rows "objects_s" case spec.engines)

  abbrev pub line : List Spec → String → String → String → ℕ → Result LandscapeError Cell
  line all name engine field places = do
    spec ← named name all
    rows ← rows_in name
    case ← first spec.cases
    ok (number den (median_in rows field case engine) places)

  unfoldable pub hit_lines : List Spec → List Ranked → Result LandscapeError (List HitLine)
  hit_lines all [] = ok []
  hit_lines all ((engine, value) ∷ rest) = do
    label ← need engine (lookup engine labels)
    p99 ← line all "primary" engine "p99_ms" 3
    lines ← hit_lines all rest
    ok (record { label = label; requests_s = number den (some value) 0; p99 = p99 } ∷ lines)

  -- The hit ratio is over the rows of every case.
  abbrev pub hit_ratio_of : String → Result LandscapeError Cell
  hit_ratio_of engine = do
    rows ← rows_in "hybrid"
    ok (percent den (median (select_engine engine rows) "hit_ratio"))

  unfoldable pub set_lines : List Spec → List Ranked → Result LandscapeError (List SetLine)
  set_lines all [] = ok []
  set_lines all ((engine, value) ∷ rest) = do
    label ← need engine (lookup engine labels)
    objects_s ← line all "hybrid" engine "objects_s" 0
    hit_ratio ← hit_ratio_of engine
    origins ← line all "hybrid" engine "origins" 0
    lines ← set_lines all rest
    ok (
        record { label = label; objects_s = objects_s; hit_ratio = hit_ratio; origins = origins }
        ∷ lines)

  abbrev pub headline_sentence : List Spec → Result LandscapeError (Option Sentence)
  headline_sentence all = do
    rows ← rows_in "primary"
    spec ← named "primary" all
    case ← first spec.cases
    sentenced (comparison_sentence rows case spec.engines "grpc" "objects_s")

  -- The figures once every group qualifies.
  unfoldable pub figures : List Spec → Result LandscapeError Figures
  unfolding hit_lines set_lines order
  figures all = do
    primary ← order all "primary"
    hybrid ← order all "hybrid"
    parity ← order all "parity1g-hit"
    hits ← hit_lines all primary
    sets ← set_lines all hybrid
    navy_origins ← line all "hybrid" "grpc_nvm" "origins" 0
    navy_hit_ratio ← hit_ratio_of "grpc_nvm"
    navy_rate ← need "grpc_nvm" (value_of hybrid "grpc_nvm")
    dram_rate ← need "grpc" (value_of hybrid "grpc")
    leader ← first parity
    leader_label ← need leader.0 (lookup leader.0 labels)
    own ← line all "parity1g-hit" "grpc" "objects_s" 0
    sentence ← headline_sentence all
    ok (record {
      hits = hits;
      sets = sets;
      navy_origins = navy_origins;
      navy_hit_ratio = navy_hit_ratio;
      navy_rate = navy_rate;
      dram_rate = dram_rate;
      leader = leader.0;
      leader_label = leader_label;
      leader_rate = leader.1;
      own_parity_rate = own;
      sentence = sentence;
    })

unfoldable pub readme_headlines :
    ℕ
    → (String → Run → RunFiles)
    → (String → List Row)
    → List Spec
    → Result LandscapeError Headlines
unfolding figures
readme_headlines den runs rows_of groups =
    let specs = headline_specs groups in
    let out = (do f ← figures den rows_of specs groups; ok (shown f)) in
    if is_empty (limited runs specs) then out else ok (withheld (limited runs specs))
