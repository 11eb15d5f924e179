-- ===== src/Published/Ranking.antt =====
-- bench/strong/render_landscape_report.py: the order of the engines of a group (`ranking`, `place`),
-- and the sentence about it (`comparison_sentence`).
pub mod Order
pub mod Leader
use cachelib_grpc_server.Common.{
  ℕ, suc, ◌+◌, String, ◌==◌, Bool, true, false, Option, none, some, List, [], ◌∷◌, eqb, leb, length,
  if◌then◌else◌, Result, ok, err,
}
use cachelib_grpc_server.Published.Rows.{Row, median, select}

-- An engine with the median of its runs.
abbrev pub Ranked : Type 0
Ranked = String × ℕ

abbrev pub placed_before : Ranked → List Ranked → List Ranked
placed_before p [] = p ∷ []
placed_before p (q ∷ qs) =
    let rest = placed_before p qs in if leb q.1 p.1 then p ∷ q ∷ qs else q ∷ rest

-- `sorted(pairs, key=lambda pair: -pair[1])`: of equal values the earlier engine comes first
abbrev pub descending : List Ranked → List Ranked
descending [] = []
descending (p ∷ ps) = placed_before p (descending ps)

abbrev pub with_median : String → Option ℕ → List Ranked → List Ranked
with_median engine none ps = ps
with_median engine (some v) ps = (engine, v) ∷ ps

module _ (rows : List Row) (field : String) where
  abbrev pub median_in : String → String → Option ℕ
  median_in case engine = median (select case engine rows) field

  abbrev pub medians : String → List String → List Ranked
  medians case [] = []
  medians case (engine ∷ engines) =
      with_median engine (median_in case engine) (medians case engines)

  unfoldable pub ranking : String → List String → List Ranked
  ranking case engines = descending (medians case engines)

-- `names.index(engine) + 1 if engine in names else None`
abbrev next_place : Option ℕ → Option ℕ
next_place none = none
next_place (some n) = some (suc n)

abbrev pub place : List Ranked → String → Option ℕ
place [] engine = none
place (p ∷ ps) engine =
    let rest = next_place (place ps engine) in if p.0 == engine then some 1 else rest

-- `dict(order)[engine]`: the last of the pairs counts
abbrev pub else_here : Ranked → String → Option ℕ → Option ℕ
else_here p engine (some v) = some v
else_here p engine none = if p.0 == engine then some p.1 else none

abbrev pub value_of : List Ranked → String → Option ℕ
value_of [] engine = none
value_of (p ∷ ps) engine = else_here p engine (value_of ps engine)

-- The numbers and names of the sentence. The ratio that it names is that of `own` and the rival's.
pub record Sentence : Type 0 where
  pub subject : String
  pub position : ℕ
  pub total : ℕ
  pub own : ℕ
  pub rival : String
  pub rival_median : ℕ

pub data SentenceError : Type 0 where
  index_error division_by_zero key_error : SentenceError

-- The sentence names the next engine if the subject leads, and the leader if it does not.
abbrev pub said : String → ℕ → ℕ → ℕ → Ranked → Sentence
said subject position total own rival = record {
  subject = subject;
  position = position;
  total = total;
  own = own;
  rival = rival.0;
  rival_median = rival.1;
}

abbrev pub divided : ℕ → Sentence → Result SentenceError (Option Sentence)
divided by s = if eqb by 0 then err division_by_zero else ok (some s)

-- `order[1]`, for the subject that leads
abbrev pub next_engine : String → ℕ → ℕ → List Ranked → Result SentenceError (Option Sentence)
next_engine subject total own [] = err index_error
next_engine subject total own (second ∷ rest) = divided second.1 (said subject 1 total own second)

abbrev pub sentence_of :
    String → ℕ → ℕ → Option ℕ → Ranked → List Ranked → Result SentenceError (Option Sentence)
sentence_of subject position total none best rest = err key_error
sentence_of subject position total (some own) best rest =
    if eqb position 1
    then next_engine subject total own rest
    else divided own (said subject position total own best)

abbrev pub about_place :
    String → Option ℕ → Ranked → List Ranked → Result SentenceError (Option Sentence)
about_place subject none best rest = ok none
about_place subject (some position) best rest =
    sentence_of subject position (length (best ∷ rest)) (value_of (best ∷ rest) subject) best rest

abbrev pub about_order : String → List Ranked → Result SentenceError (Option Sentence)
about_order subject [] = ok none
about_order subject (best ∷ rest) = about_place subject (place (best ∷ rest) subject) best rest

unfoldable pub comparison_sentence :
    List Row → String → List String → String → String → Result SentenceError (Option Sentence)
comparison_sentence rows case engines subject field =
    about_order subject (ranking rows field case engines)
