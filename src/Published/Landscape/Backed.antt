-- ===== src/Published/Landscape/Backed.antt =====
-- The report that is rendered, and the block of the README with figures.
use native.Mathlib.Nat.{le_refl}
use cachelib_grpc_server.Common.{
  ℕ, String, ◌≡◌, refl, ap, sym, ◌∙◌, subst, Bool, true, Bool-cases, inl, inr, some, List, [], ◌∷◌,
  is_empty, elem, map, lookup, Result, ok, err, >>=-eq-ok, raise_if-eq-ok, ok_injective, Place, All,
}
use cachelib_grpc_server.Campaign.Spec.{Spec, Run}
use cachelib_grpc_server.Campaign.Evidence.{RunFiles}
use cachelib_grpc_server.Campaign.Validate.Claims.{validate_group-qualified}
use cachelib_grpc_server.Published.Rows.{Row}
use cachelib_grpc_server.Published.Ranking.{Ranked, ranking, median_in, value_of}
use cachelib_grpc_server.Published.Ranking.Order.{
  AtMost, HasMedian, IsDescending, ranking-HasMedian, ranking-IsDescending, value_of-HasMedian,
}
use cachelib_grpc_server.Published.Headlines.{headline_specs, limited}
use cachelib_grpc_server.Published.Headlines.Bound.{headline-Place, limited-qualified}
use cachelib_grpc_server.Published.Render.{Sources, check_entries}
use cachelib_grpc_server.Published.Landscape.{labels, LandscapeError, reported, need, named, first}
use cachelib_grpc_server.Published.Landscape.Headlines.{
  Figures, Headlines, shown, withheld, rows_in, order, line, hit_lines, hit_ratio_of, set_lines,
  figures, headline_sentence, readme_headlines,
}
use cachelib_grpc_server.Published.Landscape.Leads.{lead_groups, leads_of, file_tier}
use cachelib_grpc_server.Published.Landscape.Report.{Document, sections, render}
use cachelib_grpc_server.Published.Landscape.Claims.{
  named-Place, need-ok, AllQualify, IsEarned, leads_of-IsEarned,
}

module _ (same_groups : List Spec → List Spec → Bool) (den : ℕ) (src : Sources)
    (images : List (String × String)) where
  -- A report of the landscape campaign that is rendered has a sentence on who leads only for a group
  -- of the campaign all of whose expected runs are accepted and limit no claim, under that group's
  -- title. The sentence has the subject's place in the order by falling medians of the engines that
  -- have one, how many they are, the subject's median, and the name and median of the next engine if
  -- the subject is the first, and of the first engine if it is not. The groups that the report says
  -- are withheld are ones with a run that is not accepted or limits a claim.
  pub leads-IsEarned :
      (groups : List Spec) {d : Document}
      → render same_groups den src images groups ≡ ok d
      → All (IsEarned src.runs src.rows groups) d.leads
  unfolding render
  leads-IsEarned groups {d} h =
      let (complete, h1) = raise_if-eq-ok _ _ h in
      let (u, files, h2) =
        >>=-eq-ok (reported (check_entries src.hash_of src.campaign.progress)) _ h1 in
      let (parts, p, h3) = >>=-eq-ok (sections same_groups den src images groups) _ h2 in
      let (ls, l, h4) = >>=-eq-ok (leads_of src.runs src.rows groups lead_groups) _ h3 in
      let (best, b, h5) = >>=-eq-ok (file_tier src.runs src.rows groups) _ h4 in
      subst (All (IsEarned src.runs src.rows groups))
        (ap (λ (d : Document). d.leads) (ok_injective h5))
        (leads_of-IsEarned src.runs src.rows groups lead_groups l)

-- The rows of a group of the headlines, its first case, and the order of its engines.
abbrev pub OrderOf : (String → List Row) → List Spec → String → List Ranked → Type 0
OrderOf rows_of groups name ps =
    (g : Spec) × (case : String) × Place g groups
    × (g.name ≡ name)
    × (first g.cases ≡ ok case)
    × (ps ≡ ranking (rows_of name) "objects_s" case g.engines)

-- The first of an order, with the median that no other exceeds.
abbrev pub Leads : String → ℕ → List Ranked → Type 0
Leads engine rate ps = (rest : List Ranked) × (ps ≡ (engine, rate) ∷ rest) × All (AtMost rate) ps

module _ (den : ℕ) (rows_of : String → List Row) (specs : List Spec) where
  rows_in-ok :
      (name : String) {rows : List Row}
      → rows_in den rows_of specs name ≡ ok rows
      → rows_of name ≡ rows
  rows_in-ok name h = elim (Bool-cases (elem name (map (λ (g : Spec). g.name) specs))) [
    | inl e ↦ ok_injective (rw e at h)
    | inr e ↦ absurd (missing (rw e at h))
  ]
    where
      missing :
          {e : LandscapeError} {rows : List Row}
          → ◌≡◌ {A = Result LandscapeError (List Row)} (err e) (ok rows)
          → ⊥
      missing e = cc

  order-OrderOf :
      (groups : List Spec) (name : String) {ps : List Ranked}
      → order den rows_of specs groups name ≡ ok ps
      → OrderOf rows_of groups name ps
  unfolding order
  order-OrderOf groups name h =
      let (g, n, h1) = >>=-eq-ok (named name groups) _ h in
      let (rows, r, h2) = >>=-eq-ok (rows_in den rows_of specs name) _ h1 in
      let (case, c, h3) = >>=-eq-ok (first g.cases) _ h2 in
      let (m, same) = named-Place name groups n in
      (
        g,
        case,
        m,
        same,
        c,
        sym (ok_injective h3)
            ∙ sym (ap (λ rows. ranking rows "objects_s" case g.engines) (rows_in-ok name r)),
      )

first-Leads :
    (rows_of : String → List Row) (groups : List Spec) (name : String) (ps : List Ranked)
    {p : Ranked}
    → OrderOf rows_of groups name ps
    → first ps ≡ ok p
    → Leads p.0 p.1 ps
first-Leads rows_of groups name [] o h = cc
first-Leads rows_of groups name (q ∷ qs) {p} (g, case, m, n, c, e) h =
    let d : IsDescending (q ∷ qs) =
      subst IsDescending (sym e) (ranking-IsDescending (rows_of name) "objects_s" case g.engines) in
    subst (λ (p : Ranked). Leads p.0 p.1 (q ∷ qs)) (ok_injective h) (qs, refl, (le_refl _, d.0))

-- The medians of two engines, in the order of a group.
abbrev pub HasRates : (String → List Row) → List Spec → String → List (String × ℕ) → Type 0
HasRates rows_of groups name rates =
    (g : Spec) × (case : String) × Place g groups
    × (g.name ≡ name)
    × (first g.cases ≡ ok case)
    × All (HasMedian (median_in (rows_of name) "objects_s" case)) rates

order-HasRates :
    (rows_of : String → List Row) (groups : List Spec) (name a b : String) (ps : List Ranked)
    {v w : ℕ}
    → OrderOf rows_of groups name ps
    → value_of ps a ≡ some v
    → value_of ps b ≡ some w
    → HasRates rows_of groups name ((a, v) ∷ (b, w) ∷ [])
order-HasRates rows_of groups name a b ps (g, case, m, n, c, e) va vb =
    let medians : All (HasMedian (median_in (rows_of name) "objects_s" case)) ps =
      subst (All _) (sym e) (ranking-HasMedian (rows_of name) "objects_s" case g.engines) in
    (
      g,
      case,
      m,
      n,
      c,
      (value_of-HasMedian _ ps a medians va, (value_of-HasMedian _ ps b medians vb, tt)),
    )

-- What the figures of the README say of the rows.
abbrev pub AreTrue : (String → List Row) → List Spec → Figures → Type 0
AreTrue rows_of groups f =
    ((ps : List Ranked) × OrderOf rows_of groups "parity1g-hit" ps
      × Leads f.leader f.leader_rate ps)
    × HasRates rows_of groups "hybrid" (("grpc_nvm", f.navy_rate) ∷ ("grpc", f.dram_rate) ∷ [])

module _ (den : ℕ) (rows_of : String → List Row) (specs groups : List Spec) where
  figures-AreTrue :
      {f : Figures} → figures den rows_of specs groups ≡ ok f → AreTrue rows_of groups f
  unfolding figures
  figures-AreTrue h =
      let (primary, o1, h1) = >>=-eq-ok (order den rows_of specs groups "primary") _ h in
      let (hybrid, o2, h2) = >>=-eq-ok (order den rows_of specs groups "hybrid") _ h1 in
      let (parity, o3, h3) = >>=-eq-ok (order den rows_of specs groups "parity1g-hit") _ h2 in
      let (hits, e4, h4) = >>=-eq-ok (hit_lines den rows_of specs groups primary) _ h3 in
      let (sets, e5, h5) = >>=-eq-ok (set_lines den rows_of specs groups hybrid) _ h4 in
      let (origins, e6, h6) =
        >>=-eq-ok (line den rows_of specs groups "hybrid" "grpc_nvm" "origins" 0) _ h5 in
      let (ratio, e7, h7) = >>=-eq-ok (hit_ratio_of den rows_of specs "grpc_nvm") _ h6 in
      let (navy, e8, h8) = >>=-eq-ok (need "grpc_nvm" (value_of hybrid "grpc_nvm")) _ h7 in
      let (dram, e9, h9) = >>=-eq-ok (need "grpc" (value_of hybrid "grpc")) _ h8 in
      let (leader, e10, h10) = >>=-eq-ok (first parity) _ h9 in
      let (label, e11, h11) = >>=-eq-ok (need leader.0 (lookup leader.0 labels)) _ h10 in
      let (own, e12, h12) =
        >>=-eq-ok (line den rows_of specs groups "parity1g-hit" "grpc" "objects_s" 0) _ h11 in
      let (sentence, e13, h13) = >>=-eq-ok (headline_sentence den rows_of specs groups) _ h12 in
      let hybrid_order = order-OrderOf den rows_of specs groups "hybrid" o2 in
      let parity_order = order-OrderOf den rows_of specs groups "parity1g-hit" o3 in
      subst (AreTrue rows_of groups) (ok_injective h13) (
        (parity, parity_order, first-Leads rows_of groups "parity1g-hit" parity parity_order e10),
        order-HasRates rows_of groups "hybrid" "grpc_nvm" "grpc" hybrid hybrid_order
            (need-ok "grpc_nvm" _ e8) (need-ok "grpc" _ e9),
      )

shown-figures :
    (den : ℕ) (runs : String → Run → RunFiles) (rows_of : String → List Row) (groups : List Spec)
    {f : Figures}
    → readme_headlines den runs rows_of groups ≡ ok (shown f)
    → (is_empty (limited runs (headline_specs groups)) ≡ true)
      × (figures den rows_of (headline_specs groups) groups ≡ ok f)
unfolding readme_headlines
shown-figures den runs rows_of groups {f} h =
    elim (Bool-cases (is_empty (limited runs (headline_specs groups)))) [
      | inl e ↦
          let (g, made, same) =
            >>=-eq-ok (figures den rows_of (headline_specs groups) groups) _ (rw e at h) in
          (e, made ∙ ap (λ g. ok g) (shown_injective (ok_injective same)))
      | inr e ↦ absurd (hidden (rw e at h))
    ]
  where
    shown_injective : {g : Figures} → shown g ≡ shown f → g ≡ f
    shown_injective e = cc

    hidden :
        {names : List String}
        → ◌≡◌ {A = Result LandscapeError Headlines} (ok (withheld names)) (ok (shown f))
        → ⊥
    hidden e = cc

-- The README shows figures of the landscape only if every expected run of every headline group is
-- accepted and limits no claim. The leader that it names at the equal budget then has the highest
-- median of that group's order, and its two rates of the reusable set are the medians of CacheLib
-- with a file and without.
pub shown-AreTrue :
    (den : ℕ) (runs : String → Run → RunFiles) (rows_of : String → List Row) (groups : List Spec)
    {f : Figures}
    → readme_headlines den runs rows_of groups ≡ ok (shown f)
    → ((g : Spec) → Place g groups → g.headline ≡ true → AllQualify runs rows_of groups g)
      × AreTrue rows_of groups f
shown-AreTrue den runs rows_of groups h =
    let (clear, made) = shown-figures den runs rows_of groups h in
    (
      λ g m t.
          (validate_group-qualified g (runs g.name)).0
            (limited-qualified runs (headline_specs groups) clear (headline-Place groups m t)),
      figures-AreTrue den rows_of (headline_specs groups) groups made,
    )
