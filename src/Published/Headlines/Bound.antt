-- ===== src/Published/Headlines/Bound.antt =====
-- What the evidence says of a README that shows figures.
use cachelib_grpc_server.Common.{
  ℕ, zero, suc, ◌∙◌, String, ◌≡◌, refl, ap, Bool, true, false, not, Bool-cases, inl, inr, Option,
  none, some, List, [], ◌∷◌, is_empty, lookup, Result, ok, >>=-eq-ok, raise_if-eq-ok, Place, here,
  there, All, arith,
}
use cachelib_grpc_server.Campaign.Spec.{Spec, Run, expected_runs}
use cachelib_grpc_server.Campaign.Evidence.{RunFiles}
use cachelib_grpc_server.Campaign.Validate.{validate_group}
use cachelib_grpc_server.Campaign.Validate.Claims.{Qualifies, validate_group-qualified}
use cachelib_grpc_server.Published.Rows.{Row, number_at}
use cachelib_grpc_server.Published.Headlines.{
  Files, HeadlineError, headline_specs, limited, collect_medians, check_rows, check_full_hits,
  full_hit_names, is_full,
}
use cachelib_grpc_server.Published.Headlines.Figures.{
  Headlines, shown, withheld, Shown, supported, readme_headlines,
}

pub headline-Place :
    (groups : List Spec) {g : Spec}
    → Place g groups
    → g.headline ≡ true
    → Place g (headline_specs groups)
headline-Place [] m h = elim m [ ]
headline-Place (g ∷ gs) here h = rw h here
headline-Place (g ∷ gs) (there m) h =
    let rest = headline-Place gs m h in
    elim (Bool-cases g.headline) [ inl e ↦ rw e (there rest) | inr e ↦ rw e rest ]

pub limited-qualified :
    (runs : String → Run → RunFiles) (specs : List Spec) {g : Spec}
    → is_empty (limited runs specs) ≡ true
    → Place g specs
    → (validate_group g (runs g.name)).qualified ≡ true
limited-qualified runs [] h m = elim m [ ]
limited-qualified runs (g ∷ gs) h here = ground arith
limited-qualified runs (g ∷ gs) h (there m) =
    let rest = limited-qualified runs gs (ground arith) m in rest

shown-supported :
    (unit den : ℕ) (files : Files) (groups : List Spec) {s : Shown}
    → readme_headlines unit den files groups ≡ ok (shown s)
    → (is_empty (limited files.runs (headline_specs groups)) ≡ true)
      × (supported unit den files (headline_specs groups) ≡ ok (shown s))
unfolding readme_headlines
shown-supported unit den files groups {s} h =
    elim (Bool-cases (is_empty (limited files.runs (headline_specs groups)))) [
      | inl e ↦ (e, rw e at h)
      | inr e ↦ absurd (hidden (rw e at h))
    ]
  where
    hidden :
        {names : List String}
        → ◌≡◌ {A = Result HeadlineError Headlines} (ok (withheld names)) (ok (shown s))
        → ⊥
    hidden e = cc

-- Headlines with figures are shown only if every expected run of every headline group is accepted
-- and limits no claim.
pub shown-Qualifies :
    (unit den : ℕ) (files : Files) (groups : List Spec) {s : Shown} {g : Spec} {run : Run}
    → readme_headlines unit den files groups ≡ ok (shown s)
    → Place g groups
    → g.headline ≡ true
    → Place run (expected_runs g)
    → Qualifies g run (files.runs g.name run)
shown-Qualifies unit den files groups {s} {g} {run} h m t r =
    let (clear, out) = shown-supported unit den files groups h in
    (validate_group-qualified g (files.runs g.name)).0
      (limited-qualified files.runs (headline_specs groups) clear (headline-Place groups m t)) run r

-- A row of a run that never asked the origin.
abbrev pub IsFullHit : ℕ → Row → Type 0
IsFullHit unit row =
    (number_at (lookup "origins" row.cells) ≡ some 0)
    × (number_at (lookup "hit_ratio" row.cells) ≡ some unit)

not-false : (b : Bool) → not b ≡ false → b ≡ true
not-false true h = refl
not-false false h = cc

full-is_full :
    (unit : ℕ) (origins ratio : Option ℕ)
    → is_full unit origins ratio ≡ ok true
    → (origins ≡ some 0) × (ratio ≡ some unit)
full-is_full unit none ratio h = cc
full-is_full unit (some (suc n)) ratio h = cc
full-is_full unit (some zero) none h = cc
full-is_full unit (some zero) (some r) h = (refl, ap (λ k. some k) (ground (arith, full_of h)))
  where
    full_of : {b c : Bool} → ◌≡◌ {A = Result HeadlineError Bool} (ok b) (ok c) → b ≡ c
    full_of e = cc

check_rows-All :
    (unit : ℕ) (name : String) (rows : List Row)
    → check_rows unit name rows ≡ ok tt
    → All (IsFullHit unit) rows
unfolding check_rows
check_rows-All unit name [] h = tt
check_rows-All unit name (row ∷ rows) h =
    let (full, is, h1) = >>=-eq-ok (is_full unit _ _) _ h in
    let (passed, h2) = raise_if-eq-ok (not full) _ h1 in
    (
      full-is_full unit _ _ (is ∙ ap (λ b. ok b) (not-false full passed)),
      check_rows-All unit name rows h2,
    )

check_full_hits-All :
    (unit : ℕ) (files : Files) (names : List String)
    → check_full_hits unit files names ≡ ok tt
    → All (λ name. All (IsFullHit unit) (files.rows name)) names
unfolding check_full_hits
check_full_hits-All unit files [] h = tt
check_full_hits-All unit files (name ∷ names) h =
    let (u, rows, h1) = >>=-eq-ok (check_rows unit name (files.rows name)) _ h in
    (check_rows-All unit name (files.rows name) rows, check_full_hits-All unit files names h1)

-- Headlines with figures are shown only if no row of the four groups that are said to avoid the
-- origin has an origin request, and the hit ratio of each is one.
pub shown-IsFullHit :
    (unit den : ℕ) (files : Files) (groups : List Spec) {s : Shown}
    → readme_headlines unit den files groups ≡ ok (shown s)
    → All (λ name. All (IsFullHit unit) (files.rows name)) full_hit_names
unfolding supported
shown-IsFullHit unit den files groups h =
    let (clear, out) = shown-supported unit den files groups h in
    let (medians, m, h1) = >>=-eq-ok (collect_medians files [] (headline_specs groups)) _ out in
    let (u, checked, h2) = >>=-eq-ok (check_full_hits unit files full_hit_names) _ h1 in
    check_full_hits-All unit files full_hit_names checked
