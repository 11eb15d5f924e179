-- ===== src/Published/Landscape/Claims.antt =====
-- What the evidence says of the report and of the block of the README.
use cachelib_grpc_server.Common.{
  String, ◌==◌, eq_iff, ◌≡◌, ap, subst, Bool-cases, inl, inr, Option, none, some, List, [], ◌∷◌,
  lookup, if◌then◌else◌, Result, ok, err, >>=-eq-ok, ok_injective, Place, here, there, All,
  All-append, arith,
}
use cachelib_grpc_server.Campaign.Spec.{Spec, Run, expected_runs}
use cachelib_grpc_server.Campaign.Evidence.{RunFiles}
use cachelib_grpc_server.Campaign.Validate.Claims.{Qualifies, validate_group-qualified}
use cachelib_grpc_server.Published.Rows.{Row}
use mathlib.Core.List.{Perm}
use cachelib_grpc_server.Published.Ranking.{Sentence, SentenceError, ranking, median_in, medians}
use cachelib_grpc_server.Published.Ranking.Order.{ranking-perm}
use cachelib_grpc_server.Published.Ranking.Leader.{IsTrue, comparison_sentence-IsTrue}
use cachelib_grpc_server.Published.Landscape.{titles, sentenced, need, named, first}
use cachelib_grpc_server.Published.Landscape.Leads.{
  Lead, withheld, leads, subject_of, titled, is_qualified, sentence_about, lead_on, leads_of,
}

pub named-Place :
    (name : String) (groups : List Spec) {g : Spec}
    → named name groups ≡ ok g
    → Place g groups × (g.name ≡ name)
named-Place name [] h = cc
named-Place name (k ∷ groups) {g} h = elim (Bool-cases (k.name == name)) [
  | inl t ↦
      let same : k ≡ g = ok_injective (rw t at h) in
      let here_name : k.name ≡ name = ground (arith, eq_iff k.name name) in
      subst (λ g. Place g (k ∷ groups) × (g.name ≡ name)) same (here, here_name)
  | inr t ↦ let (place, name_is) = named-Place name groups (rw t at h) in (there place, name_is)
]

pub need-ok {ℓ} :
    {A : Type ℓ} (key : String) (o : Option A) {a : A} → need key o ≡ ok a → o ≡ some a
need-ok key none h = cc
need-ok key (some b) h = ap (λ a. some a) (ok_injective h)

pub sentenced-ok {ℓ} :
    {A : Type ℓ} (r : Result SentenceError A) {a : A} → sentenced r ≡ ok a → r ≡ ok a
sentenced-ok (ok b) h = ap (λ a. ok a) (ok_injective h)
sentenced-ok (err e) h = cc

module _ (runs : String → Run → RunFiles) (rows_of : String → List Row) (groups : List Spec) where
  -- Every expected run of the group is accepted and limits no claim.
  abbrev pub AllQualify : Spec → Type 0
  AllQualify g = (run : Run) → Place run (expected_runs g) → Qualifies g run (runs g.name run)

  -- What a sentence says of its group is so, of an order that has every engine of the group that has a
  -- median in the group's first case.
  abbrev pub IsSaid : Spec → Sentence → Type 0
  IsSaid g s =
      (case : String) × (first g.cases ≡ ok case)
      × Perm (ranking (rows_of g.name) "objects_s" case g.engines)
          (medians (rows_of g.name) "objects_s" case g.engines)
      × IsTrue (median_in (rows_of g.name) "objects_s" case)
          (ranking (rows_of g.name) "objects_s" case g.engines) s

  -- A sentence under the title of a group that qualifies, or the name of one that does not.
  abbrev pub IsEarned : Lead → Type 0
  IsEarned (withheld name) = (g : Spec) × Place g groups × (g.name ≡ name) × ¬ AllQualify g
  IsEarned (leads title s) =
      (g : Spec) × Place g groups × (lookup g.name titles ≡ some title) × AllQualify g × IsSaid g s

  sentence_about-IsSaid :
      (g : Spec) {s : Sentence} → sentence_about runs rows_of groups g ≡ ok (some s) → IsSaid g s
  sentence_about-IsSaid g h =
      let (case, c, h1) = >>=-eq-ok (first g.cases) _ h in
      (
        case,
        c,
        ranking-perm (rows_of g.name) "objects_s" case g.engines,
        comparison_sentence-IsTrue (rows_of g.name) case g.engines (subject_of g) "objects_s"
            (sentenced-ok _ h1),
      )

  titled-IsEarned :
      (g : Spec) (o : Option Sentence) {ls : List Lead}
      → Place g groups
      → AllQualify g
      → sentence_about runs rows_of groups g ≡ ok o
      → titled g.name o ≡ ok ls
      → All IsEarned ls
  titled-IsEarned g none m q s h = subst (All IsEarned) (ok_injective h) tt
  titled-IsEarned g (some said) m q s h =
      let (title, t, h1) = >>=-eq-ok (need g.name (lookup g.name titles)) _ h in
      subst (All IsEarned) (ok_injective h1)
        ((g, m, need-ok g.name _ t, q, sentence_about-IsSaid g s), tt)

  lead-IsEarned :
      (name : String) (g : Spec) {ls : List Lead}
      → Place g groups
      → g.name ≡ name
      → (if is_qualified runs rows_of groups g
          then lead_on runs rows_of groups name g
          else ok (withheld name ∷ []))
        ≡ ok ls
      → All IsEarned ls
  lead-IsEarned name g m n h =
      let (to, from) = validate_group-qualified g (runs g.name) in
      elim (Bool-cases (is_qualified runs rows_of groups g)) [
        | inl q ↦
            let (o, s, h1) = >>=-eq-ok (sentence_about runs rows_of groups g) _ (rw q at h) in
            titled-IsEarned g o m (to q) s (rw n h1)
        | inr q ↦
            subst (All IsEarned) (ok_injective (rw q at h)) ((g, m, n, λ all. cc (from all)), tt)
      ]

  pub leads_of-IsEarned :
      (names : List String) {ls : List Lead}
      → leads_of runs rows_of groups names ≡ ok ls
      → All IsEarned ls
  unfolding leads_of
  leads_of-IsEarned [] h = subst (All IsEarned) (ok_injective h) tt
  leads_of-IsEarned (name ∷ names) h =
      let (g, n, h1) = >>=-eq-ok (named name groups) _ h in
      let (lead, l, h2) = >>=-eq-ok _ _ h1 in
      let (rest, r, h3) = >>=-eq-ok (leads_of runs rows_of groups names) _ h2 in
      let (m, same) = named-Place name groups n in
      subst (All IsEarned) (ok_injective h3)
        (All-append IsEarned lead rest (lead-IsEarned name g m same l) (leads_of-IsEarned names r))
