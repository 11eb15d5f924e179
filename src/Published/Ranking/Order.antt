-- ===== src/Published/Ranking/Order.antt =====
-- The order of a group's engines: by falling medians, with every engine that has one.
use cachelib_grpc_server.Common.{
  ℕ, ◌≤◌, String, ◌==◌, eq_iff, ◌≡◌, refl, ap, sym, ◌∙◌, Bool-cases, inl, inr, Option, none, some,
  List, [], ◌∷◌, leb, leb→le, All, All-weaken, arith,
}
use mathlib.Core.List.{Perm}
use mathlib.Core.List.Perm
use cachelib_grpc_server.Published.Rows.{Row}
use cachelib_grpc_server.Published.Ranking.{
  Ranked, placed_before, descending, with_median, median_in, medians, ranking, else_here, value_of,
}

All-placed_before :
    (P : Ranked → Type 0) (p : Ranked) (ps : List Ranked)
    → P p
    → All P ps
    → All P (placed_before p ps)
All-placed_before P p [] h k = (h, tt)
All-placed_before P p (q ∷ qs) h k =
    let rest = All-placed_before P p qs h k.1 in
    elim (Bool-cases (leb q.1 p.1)) [ inl e ↦ rw e (h, k) | inr e ↦ rw e (k.0, rest) ]

All-descending : (P : Ranked → Type 0) (ps : List Ranked) → All P ps → All P (descending ps)
All-descending P [] h = tt
All-descending P (p ∷ ps) h = All-placed_before P p (descending ps) h.0 (All-descending P ps h.1)

abbrev pub AtMost : ℕ → Ranked → Type 0
AtMost v p = p.1 ≤ v

-- Every pair has at most the median of those before it.
abbrev pub IsDescending : List Ranked → Type 0
IsDescending [] = Unit
IsDescending (p ∷ ps) = All (AtMost p.1) ps × IsDescending ps

placed_before-IsDescending :
    (p : Ranked) (ps : List Ranked) → IsDescending ps → IsDescending (placed_before p ps)
placed_before-IsDescending p [] d = (tt, tt)
placed_before-IsDescending p (q ∷ qs) d = elim (Bool-cases (leb q.1 p.1)) [
  | inl e ↦
      let l = leb→le q.1 p.1 e in
      rw e ((l, All-weaken (AtMost q.1) (AtMost p.1) qs (λ r m. omega arith) d.0), d)
  | inr e ↦
      let l : p.1 ≤ q.1 = ground arith in
      rw e (All-placed_before (AtMost q.1) p qs l d.0, placed_before-IsDescending p qs d.1)
]

descending-IsDescending : (ps : List Ranked) → IsDescending (descending ps)
descending-IsDescending [] = tt
descending-IsDescending (p ∷ ps) =
    placed_before-IsDescending p (descending ps) (descending-IsDescending ps)

-- Every pair has the median of its engine.
abbrev pub HasMedian : (String → Option ℕ) → Ranked → Type 0
HasMedian f p = f p.0 ≡ some p.1

with_median-HasMedian :
    (f : String → Option ℕ) (engine : String) (o : Option ℕ) (ps : List Ranked)
    → f engine ≡ o
    → All (HasMedian f) ps
    → All (HasMedian f) (with_median engine o ps)
with_median-HasMedian f engine none ps e h = h
with_median-HasMedian f engine (some v) ps e h = (e, h)

medians-HasMedian :
    (rows : List Row) (field case : String) (engines : List String)
    → All (HasMedian (median_in rows field case)) (medians rows field case engines)
medians-HasMedian rows field case [] = tt
medians-HasMedian rows field case (engine ∷ engines) =
    with_median-HasMedian (median_in rows field case) engine (median_in rows field case engine) _
      refl (medians-HasMedian rows field case engines)

pub ranking-HasMedian :
    (rows : List Row) (field case : String) (engines : List String)
    → All (HasMedian (median_in rows field case)) (ranking rows field case engines)
unfolding ranking
ranking-HasMedian rows field case engines =
    All-descending _ (medians rows field case engines) (medians-HasMedian rows field case engines)

placed_before-perm : (p : Ranked) (ps : List Ranked) → Perm (placed_before p ps) (p ∷ ps)
placed_before-perm p [] = Perm.refl (p ∷ [])
placed_before-perm p (q ∷ qs) = elim (Bool-cases (leb q.1 p.1)) [
  | inl e ↦ rw e (Perm.refl (p ∷ q ∷ qs))
  | inr e ↦ rw e (Perm.trans (Perm.cons q (placed_before-perm p qs)) (Perm.swap p q qs))
]

descending-perm : (ps : List Ranked) → Perm (descending ps) ps
descending-perm [] = Perm.refl []
descending-perm (p ∷ ps) =
    Perm.trans (placed_before-perm p (descending ps)) (Perm.cons p (descending-perm ps))

-- The order has every engine of the group that has a median, as often as the group lists it.
pub ranking-perm :
    (rows : List Row) (field case : String) (engines : List String)
    → Perm (ranking rows field case engines) (medians rows field case engines)
unfolding ranking
ranking-perm rows field case engines = descending-perm (medians rows field case engines)

pub ranking-IsDescending :
    (rows : List Row) (field case : String) (engines : List String)
    → IsDescending (ranking rows field case engines)
unfolding ranking
ranking-IsDescending rows field case engines =
    descending-IsDescending (medians rows field case engines)

else_here-HasMedian :
    (f : String → Option ℕ) (p : Ranked) (engine : String) (o : Option ℕ) {v : ℕ}
    → HasMedian f p
    → (o ≡ some v → f engine ≡ some v)
    → else_here p engine o ≡ some v
    → f engine ≡ some v
else_here-HasMedian f p engine (some w) h later e = later e
else_here-HasMedian f p engine none {v} h later e = elim (Bool-cases (p.0 == engine)) [
  | inl t ↦
      let same : p.0 ≡ engine = ground (arith, eq_iff p.0 engine) in
      sym (ap f same) ∙ h ∙ (rw t at e)
  | inr t ↦ absurd (no_value (rw t at e))
]
  where
    no_value : ◌≡◌ {A = Option ℕ} none (some v) → ⊥
    no_value e = cc

pub value_of-HasMedian :
    (f : String → Option ℕ) (ps : List Ranked) (engine : String) {v : ℕ}
    → All (HasMedian f) ps
    → value_of ps engine ≡ some v
    → f engine ≡ some v
value_of-HasMedian f [] engine h e = cc
value_of-HasMedian f (p ∷ ps) engine {v} h e =
    else_here-HasMedian f p engine (value_of ps engine) h.0 (value_of-HasMedian f ps engine h.1) e
