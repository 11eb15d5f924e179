-- ===== src/Published/Ranking/Leader.antt =====
-- What the sentence about an order says, against the medians of the group.
use cachelib_grpc_server.Common.{
  ℕ, suc, ◌≤◌, String, false, ◌==◌, eq_iff, ◌≡◌, refl, ap, sym, subst, ◌∙◌, ◌⊎◌, ◌+◌, ◌++◌,
  Bool-cases, inl, inr, Option, none, some, List, [], ◌∷◌, eqb, length, if◌then◌else◌, Result, ok,
  err, All, All-weaken, arith,
}
use cachelib_grpc_server.Published.Rows.{Row}
use cachelib_grpc_server.Published.Ranking.{
  Ranked, median_in, ranking, next_place, place, value_of, Sentence, SentenceError, divided,
  next_engine, sentence_of, about_place, about_order, comparison_sentence,
}
use cachelib_grpc_server.Published.Ranking.Order.{
  AtMost, IsDescending, HasMedian, ranking-HasMedian, ranking-IsDescending, value_of-HasMedian,
}

next_place-positive :
    (o : Option ℕ) {k : ℕ} → next_place o ≡ some k → (j : ℕ) × (o ≡ some j) × (k ≡ suc j)
next_place-positive none e = cc
next_place-positive (some j) {k} e = (j, refl, last e)
  where
    last : ◌≡◌ {A = Option ℕ} (some (suc j)) (some k) → k ≡ suc j
    last e = cc

some_injective : {a b : ℕ} → ◌≡◌ {A = Option ℕ} (some a) (some b) → a ≡ b
some_injective e = cc

place-positive : (ps : List Ranked) (engine : String) {k : ℕ} → place ps engine ≡ some k → 1 ≤ k
place-positive [] engine e = cc
place-positive (p ∷ ps) engine {k} e = elim (Bool-cases (p.0 == engine)) [
  | inl t ↦ let one = some_injective (rw t at e) in omega arith
  | inr t ↦ let (j, o, s) = next_place-positive (place ps engine) (rw t at e) in omega arith
]

place-one :
    (p : Ranked) (ps : List Ranked) (engine : String)
    → place (p ∷ ps) engine ≡ some 1
    → p.0 ≡ engine
place-one p ps engine e = elim (Bool-cases (p.0 == engine)) [
  | inl t ↦ ground (arith, eq_iff p.0 engine)
  | inr t ↦
      let (j, o, s) = next_place-positive (place ps engine) (rw t at e) in
      let l = place-positive ps engine o in absurd (omega arith)
]

-- An engine with its median at a place of an order, counted from 1.
abbrev pub Stands : List Ranked → String → ℕ → ℕ → Type 0
Stands ps engine v k =
    (front : List Ranked) × (back : List Ranked) × (ps ≡ front ++ (engine, v) ∷ back)
    × (length front + 1 ≡ k)

same_pair : {a b : String} {v w : ℕ} → a ≡ b → v ≡ w → ◌≡◌ {A = Ranked} (a, v) (b, w)
same_pair {a} {b} {v} {w} e h = ap (λ x. (x, v)) e ∙ ap (λ n. (b, n)) h

place-Stands :
    (f : String → Option ℕ) (ps : List Ranked) (engine : String) {k v : ℕ}
    → All (HasMedian f) ps
    → f engine ≡ some v
    → place ps engine ≡ some k
    → Stands ps engine v k
place-Stands f [] engine h m e = cc
place-Stands f ((name, n) ∷ ps) engine {k} {v} h m e = elim (Bool-cases (name == engine)) [
  | inl t ↦
      let same : name ≡ engine = ground (arith, eq_iff name engine) in
      let value = some_injective (sym h.0 ∙ ap f same ∙ m) in
      ([], ps, ap (λ q. q ∷ ps) (same_pair same value), some_injective (rw t at e))
  | inr t ↦
      let (j, o, later) = next_place-positive (place ps engine) (rw t at e) in
      let (front, back, split, count) = place-Stands f ps engine h.1 m o in
      ((name, n) ∷ front, back, ap (λ qs. (name, n) ∷ qs) split, omega arith)
]

-- The rival of a sentence: the next engine after a subject that leads, and the leader of any other.
abbrev pub IsRival : List Ranked → Sentence → Type 0
IsRival ps s =
    ((s.position ≡ 1)
      × (back : List Ranked) × (ps ≡ (s.subject, s.own) ∷ (s.rival, s.rival_median) ∷ back))
    ⊎ ((2 ≤ s.position) × (back : List Ranked) × (ps ≡ (s.rival, s.rival_median) ∷ back))

-- What a sentence may say of an order whose pairs have the medians `f`: the order is one by falling
-- medians, in which the subject stands at the position that is said.
pub record IsTrue (f : String → Option ℕ) (ps : List Ranked) (s : Sentence) : Type 0 where
  pub ranked : All (HasMedian f) ps
  pub falling : IsDescending ps
  pub stands : Stands ps s.subject s.own s.position
  pub rival_is : IsRival ps s
  pub placed : place ps s.subject ≡ some s.position
  pub counted : s.total ≡ length ps
  pub own_median : f s.subject ≡ some s.own
  pub rival_has : f s.rival ≡ some s.rival_median
  pub highest : All (AtMost (if eqb s.position 1 then s.own else s.rival_median)) ps

two_or_more : (k : ℕ) → 1 ≤ k → eqb k 1 ≡ false → 2 ≤ k
two_or_more k l e = ground arith

abbrev OfSentence : (Sentence → Type 0) → Result SentenceError (Option Sentence) → Type 0
OfSentence P (ok (some s)) = P s
OfSentence P (ok none) = Unit
OfSentence P (err e) = Unit

OfSentence-divided :
    (P : Sentence → Type 0) (by : ℕ) (s : Sentence) → P s → OfSentence P (divided by s)
OfSentence-divided P by s h = elim (Bool-cases (eqb by 0)) [ inl e ↦ rw e tt | inr e ↦ rw e h ]

module _ (f : String → Option ℕ) (subject : String) (best : Ranked) (rest : List Ranked)
    (medians_are : All (HasMedian f) (best ∷ rest)) (ordered : IsDescending (best ∷ rest)) where
  all-AtMost : {v : ℕ} → best.1 ≤ v → All (AtMost v) (best ∷ rest)
  all-AtMost l = (l, All-weaken (AtMost best.1) (AtMost _) rest (λ p m. omega arith) ordered.0)

  next_engine-IsTrue :
      (own : ℕ) (others : List Ranked)
      → place (best ∷ rest) subject ≡ some 1
      → f subject ≡ some own
      → rest ≡ others
      → OfSentence (IsTrue f (best ∷ rest)) (next_engine subject (length (best ∷ rest)) own others)
  next_engine-IsTrue own [] p m e = tt
  next_engine-IsTrue own (second ∷ others) p m e =
      let all : All (HasMedian f) (second ∷ others) = subst (All (HasMedian f)) e medians_are.1 in
      let same : best.1 ≡ own =
        some_injective (sym medians_are.0 ∙ ap f (place-one best rest subject p) ∙ m) in
      let leader = same_pair (place-one best rest subject p) same in
      OfSentence-divided (IsTrue f (best ∷ rest)) second.1 _ (record {
        ranked = medians_are;
        falling = ordered;
        stands = place-Stands f (best ∷ rest) subject medians_are m p;
        rival_is = inl (refl, others, ap (λ q. q ∷ rest) leader ∙ ap (λ qs. (subject, own) ∷ qs) e);
        placed = p;
        counted = refl;
        own_median = m;
        rival_has = all.0;
        highest = all-AtMost (omega arith);
      })

  sentence_of-IsTrue :
      (position : ℕ) (o : Option ℕ)
      → place (best ∷ rest) subject ≡ some position
      → (value_of (best ∷ rest) subject ≡ o)
      → OfSentence
          (IsTrue f (best ∷ rest))
          (sentence_of subject position (length (best ∷ rest)) o best rest)
  sentence_of-IsTrue position none p e = tt
  sentence_of-IsTrue position (some own) p e =
      let m = value_of-HasMedian f (best ∷ rest) subject medians_are e in
      elim (Bool-cases (eqb position 1)) [
        | inl first ↦
            let one : position ≡ 1 = ground arith in
            rw first (next_engine-IsTrue own rest (p ∙ ap (λ k. some k) one) m refl)
        | inr later ↦ rw later (
            let l : 2 ≤ position =
              two_or_more position (place-positive (best ∷ rest) subject p) later in
            OfSentence-divided (IsTrue f (best ∷ rest)) own _ (record {
              ranked = medians_are;
              falling = ordered;
              stands = place-Stands f (best ∷ rest) subject medians_are m p;
              rival_is = inr (l, rest, refl);
              placed = p;
              counted = refl;
              own_median = m;
              rival_has = medians_are.0;
              highest = all-AtMost (rw later (omega arith));
            }))
      ]

  about_place-IsTrue :
      (o : Option ℕ)
      → place (best ∷ rest) subject ≡ o
      → OfSentence (IsTrue f (best ∷ rest)) (about_place subject o best rest)
  about_place-IsTrue none p = tt
  about_place-IsTrue (some position) p =
      sentence_of-IsTrue position (value_of (best ∷ rest) subject) p refl

about_order-IsTrue :
    (f : String → Option ℕ) (subject : String) (ps : List Ranked)
    → All (HasMedian f) ps
    → IsDescending ps
    → OfSentence (IsTrue f ps) (about_order subject ps)
about_order-IsTrue f subject [] m d = tt
about_order-IsTrue f subject (best ∷ rest) m d =
    about_place-IsTrue f subject best rest m d (place (best ∷ rest) subject) refl

-- A sentence about the order of a group says its subject's place among the engines that have a
-- median, how many they are, the subject's median, and the next engine or the leader. At the first place no median is higher than
-- the subject's; at any other, none is higher than that of the rival that the sentence names.
pub comparison_sentence-IsTrue :
    (rows : List Row) (case : String) (engines : List String) (subject field : String)
    {s : Sentence}
    → comparison_sentence rows case engines subject field ≡ ok (some s)
    → IsTrue (median_in rows field case) (ranking rows field case engines) s
unfolding comparison_sentence
comparison_sentence-IsTrue rows case engines subject field h =
    subst (OfSentence (IsTrue (median_in rows field case) (ranking rows field case engines))) h (
      about_order-IsTrue (median_in rows field case) subject (ranking rows field case engines)
        (ranking-HasMedian rows field case engines) (ranking-IsDescending rows field case engines))
