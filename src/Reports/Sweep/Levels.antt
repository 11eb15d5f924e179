-- ===== src/Reports/Sweep/Levels.antt =====
-- The levels of the summary: every level that was measured, once.
use cachelib_grpc_server.Common.{
  ℕ, ◌+◌, ◌≤◌, ◌≡◌, refl, ap, sym, is_some, ◌&&◌, ◌||◌, subst, ◌∙◌, inl, inr, Bool, true, false,
  List, [], ◌∷◌, map, ltb, eqb, length, if◌then◌else◌, ok, Place, here, there, Place-map, arith,
  Bool-cases,
}
use cachelib_grpc_server.Reports.Sweep.{
  Repetition, find, add_level, add_levels, levels_of, runs_at, Level, level_of, at_levels, sweep,
}

-- Each element is below all that follow.
abbrev pub ascends_from : ℕ → List ℕ → Bool
ascends_from n [] = true
ascends_from n (x ∷ xs) = ltb n x && ascends_from x xs

abbrev pub is_ascending : List ℕ → Bool
is_ascending [] = true
is_ascending (x ∷ xs) = ascends_from x xs

abbrev has : ℕ → List ℕ → Bool
has n [] = false
has n (x ∷ xs) = eqb x n || has n xs

has-Place : (n : ℕ) (xs : List ℕ) → has n xs ≡ true → Place n xs
has-Place n [] h = cc
has-Place n (x ∷ xs) h = elim (Bool-cases (eqb x n)) [
  | inl same ↦ let e : n ≡ x = ground arith in subst (λ k. Place k (x ∷ xs)) (sym e) here
  | inr other ↦ there (has-Place n xs (ground arith))
]

has-add_level : (m n : ℕ) (xs : List ℕ) → has m (add_level n xs) ≡ (eqb n m || has m xs)
has-add_level m n [] = refl
has-add_level m n (x ∷ xs) = ground (arith, has-add_level m n xs)

ascends_from-add_level :
    (k n : ℕ) (xs : List ℕ)
    → ltb k n ≡ true
    → ascends_from k xs ≡ true
    → ascends_from k (add_level n xs) ≡ true
ascends_from-add_level k n [] l h = ground arith
ascends_from-add_level k n (x ∷ xs) l h = ground (arith, ascends_from-add_level x n xs)

is_ascending-add_level :
    (n : ℕ) (xs : List ℕ) → is_ascending xs ≡ true → is_ascending (add_level n xs) ≡ true
is_ascending-add_level n [] h = refl
is_ascending-add_level n (x ∷ xs) h = ground (arith, ascends_from-add_level x n xs)

is_ascending-add_levels :
    (r : Repetition) (levels : List ℕ)
    → is_ascending levels ≡ true
    → is_ascending (add_levels r levels) ≡ true
is_ascending-add_levels [] levels h = h
is_ascending-add_levels ((level, s) ∷ files) levels h =
    is_ascending-add_level level (add_levels files levels) (is_ascending-add_levels files levels h)

is_ascending-levels_of : (reps : List Repetition) → is_ascending (levels_of reps) ≡ true
is_ascending-levels_of [] = refl
is_ascending-levels_of (r ∷ reps) =
    is_ascending-add_levels r (levels_of reps) (is_ascending-levels_of reps)

has-add_levels :
    (c : ℕ) (r : Repetition) (levels : List ℕ)
    → has c (add_levels r levels) ≡ (is_some (find c r) || has c levels)
has-add_levels c [] levels = refl
has-add_levels c ((level, s) ∷ files) levels =
    ground (arith, has-add_level c level (add_levels files levels), has-add_levels c files levels)

-- The repetitions that have the level.
abbrev pub measured_at : ℕ → List Repetition → ℕ
measured_at c [] = 0
measured_at c (r ∷ reps) = (if is_some (find c r) then 1 else 0) + measured_at c reps

has-levels_of :
    (c : ℕ) (reps : List Repetition) → has c (levels_of reps) ≡ ltb 0 (measured_at c reps)
has-levels_of c [] = refl
has-levels_of c (r ∷ reps) =
    ground (arith, has-add_levels c r (levels_of reps), has-levels_of c reps)

length-runs_at : (c : ℕ) (reps : List Repetition) → length (runs_at c reps) ≡ measured_at c reps
length-runs_at c [] = refl
length-runs_at c (r ∷ reps) = ground (arith, length-runs_at c reps)

sweep-levels :
    (reps : List Repetition) (cs : List ℕ) {out : List Level}
    → at_levels reps cs ≡ ok out
    → map (level_of reps) cs ≡ out
sweep-levels reps [] h = cc
sweep-levels reps (c ∷ cs) h = cc

-- Every level that a repetition has is in the summary, which says how many repetitions have it.
pub sweep_complete :
    (reps : List Repetition) {out : List Level} (c : ℕ)
    → sweep reps ≡ ok out
    → 1 ≤ measured_at c reps
    → (l : Level) × Place l out × (l.level ≡ c) × (l.repetitions ≡ measured_at c reps)
unfolding sweep
sweep_complete reps {out} c h m =
    let found : has c (levels_of reps) ≡ true = has-levels_of c reps ∙ ground arith in
    let place = Place-map (level_of reps) (levels_of reps) (has-Place c (levels_of reps) found) in
    (
      level_of reps c,
      subst (λ ls. Place (level_of reps c) ls) (sweep-levels reps (levels_of reps) h) place,
      refl,
      length-runs_at c reps,
    )

levels-map :
    (reps : List Repetition) (cs : List ℕ)
    → map (λ (l : Level). l.level) (map (level_of reps) cs) ≡ cs
levels-map reps [] = refl
levels-map reps (c ∷ cs) = ap (λ ds. c ∷ ds) (levels-map reps cs)

-- The levels of the summary ascend, so that none is there twice.
pub sweep_ascends :
    (reps : List Repetition) {out : List Level}
    → sweep reps ≡ ok out
    → is_ascending (map (λ (l : Level). l.level) out) ≡ true
unfolding sweep
sweep_ascends reps {out} h =
    let e = levels-map reps (levels_of reps) in
    let a = is_ascending-levels_of reps in
    subst (λ ls. is_ascending (map (λ (l : Level). l.level) ls) ≡ true)
      (sweep-levels reps (levels_of reps) h) (subst (λ cs. is_ascending cs ≡ true) (sym e) a)
