-- ===== src/Published/Tables/Repetitions.antt =====
-- Which runs a table shows.
use native.Mathlib.Decide.{dec_le}
use cachelib_grpc_server.Common.{
  ℕ, zero, suc, ◌+◌, ◌≤◌, ◌<◌, String, ◌≡◌, refl, ap, Bool, true, false, not, ◌||◌, Bool-cases, inl,
  inr, List, [], ◌∷◌, length, length-map, ◌∙◌, eqb, leb, leb→le, ok, >>=-eq-ok, raise_if-eq-ok, All,
  arith,
}
use cachelib_grpc_server.Published.Rows.{Row}
use cachelib_grpc_server.Published.Tables.{
  Table, source_of, before_row, by_repetition, of_engine, same_set, has, five, repetitions,
  check_runs, labels,
}
use cachelib_grpc_server.Published.Tables.Lines.{Line, grouped, check_all, table}

-- Numbers that do not descend.
abbrev IsAscending : List ℕ → Type 0
IsAscending [] = Unit
IsAscending (n ∷ ns) = All (λ m. n ≤ m) ns × IsAscending ns

-- Of numbers that do not descend, the first of those that are at least `i` is found at the front.
not-has : (i : ℕ) (ns : List ℕ) → All (λ m. i < m) ns → has i ns ≡ false
not-has i [] h = refl
not-has i (n ∷ ns) h = let rest = not-has i ns h.1 in let l = h.0 in ground arith

All-above : (i n : ℕ) (ns : List ℕ) → i < n → All (λ m. n ≤ m) ns → All (λ m. i < m) ns
All-above i n [] l h = tt
All-above i n (m ∷ ns) l h = (let k = h.0 in omega arith, All-above i n ns l h.1)

-- All of `i, i + 1, ...`, as many as `k`.
abbrev HasFrom : ℕ → ℕ → List ℕ → Type 0
HasFrom i zero ns = Unit
HasFrom i (suc k) ns = (has i ns ≡ true) × HasFrom (i + 1) k ns

abbrev from : ℕ → ℕ → List ℕ
from i zero = []
from i (suc k) = i ∷ from (i + 1) k

-- A number below all of the wanted ones is of no use.
HasFrom-tail : (i k n : ℕ) (ns : List ℕ) → n < i → HasFrom i k (n ∷ ns) → HasFrom i k ns
HasFrom-tail i zero n ns l h = tt
HasFrom-tail i (suc k) n ns l h =
    let one = h.0 in (ground arith, HasFrom-tail (i + 1) k n ns (omega arith) h.1)

-- The head of ascending numbers that include `i` is at most `i`.
head_le : (i n : ℕ) (ns : List ℕ) → All (λ m. n ≤ m) ns → has i (n ∷ ns) ≡ true → n ≤ i
head_le i n ns a h = elim (dec_le n i) [
  | yes p ↦ p
  | no p ↦
      let above : i < n = omega arith in
      let none_has = not-has i (n ∷ ns) (above, All-above i n ns above a) in absurd (cc)
]

-- More wanted numbers than there are numbers cannot all be found.
too_few : (i : ℕ) (ns : List ℕ) → IsAscending ns → HasFrom i (suc (length ns)) ns → ⊥
too_few i [] a h = cc
too_few i (n ∷ ns) a h =
    let l = head_le i n ns a.0 h.0 in
    too_few (i + 1) ns a.1 (HasFrom-tail (i + 1) (suc (length ns)) n ns (omega arith) h.1)

-- As many ascending numbers as are wanted are just those.
exactly :
    (i : ℕ) (ns : List ℕ) → IsAscending ns → HasFrom i (length ns) ns → ns ≡ from i (length ns)
exactly i [] a h = refl
exactly i (n ∷ ns) a h =
    let l = head_le i n ns a.0 h.0 in
    let rest = exactly (i + 1) ns a.1 (HasFrom-tail (i + 1) (length ns) n ns (omega arith) h.1) in
    elim (dec_le i n) [
      | yes p ↦ let same : n ≡ i = omega arith in cc
      | no p ↦ absurd (too_few i ns a.1 (HasFrom-tail i (suc (length ns)) n ns (omega arith) h))
    ]

All-before_row :
    (k : ℕ) (r : Row) (rs : List Row)
    → k ≤ r.repetition
    → All (λ m. k ≤ m) (repetitions rs)
    → All (λ m. k ≤ m) (repetitions (before_row r rs))
All-before_row k r [] l h = (l, tt)
All-before_row k r (q ∷ qs) l h =
    let rest = All-before_row k r qs l h.1 in
    elim (Bool-cases (leb r.repetition q.repetition)) [
      | inl e ↦ rw e (l, h)
      | inr e ↦ rw e (h.0, rest)
    ]

All-lower : (k n : ℕ) (ns : List ℕ) → k ≤ n → All (λ m. n ≤ m) ns → All (λ m. k ≤ m) ns
All-lower k n [] l h = tt
All-lower k n (m ∷ ns) l h = (let j = h.0 in omega arith, All-lower k n ns l h.1)

before_row-IsAscending :
    (r : Row) (rs : List Row)
    → IsAscending (repetitions rs)
    → IsAscending (repetitions (before_row r rs))
before_row-IsAscending r [] h = (tt, tt)
before_row-IsAscending r (q ∷ qs) h = elim (Bool-cases (leb r.repetition q.repetition)) [
  | inl e ↦
      let l = leb→le r.repetition q.repetition e in
      rw e ((l, All-lower r.repetition q.repetition (repetitions qs) l h.0), h)
  | inr e ↦
      let l : q.repetition ≤ r.repetition = ground arith in
      rw e (All-before_row q.repetition r qs l h.0, before_row-IsAscending r qs h.1)
]

by_repetition-IsAscending : (rs : List Row) → IsAscending (repetitions (by_repetition rs))
by_repetition-IsAscending [] = tt
by_repetition-IsAscending (r ∷ rs) =
    before_row-IsAscending r (by_repetition rs) (by_repetition-IsAscending rs)

same_set-HasFrom : (ns : List ℕ) → same_set ns ≡ true → HasFrom 0 5 ns
same_set-HasFrom ns h =
    (ground arith, (ground arith, (ground arith, (ground arith, (ground arith, tt)))))

length-repetitions : (rs : List Row) → length (repetitions rs) ≡ length rs
length-repetitions rs = length-map rs (λ r. r.repetition)

repetitions-check_runs :
    (is_stable : Row → Bool) (kind : Table) (rs : List Row)
    → IsAscending (repetitions rs)
    → check_runs is_stable kind rs ≡ ok tt
    → repetitions rs ≡ five
unfolding check_runs
repetitions-check_runs is_stable kind rs a h =
    let (checked, h1) = raise_if-eq-ok _ _ h in
    let (five_runs, wanted) = both _ _ checked in
    let n : length (repetitions rs) ≡ 5 = length-repetitions rs ∙ eqb→≡ five_runs in
    exactly 0 (repetitions rs) a (rw n (same_set-HasFrom (repetitions rs) wanted)) ∙ ap (from 0) n
  where
    both : (b c : Bool) → (not b || not c) ≡ false → (b ≡ true) × (c ≡ true)
    both true true h = (refl, refl)
    both true false h = cc
    both false c h = cc

    eqb→≡ : {m k : ℕ} → eqb m k ≡ true → m ≡ k
    eqb→≡ h = ground arith

-- The runs that a table shows of an engine are its repetitions r0 to r4, each once and in order.
abbrev pub ShowsFive : String × String × List Row → Type 0
ShowsFive e = repetitions e.2 ≡ five

check_all-ShowsFive :
    (files : String → List Row) (is_stable : Row → Bool) (kind : Table)
    (names : List (String × String))
    → check_all is_stable kind (grouped files kind names) ≡ ok tt
    → All ShowsFive (grouped files kind names)
unfolding check_all
check_all-ShowsFive files is_stable kind [] h = tt
check_all-ShowsFive files is_stable kind ((engine, label) ∷ names) h =
    let rs = of_engine engine (files (source_of kind engine)) in
    let (u, one, h1) = >>=-eq-ok (check_runs is_stable kind (by_repetition rs)) _ h in
    (
      repetitions-check_runs is_stable kind (by_repetition rs) (by_repetition-IsAscending rs) one,
      check_all-ShowsFive files is_stable kind names h1,
    )

-- A table is made only of engines whose runs, ordered by their repetition, are exactly r0 to r4:
-- five runs none of which stands for another.
pub table-ShowsFive :
    (unit : ℕ) (is_stable : Row → Bool) (files : String → List Row) (kind : Table)
    {lines : List Line}
    → table unit is_stable files kind ≡ ok lines
    → All ShowsFive (grouped files kind (labels kind))
unfolding table
table-ShowsFive unit is_stable files kind h =
    let (u, checked, h1) =
      >>=-eq-ok (check_all is_stable kind (grouped files kind (labels kind))) _ h in
    check_all-ShowsFive files is_stable kind (labels kind) checked
