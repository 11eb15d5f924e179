-- ===== src/Investigation/Selection/Keys.antt =====
-- bench/investigation/summarize.py: the rows of one engine and case, where a row is put and sorted.
use cachelib_grpc_server.Common.{
  String, ◌==◌, ◌≡◌, refl, sym, ap, ◌∙◌, subst, eq_iff, Bool, true, false, ◌&&◌, Bool-cases, inl,
  inr, List, [], ◌∷◌, ◌++◌, if◌then◌else◌, arith,
}
use cachelib_grpc_server.Investigation.Selection.{Row, put, insert_row, sort_rows}

abbrev pub is_key : String → String → Row → Bool
is_key engine case r = (r.engine == engine) && (r.case == case)

-- The rows of one engine and case.
abbrev pub of_key : String → String → List Row → List Row
of_key e c [] = []
of_key e c (r ∷ rs) = let rest = of_key e c rs in if is_key e c r then r ∷ rest else rest

-- The last row of a list, in a list of its own.
abbrev pub last : List Row → List Row
last [] = []
last (r ∷ []) = r ∷ []
last (r ∷ s ∷ rs) = last (s ∷ rs)

module _ (e c : String) where
  put-other :
      (r : Row) (rs : List Row) → is_key e c r ≡ false → of_key e c (put r rs) ≡ of_key e c rs
  put-other r [] h = rw h refl
  put-other r (s ∷ ss) h = ground (
    arith,
    eq_iff s.engine r.engine,
    eq_iff s.case r.case,
    eq_iff r.engine e,
    eq_iff r.case c,
    eq_iff s.engine e,
    eq_iff s.case c,
    put-other r ss h,
  )

-- No row or one.
abbrev pub IsSparse : List Row → Type 0
IsSparse [] = Unit
IsSparse (r ∷ []) = Unit
IsSparse (r ∷ s ∷ rs) = ⊥

IsSparse-alone : (r : Row) (rs : List Row) → IsSparse (r ∷ rs) → rs ≡ []
IsSparse-alone r [] h = refl
IsSparse-alone r (s ∷ rs) h = absurd h

last-sparse : (rs : List Row) → IsSparse rs → last (rs ++ []) ≡ rs
last-sparse [] h = refl
last-sparse (r ∷ []) h = refl
last-sparse (r ∷ s ∷ rs) h = absurd h

last-later : (xs : List Row) (y : Row) (ys : List Row) → last (xs ++ y ∷ ys) ≡ last (y ∷ ys)
last-later [] y ys = refl
last-later (x ∷ []) y ys = refl
last-later (x ∷ w ∷ xs) y ys = last-later (w ∷ xs) y ys

abbrev pub put_all : List Row → List Row → List Row
put_all [] selected = selected
put_all (r ∷ rs) selected = put_all rs (put r selected)

abbrev same_key : Row → Row → Bool
same_key s r = (s.engine == r.engine) && (s.case == r.case)

module _ (e c : String) where
  same-key : (r s : Row) → is_key e c r ≡ true → same_key s r ≡ is_key e c s
  same-key r s h = ground (
    arith,
    eq_iff s.engine r.engine,
    eq_iff s.case r.case,
    eq_iff r.engine e,
    eq_iff r.case c,
    eq_iff s.engine e,
    eq_iff s.case c,
  )

  put-key :
      (r : Row) (rs : List Row)
      → is_key e c r ≡ true
      → IsSparse (of_key e c rs)
      → of_key e c (put r rs) ≡ r ∷ []
  put-key r [] h k = rw h refl
  put-key r (s ∷ ss) h k = elim (Bool-cases (is_key e c s)) [
    | inl m ↦
        rw (same-key r s h, m, h) (ap (λ rs. r ∷ rs) (IsSparse-alone s (of_key e c ss) (rw m at k)))
    | inr m ↦ rw (same-key r s h, m) (rw m (put-key r ss h (rw m at k)))
  ]

  pub put_all-last :
      (rs selected : List Row)
      → IsSparse (of_key e c selected)
      → of_key e c (put_all rs selected) ≡ last (of_key e c selected ++ of_key e c rs)
  put_all-last [] selected k = sym (last-sparse (of_key e c selected) k)
  put_all-last (r ∷ rs) selected k = elim (Bool-cases (is_key e c r)) [
    | inl m ↦
        let one = put-key r selected m k in
        let later = put_all-last rs (put r selected) (subst IsSparse (sym one) tt) in
        let dropped = last-later (of_key e c selected) r (of_key e c rs) in
        rw m (later ∙ ap (λ xs. last (xs ++ of_key e c rs)) one ∙ sym dropped)
    | inr m ↦
        let same = put-other e c r selected m in
        let later = put_all-last rs (put r selected) (subst IsSparse (sym same) k) in
        rw m (later ∙ ap (λ xs. last (xs ++ of_key e c rs)) same)
  ]

module _ (before : Row → Row → Bool) (e c : String) where
  insert-other :
      (r : Row) (rs : List Row)
      → is_key e c r ≡ false
      → of_key e c (insert_row before r rs) ≡ of_key e c rs
  insert-other r [] h = rw h refl
  insert-other r (s ∷ ss) h = ground (arith, insert-other r ss h)

  insert-key :
      (r : Row) (rs : List Row)
      → is_key e c r ≡ true
      → of_key e c rs ≡ []
      → of_key e c (insert_row before r rs) ≡ r ∷ []
  insert-key r [] h k = rw h refl
  insert-key r (s ∷ ss) h k = elim (Bool-cases (is_key e c s)) [
    | inl m ↦ let bad : s ∷ of_key e c ss ≡ [] = (rw m at k) in absurd cc
    | inr m ↦
        let left : of_key e c ss ≡ [] = (rw m at k) in
        let later = insert-key r ss h left in
        elim (Bool-cases (before r s)) [ inl l ↦ rw (l, h, m, left) refl | inr l ↦ rw (l, m) later ]
  ]

  pub sort-sparse :
      (rs : List Row) → IsSparse (of_key e c rs) → of_key e c (sort_rows before rs) ≡ of_key e c rs
  sort-sparse [] h = refl
  sort-sparse (r ∷ rs) h = elim (Bool-cases (is_key e c r)) [
    | inl m ↦
        let none_else = IsSparse-alone r (of_key e c rs) (rw m at h) in
        let rest = sort-sparse rs (subst IsSparse (sym none_else) tt) ∙ none_else in
        rw m (insert-key r (sort_rows before rs) m rest ∙ ap (λ rs. r ∷ rs) (sym none_else))
    | inr m ↦ rw m (insert-other r (sort_rows before rs) m ∙ sort-sparse rs (rw m at h))
  ]
