-- ===== src/Investigation/Selection/Last.antt =====
-- bench/investigation/summarize.py: of each engine and case the last result is selected.
use cachelib_grpc_server.Common.{
  String, ◌≡◌, refl, sym, ap, ◌∙◌, subst, eq_iff, Bool, List, [], ◌∷◌, ◌++◌, Result, ok, ◌>>=◌,
  >>=-eq-ok, ok_injective, arith,
}
use cachelib_grpc_server.Investigation.Selection.{
  Found, Row, row, put, read_directory, read_directories, sort_rows, some_rows, main,
}
use cachelib_grpc_server.Investigation.Selection.Keys.{
  of_key, last, IsSparse, put_all, put_all-last, sort-sparse,
}

-- The rows of all results, in the order in which they are read.
unfoldable pub rows_of : List Found → Result String (List Row)
rows_of [] = ok []
rows_of (f ∷ fs) = do r ← row f; rs ← rows_of fs; ok (r ∷ rs)

unfoldable pub all_rows : List (List Found) → Result String (List Row)
unfolding rows_of
all_rows [] = ok []
all_rows (fs ∷ dirs) = do rs ← rows_of fs; ss ← all_rows dirs; ok (rs ++ ss)

put_all-append :
    (rs ss selected : List Row) → put_all (rs ++ ss) selected ≡ put_all ss (put_all rs selected)
put_all-append [] ss selected = refl
put_all-append (r ∷ rs) ss selected = put_all-append rs ss (put r selected)

read_directory-put :
    (fs : List Found) (selected : List Row) {rs : List Row}
    → rows_of fs ≡ ok rs
    → read_directory fs selected ≡ ok (put_all rs selected)
unfolding read_directory rows_of
read_directory-put [] selected h = ap (λ rs. ok (put_all rs selected)) (ok_injective h)
read_directory-put (f ∷ fs) selected h =
    let (r, e, k) = >>=-eq-ok (row f) _ h in
    let (rs, d, l) = >>=-eq-ok (rows_of fs) _ k in
    let rest = read_directory-put fs (put r selected) d in
    rw e (rest ∙ ap (λ rs. ok (put_all rs selected)) (ok_injective l))

read_directories-put :
    (dirs : List (List Found)) (selected : List Row) {rs : List Row}
    → all_rows dirs ≡ ok rs
    → read_directories dirs selected ≡ ok (put_all rs selected)
unfolding read_directories all_rows
read_directories-put [] selected h = ap (λ rs. ok (put_all rs selected)) (ok_injective h)
read_directories-put (fs ∷ dirs) selected h =
    let (rs, d, k) = >>=-eq-ok (rows_of fs) _ h in
    let (ss, g, l) = >>=-eq-ok (all_rows dirs) _ k in
    let rest = read_directories-put dirs (put_all rs selected) g in
    let joined = ap ok (sym (put_all-append rs ss selected)) in
    rw (read_directory-put fs selected d)
      (rest ∙ joined ∙ ap (λ rs. ok (put_all rs selected)) (ok_injective l))

last-IsSparse : (rs : List Row) → IsSparse (last rs)
last-IsSparse [] = tt
last-IsSparse (r ∷ []) = tt
last-IsSparse (r ∷ s ∷ rs) = last-IsSparse (s ∷ rs)

last≢[] : (r : Row) (rs : List Row) → last (r ∷ rs) ≡ [] → ⊥
last≢[] r [] h = cc
last≢[] r (s ∷ rs) h = last≢[] s rs h

of_key-own :
    (r : Row) (rs : List Row) → of_key r.engine r.case (r ∷ rs) ≡ r ∷ of_key r.engine r.case rs
of_key-own r rs = ground (arith, eq_iff r.engine r.engine, eq_iff r.case r.case)

-- Rows that have a key are written.
some_rows-key :
    (e c : String) (rows : List Row) → (of_key e c rows ≡ [] → ⊥) → some_rows rows ≡ ok rows
some_rows-key e c [] h = absurd (h refl)
some_rows-key e c (r ∷ rs) h = refl

module _ (before : Row → Row → Bool) where
  selected-last :
      (e c : String) (all : List Row)
      → of_key e c (sort_rows before (put_all all [])) ≡ last (of_key e c all)
  selected-last e c all =
      let kept = put_all-last e c all [] tt in
      let sparse = subst IsSparse (sym kept) (last-IsSparse (of_key e c all)) in
      sort-sparse before e c (put_all all []) sparse ∙ kept

  -- Where every result has a row, and there is a result, the summary is written, and of each engine
  -- and case it has the last of those rows alone, or none where there was none.
  pub main_last :
      (dirs : List (List Found)) {r : Row} {rs : List Row}
      → all_rows dirs ≡ ok (r ∷ rs)
      → (rows : List Row) × (main before dirs ≡ ok rows)
        × ((e c : String) → of_key e c rows ≡ last (of_key e c (r ∷ rs)))
  unfolding main
  main_last dirs {r} {rs} h =
      let rows = sort_rows before (put_all (r ∷ rs) []) in
      let e = r.engine in
      let c = r.case in
      let own = ap last (of_key-own r rs) in
      let lasts = selected-last e c (r ∷ rs) ∙ own in
      let written = some_rows-key e c rows (λ k. last≢[] r (of_key e c rs) (sym lasts ∙ k)) in
      (rows, rw (read_directories-put dirs [] h) written, λ e c. selected-last e c (r ∷ rs))
